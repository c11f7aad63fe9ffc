-- ===== src/Tools/Catalog.antt =====
-- The catalog of tools (crates/lattice-tools/src/lib.rs). A `BTreeSet` stands as a map to nothing.
use abraxius_lattice.Tools.Types.{
  ProviderId, ToolId, ContentHash, ToolRef, ToolDescriptor, ImportedTool, CatalogRefresh,
  ToolAvailability, available, stale, unavailable, quarantined, SchemaRevision, SchemaRecord, Value,
  ToolFabricError, json, invalid_tool_name, duplicate_tool_name,
}
use abraxius_lattice.Tools.Ids.{tool_id}
use abraxius_lattice.Tools.Schema.{SchemaOps, SchemaRegistry, register_schema, get_schema}
use abraxius_lattice.Base.Results.{Result, ok, err, map_err, and_then, continue}
use abraxius_lattice.Base.Text.{Text, text_eq}
use abraxius_lattice.Base.Maps.{text_key, get, insert, contains_key, values}
use abraxius_lattice.Base.{
  Bool, true, false, List, Option, none, some, [], ◌∷◌, ℕ, if◌then◌else◌, ◌&&◌, ◌||◌, leb, ◌==◌,
}

pub record ToolCatalog : Type 0 where
  pub tools : List (ToolId × ToolDescriptor)
  pub provider_tools : List (ProviderId × List (ToolId × Unit {0}))
  pub schema_registry : SchemaRegistry
  pub catalog_revisions : List (ProviderId × ContentHash)

-- What the catalog calls outside itself: for schemas, and `serde_json::to_vec` on tools.
pub record CatalogOps : Type 0 where
  pub schema_ops : SchemaOps
  pub tools_to_vec : List ToolDescriptor → Result (List ℕ) Text

-- `char::is_whitespace`, and `trim().is_empty()`.
unfoldable pub is_whitespace : ℕ → Bool
is_whitespace c =
    (leb 9 c && leb c 13)
    || c == 0x20
    || c == 0x85
    || c == 0xa0
    || c == 0x1680
    || (leb 0x2000 c && leb c 0x200a)
    || c == 0x2028
    || c == 0x2029
    || c == 0x202f
    || c == 0x205f
    || c == 0x3000

unfoldable pub is_blank : Text → Bool
unfolding is_whitespace
is_blank [] = true
is_blank (c ∷ t) = is_whitespace c && is_blank t

unfoldable pub imported_descriptor :
    ToolId → ProviderId → ImportedTool → SchemaRevision → Option SchemaRevision → ToolDescriptor
imported_descriptor id provider_id tool input_schema output_schema = record {
  id = id;
  provider_id = provider_id;
  native_name = tool.native_name;
  title = tool.title;
  provider_description = tool.provider_description;
  input_schema = input_schema;
  output_schema = output_schema;
  capabilities = tool.capabilities;
  verified_semantics = tool.verified_semantics;
  reported_semantics = tool.reported_semantics;
  trust = tool.trust;
  availability = available;
}

-- `map(|schema| register(schema)).transpose()`.
unfoldable pub register_output :
    SchemaOps
    → Option Value
    → SchemaRegistry
    → Result (Option SchemaRevision) ToolFabricError × SchemaRegistry
register_output ops none schemas = (ok none, schemas)
register_output ops (some schema) schemas =
    continue (register_schema ops schema schemas)
      (λ revision schemas'. (ok (some revision), schemas'))

-- The loop over the imported tools, which writes the schema registry as it goes.
unfoldable pub import_tools :
    SchemaOps
    → ProviderId
    → List ImportedTool
    → List (Text × Unit {0})
    → List (ToolId × ToolDescriptor)
    → SchemaRegistry
    → Result (List (ToolId × ToolDescriptor)) ToolFabricError × SchemaRegistry
import_tools ops provider_id [] names next schemas = (ok next, schemas)
import_tools ops provider_id (tool ∷ tools) names next schemas =
    let more = import_tools ops provider_id tools in
    if is_blank tool.native_name
    then (err invalid_tool_name, schemas)
    else if contains_key tool.native_name names
    then (err (duplicate_tool_name tool.native_name), schemas)
    else continue (register_schema ops tool.input_schema schemas) (λ input_schema schemas'.
      continue (register_output ops tool.output_schema schemas') (λ output_schema schemas''.
        more (insert tool.native_name tt names)
          (insert (tool_id ops.hash provider_id tool.native_name)
            (imported_descriptor (tool_id ops.hash provider_id tool.native_name) provider_id tool
              input_schema output_schema)
            next)
          schemas''))

unfoldable pub catalog_revision :
    CatalogOps → List ToolDescriptor → Result ContentHash ToolFabricError
catalog_revision ops tools =
    and_then (map_err json (ops.tools_to_vec tools)) (λ encoded. ok (ops.schema_ops.hash encoded))

unfoldable pub revision_eq : Option SchemaRevision → Option SchemaRevision → Bool
revision_eq none none = true
revision_eq none (some b) = false
revision_eq (some a) none = false
revision_eq (some a) (some b) = text_eq a b

-- What a refresh finds of a tool.
pub data Change : Type 0 where
  was_added : Change
  was_changed : Change
  was_unchanged : Change

unfoldable pub change_of : Option ToolDescriptor → ToolDescriptor → Change
change_of none new = was_added
change_of (some old) new =
    if text_eq old.input_schema new.input_schema && revision_eq old.output_schema new.output_schema
    then was_unchanged
    else was_changed

unfoldable pub is_change : Change → Change → Bool
is_change was_added was_added = true
is_change was_changed was_changed = true
is_change was_unchanged was_unchanged = true
is_change was_added was_changed = false
is_change was_added was_unchanged = false
is_change was_changed was_added = false
is_change was_changed was_unchanged = false
is_change was_unchanged was_added = false
is_change was_unchanged was_changed = false

-- The identifiers that the loop over `current` pushes for one kind of change, in order.
unfoldable pub with_change :
    Change → List (ToolId × ToolDescriptor) → List (ToolId × ToolDescriptor) → List ToolId
unfolding change_of is_change
with_change change tools [] = []
with_change change tools ((id, new) ∷ next) =
    let rest = with_change change tools next in
    if is_change change (change_of (get id tools) new) then id ∷ rest else rest

-- `previous.difference(&current)`.
unfoldable pub difference : List (ToolId × Unit {0}) → List (ToolId × ToolDescriptor) → List ToolId
difference [] next = []
difference ((id, _) ∷ previous) next =
    let rest = difference previous next in if contains_key id next then rest else id ∷ rest

unfoldable pub with_availability : ToolAvailability → ToolDescriptor → ToolDescriptor
with_availability availability tool = record {
  id = tool.id;
  provider_id = tool.provider_id;
  native_name = tool.native_name;
  title = tool.title;
  provider_description = tool.provider_description;
  input_schema = tool.input_schema;
  output_schema = tool.output_schema;
  capabilities = tool.capabilities;
  verified_semantics = tool.verified_semantics;
  reported_semantics = tool.reported_semantics;
  trust = tool.trust;
  availability = availability;
}

unfoldable pub mark_removed :
    List ToolId → List (ToolId × ToolDescriptor) → List (ToolId × ToolDescriptor)
mark_removed [] tools = tools
mark_removed (id ∷ ids) tools = mark_removed ids (elim (get id tools) [
  | none ↦ tools
  | some tool ↦ insert id (with_availability unavailable tool) tools
])

unfoldable pub extend :
    List (ToolId × ToolDescriptor) → List (ToolId × ToolDescriptor) → List (ToolId × ToolDescriptor)
extend [] tools = tools
extend ((id, tool) ∷ next) tools = extend next (insert id tool tools)

unfoldable pub key_set : List (ToolId × ToolDescriptor) → List (ToolId × Unit {0})
key_set [] = []
key_set ((id, tool) ∷ next) = (id, tt) ∷ key_set next

unfoldable pub previous_tools : ProviderId → ToolCatalog → List (ToolId × Unit {0})
previous_tools provider_id catalog = elim (get provider_id catalog.provider_tools) [
  | none ↦ []
  | some ids ↦ ids
]

unfoldable pub with_schemas : SchemaRegistry → ToolCatalog → ToolCatalog
with_schemas schemas catalog = record {
  tools = catalog.tools;
  provider_tools = catalog.provider_tools;
  schema_registry = schemas;
  catalog_revisions = catalog.catalog_revisions;
}

unfoldable pub catalog_refresh :
    ProviderId → ContentHash → List (ToolId × ToolDescriptor) → ToolCatalog → CatalogRefresh
catalog_refresh provider_id revision next catalog = record {
  provider_id = provider_id;
  catalog_revision = revision;
  added = with_change was_added catalog.tools next;
  schema_changed = with_change was_changed catalog.tools next;
  removed = difference (previous_tools provider_id catalog) next;
  unchanged = with_change was_unchanged catalog.tools next;
}

-- After the revision is computed.
unfoldable pub commit_refresh :
    ProviderId → ContentHash → List (ToolId × ToolDescriptor) → ToolCatalog → ToolCatalog
commit_refresh provider_id revision next catalog = record {
  tools =
      extend next
        (mark_removed (difference (previous_tools provider_id catalog) next) catalog.tools);
  provider_tools = insert provider_id (key_set next) catalog.provider_tools;
  schema_registry = catalog.schema_registry;
  catalog_revisions = insert provider_id revision catalog.catalog_revisions;
}

unfoldable pub refresh_imported :
    CatalogOps
    → ProviderId
    → List (ToolId × ToolDescriptor)
    → ToolCatalog
    → Result CatalogRefresh ToolFabricError × ToolCatalog
refresh_imported ops provider_id next catalog = elim (catalog_revision ops (values next)) [
  | err e ↦ (err e, catalog)
  | ok revision ↦ (
    ok (catalog_refresh provider_id revision next catalog),
    commit_refresh provider_id revision next catalog,
  )
]

unfoldable pub refresh_provider :
    CatalogOps
    → ProviderId
    → List ImportedTool
    → ToolCatalog
    → Result CatalogRefresh ToolFabricError × ToolCatalog
refresh_provider ops provider_id imported catalog =
    let (result, schemas) =
      import_tools ops.schema_ops provider_id imported [] [] catalog.schema_registry in
    elim result [
      | err e ↦ (err e, with_schemas schemas catalog)
      | ok next ↦ refresh_imported ops provider_id next (with_schemas schemas catalog)
    ]

unfoldable pub get_tool : ToolRef → ToolCatalog → Option ToolDescriptor
get_tool reference catalog = elim (get reference.tool_id catalog.tools) [
  | none ↦ none
  | some tool ↦ if text_eq tool.provider_id reference.provider_id then some tool else none
]

unfoldable pub is_available : ToolDescriptor → Bool
is_available tool = elim tool.availability [
  | available ↦ true
  | stale ↦ false
  | unavailable ↦ false
  | quarantined ↦ false
]

unfoldable pub filter_tools : (ToolDescriptor → Bool) → List ToolDescriptor → List ToolDescriptor
filter_tools p [] = []
filter_tools p (t ∷ ts) = let rest = filter_tools p ts in if p t then t ∷ rest else rest

unfoldable pub active_tools : ToolCatalog → List ToolDescriptor
active_tools catalog = filter_tools is_available (values catalog.tools)

unfoldable pub schema : SchemaRevision → ToolCatalog → Option SchemaRecord
schema revision catalog = get_schema revision catalog.schema_registry
