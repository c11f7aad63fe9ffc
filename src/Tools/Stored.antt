-- ===== src/Tools/Stored.antt =====
-- What a successful refresh stores (crates/lattice-tools/src/lib.rs).
use abraxius_lattice.Tools.Types.{
  ProviderId, ToolId, ImportedTool, CatalogRefresh, ToolFabricError, ToolDescriptor, SchemaRevision,
  ContentHash,
}
use abraxius_lattice.Tools.Ids.{tool_id}
use abraxius_lattice.Tools.Schema.{SchemaOps, SchemaRegistry, register_schema}
use abraxius_lattice.Tools.Catalog.{
  ToolCatalog, CatalogOps, refresh_provider, refresh_imported, import_tools, catalog_revision,
  imported_descriptor, commit_refresh, is_blank, register_output, mark_removed, difference,
  previous_tools, catalog_refresh,
}
use abraxius_lattice.Tools.Entries.{
  AllOf, HasId, IsOf, IsStored, extend-IsStored, insert-AllOf, insert-HasId,
}
use abraxius_lattice.Tools.Refresh.{imported_tools, refresh_ok, refresh_err}
use abraxius_lattice.Base.Results.{Result, ok, err, Result-cases, continue}
use abraxius_lattice.Base.Text.{Text}
use abraxius_lattice.Base.Maps.{text_key, insert, values, contains_key}
use abraxius_lattice.Base.{
  ℕ, Option, List, [], ◌∷◌, ◌≡◌, refl, ap, ◌∙◌, inl, inr, sym, subst, arith, if-split,
}

-- Every imported tool's identifier is in the list.
abbrev AllImported :
    (List ℕ → List ℕ) → ProviderId → List ImportedTool → List (ToolId × ToolDescriptor) → Type 0
AllImported hash provider [] next = Unit {0}
AllImported hash provider (tool ∷ tools) next =
    HasId (tool_id hash provider tool.native_name) next × AllImported hash provider tools next

-- What an import makes of the list `next` that it began with.
abbrev Imported :
    SchemaOps
    → ProviderId
    → List ImportedTool
    → List (ToolId × ToolDescriptor)
    → List (ToolId × ToolDescriptor)
    → Type 0
Imported ops provider tools next next' =
    AllOf provider next'
    × ((id : ToolId) → HasId id next → HasId id next')
    × AllImported ops.hash provider tools next'

continue-ok {ℓ κ ι} :
    {A B : Type ℓ} {E : Type κ} {S : Type ι} (m : Result A E × S) (f : A → S → Result B E × S)
    {b : B}
    → (continue m f).0 ≡ ok b
    → (a : A) × (s : S) × ((f a s).0 ≡ ok b)
continue-ok (ok a, s) f h = (a, s, h)
continue-ok (err e, s) f h = cc

imported_descriptor-IsOf :
    (id : ToolId) (provider : ProviderId) (tool : ImportedTool) (i : SchemaRevision)
    (o : Option SchemaRevision)
    → IsOf provider id (imported_descriptor id provider tool i o)
unfolding imported_descriptor
imported_descriptor-IsOf id provider tool i o = (refl, refl, refl)

import_tools-Imported :
    (ops : SchemaOps) (provider : ProviderId) (tools : List ImportedTool)
    (names : List (Text × Unit {0})) (next : List (ToolId × ToolDescriptor))
    (schemas : SchemaRegistry) {next' : List (ToolId × ToolDescriptor)}
    → (import_tools ops provider tools names next schemas).0 ≡ ok next'
    → AllOf provider next
    → Imported ops provider tools next next'
unfolding import_tools
import_tools-Imported ops provider [] names next schemas {next'} h a =
    let same : next ≡ next' = cc in
    (subst (AllOf provider) same a, (λ id i. subst (HasId id) same i), tt)
import_tools-Imported ops provider (tool ∷ tools) names next schemas {next'} h a =
    if-split
      (λ (r : Result (List (ToolId × ToolDescriptor)) ToolFabricError × SchemaRegistry).
        r.0 ≡ ok next' → Imported ops provider (tool ∷ tools) next next')
      (is_blank tool.native_name) (λ _ q. cc)
      (λ _.
        if-split
          (λ (r : Result (List (ToolId × ToolDescriptor)) ToolFabricError × SchemaRegistry).
            r.0 ≡ ok next' → Imported ops provider (tool ∷ tools) next next')
          (contains_key tool.native_name names) (λ _ q. cc)
          (λ _ q.
            let (input, schemas', q') =
              continue-ok (register_schema ops tool.input_schema schemas) _ q in
            let (output, schemas'', q'') =
              continue-ok (register_output ops tool.output_schema schemas') _ q' in
            let id = tool_id ops.hash provider tool.native_name in
            let d = imported_descriptor id provider tool input output in
            let (all, keep, there) =
              import_tools-Imported ops provider tools (insert tool.native_name tt names)
                (insert id d next) schemas'' q''
                (insert-AllOf provider id d next
                  (imported_descriptor-IsOf id provider tool input output) a) in
            (
              all,
              λ j i. keep j (insert-HasId j id d next (inr i)),
              (keep id (insert-HasId id id d next (inl refl)), there),
            )))
      h

err_ok : {e : ToolFabricError} {r : CatalogRefresh} → ¬ ((err e) ≡ ok r)
err_ok h = cc

commit_refresh-IsStored :
    (provider : ProviderId) (id : ToolId) (revision : ContentHash)
    (next : List (ToolId × ToolDescriptor)) (catalog : ToolCatalog)
    → AllOf provider next
    → HasId id next
    → IsStored provider id (commit_refresh provider revision next catalog).tools
unfolding commit_refresh
commit_refresh-IsStored provider id revision next catalog a i =
    extend-IsStored provider id next
      (mark_removed (difference (previous_tools provider catalog) next) catalog.tools) a (inr i)

refresh_imported-ok :
    (ops : CatalogOps) (provider : ProviderId) (id : ToolId) (next : List (ToolId × ToolDescriptor))
    (catalog : ToolCatalog) {r : CatalogRefresh}
    → (refresh_imported ops provider next catalog).0 ≡ ok r
    → AllOf provider next
    → HasId id next
    → IsStored provider id (refresh_imported ops provider next catalog).1.tools
unfolding refresh_imported
refresh_imported-ok ops provider id next catalog h a i =
    elim (Result-cases (catalog_revision ops (values next))) [
      | inl (revision, q) ↦
          subst
            (λ (x : Result ContentHash ToolFabricError).
              IsStored provider id
                (elim x as (λ _. Result CatalogRefresh ToolFabricError × ToolCatalog) [
                  | err e ↦ (err e, catalog)
                  | ok v ↦ (
                    ok (catalog_refresh provider v next catalog),
                    commit_refresh provider v next catalog,
                  )
                ]).1.tools)
            (sym q) (commit_refresh-IsStored provider id revision next catalog a i)
      | inr (e, q) ↦ absurd (ground (arith, q, h))
    ]

-- Every tool of the list is stored.
abbrev pub AllStored : (List ℕ → List ℕ) → ProviderId → List ImportedTool → ToolCatalog → Type 0
AllStored hash provider [] catalog = Unit {0}
AllStored hash provider (tool ∷ tools) catalog =
    IsStored provider (tool_id hash provider tool.native_name) catalog.tools
    × AllStored hash provider tools catalog

AllImported→AllStored :
    (hash : List ℕ → List ℕ) (provider : ProviderId) (tools : List ImportedTool)
    (next : List (ToolId × ToolDescriptor)) (catalog : ToolCatalog)
    → ((id : ToolId) → HasId id next → IsStored provider id catalog.tools)
    → AllImported hash provider tools next
    → AllStored hash provider tools catalog
AllImported→AllStored hash provider [] next catalog f h = tt
AllImported→AllStored hash provider (tool ∷ tools) next catalog f (h, hs) = (
  f (tool_id hash provider tool.native_name) h,
  AllImported→AllStored hash provider tools next catalog f hs,
)

-- After a successful refresh every imported tool is found in the catalog: under the identifier of
-- its name stands an available tool of the provider with that identifier.
pub refresh_provider-AllStored :
    (ops : CatalogOps) (provider : ProviderId) (imported : List ImportedTool)
    (catalog : ToolCatalog) (r : CatalogRefresh)
    → (refresh_provider ops provider imported catalog).0 ≡ ok r
    → AllStored ops.schema_ops.hash provider imported
        (refresh_provider ops provider imported catalog).1
refresh_provider-AllStored ops provider imported catalog r h =
    elim (Result-cases (imported_tools ops provider imported catalog).0) [
      | inl (next, q) ↦
          let done = refresh_ok ops provider imported catalog next q in
          let (all, keep, there) =
            import_tools-Imported ops.schema_ops provider imported [] [] catalog.schema_registry q
              tt in
          AllImported→AllStored ops.schema_ops.hash provider imported next _
            (λ id i.
              subst
                (λ (x : Result CatalogRefresh ToolFabricError × ToolCatalog).
                  IsStored provider id x.1.tools)
                (sym done)
                (refresh_imported-ok ops provider id next _
                  (sym (ap (λ (x : Result CatalogRefresh ToolFabricError × ToolCatalog). x.0) done)
                    ∙ h)
                  all i))
            there
      | inr (e, q) ↦
          let failed = refresh_err ops provider imported catalog e q in
          absurd (
            err_ok (
              sym (ap (λ (x : Result CatalogRefresh ToolFabricError × ToolCatalog). x.0) failed)
              ∙ h))
    ]
