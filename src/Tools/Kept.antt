-- ===== src/Tools/Kept.antt =====
-- The schemas that the catalog has stay (crates/lattice-tools/src/lib.rs).
use abraxius_lattice.Tools.Types.{
  ProviderId, ImportedTool, ToolFabricError, ToolDescriptor, ToolId, Value, SchemaRevision,
  SchemaRecord,
}
use abraxius_lattice.Tools.Schema.{
  SchemaOps, SchemaRegistry, register_schema, encode_schema, schema_record, normalize_json,
  or_insert,
}
use abraxius_lattice.Tools.Catalog.{import_tools, register_output, is_blank}
use abraxius_lattice.Base.Results.{Result, ok, err, continue, Result-cases}
use abraxius_lattice.Base.Text.{Text}
use abraxius_lattice.Base.Maps.{text_key, get, contains_key, key_eq, key_eq→eq, get-insert}
use abraxius_lattice.Base.{
  ℕ, true, List, [], ◌∷◌, Option, none, some, ◌≡◌, refl, sym, ap, subst, ◌∙◌, if-split, if-false,
  inl, inr, Bool-cases, length,
}

-- Every schema of the first registry stands in the second one, under the same revision.
abbrev pub Kept : SchemaRegistry → SchemaRegistry → Type 0
Kept before after =
    (revision : SchemaRevision) (entry : SchemaRecord)
    → get revision before ≡ some entry
    → get revision after ≡ some entry

Kept-refl : (schemas : SchemaRegistry) → Kept schemas schemas
Kept-refl schemas revision entry h = h

contains_got :
    (revision : SchemaRevision) (schemas : SchemaRegistry) (entry : SchemaRecord)
    → get revision schemas ≡ some entry
    → contains_key revision schemas ≡ true
unfolding contains_key
contains_got revision schemas entry e = rw (e, contains_key) refl

or_insert-Kept :
    (revision : SchemaRevision) (entry : SchemaRecord) (schemas : SchemaRegistry)
    → Kept schemas (or_insert revision entry schemas)
unfolding or_insert
or_insert-Kept revision entry schemas =
    if-split (Kept schemas) (contains_key revision schemas) (λ _. Kept-refl schemas)
      (λ missing r found h. elim (Bool-cases (key_eq revision r)) [
        | inl hit ↦
            let same = key_eq→eq revision r hit in
            let known =
              contains_got revision schemas found
                (ap (λ (x : SchemaRevision). get x schemas) same ∙ h) in
            absurd cc
        | inr miss ↦ get-insert revision r entry schemas ∙ if-false _ _ miss ∙ h
      ])

register_schema-Kept :
    (ops : SchemaOps) (provider_schema : Value) (schemas : SchemaRegistry)
    → Kept schemas (register_schema ops provider_schema schemas).1
unfolding register_schema
register_schema-Kept ops provider_schema schemas =
    elim (Result-cases (encode_schema ops provider_schema)) [
      | inl (encoded, e) ↦
          subst (λ (m : Result (List ℕ) ToolFabricError). Kept schemas (outcome m).1) (sym e)
            (or_insert-Kept (ops.hash encoded) _ schemas)
      | inr (x, e) ↦
          subst (λ (m : Result (List ℕ) ToolFabricError). Kept schemas (outcome m).1) (sym e)
            (Kept-refl schemas)
    ]
  where
    outcome :
        Result (List ℕ) ToolFabricError → Result SchemaRevision ToolFabricError × SchemaRegistry
    outcome m = elim m [
      | err e ↦ (err e, schemas)
      | ok encoded ↦ (
        ok (ops.hash encoded),
        or_insert (ops.hash encoded)
            (schema_record (ops.hash encoded) provider_schema (normalize_json provider_schema)
              (length encoded))
            schemas,
      )
    ]

continue-Kept :
    {A B : Type 0} (before : SchemaRegistry) (m : Result A ToolFabricError × SchemaRegistry)
    (next : A → SchemaRegistry → Result B ToolFabricError × SchemaRegistry)
    → Kept before m.1
    → ((a : A) (s : SchemaRegistry) → Kept s (next a s).1)
    → Kept before (continue m next).1
continue-Kept before (ok a, s) next h f =
    λ revision entry e. f a s revision entry (h revision entry e)
continue-Kept before (err x, s) next h f = h

register_output-Kept :
    (ops : SchemaOps) (output : Option Value) (schemas : SchemaRegistry)
    → Kept schemas (register_output ops output schemas).1
unfolding register_output
register_output-Kept ops none schemas = Kept-refl schemas
register_output-Kept ops (some v) schemas =
    continue-Kept schemas (register_schema ops v schemas) _ (register_schema-Kept ops v schemas)
      (λ revision s. Kept-refl s)

-- Whatever tools are imported, every schema that was there stays.
pub import_tools-Kept :
    (ops : SchemaOps) (provider : ProviderId) (tools : List ImportedTool)
    (names : List (Text × Unit {0})) (next : List (ToolId × ToolDescriptor))
    (schemas : SchemaRegistry)
    → Kept schemas (import_tools ops provider tools names next schemas).1
unfolding import_tools
import_tools-Kept ops provider [] names next schemas = Kept-refl schemas
import_tools-Kept ops provider (tool ∷ tools) names next schemas =
    if-split Goal (is_blank tool.native_name) (λ _. Kept-refl schemas)
      (λ _.
        if-split Goal (contains_key tool.native_name names) (λ _. Kept-refl schemas)
          (λ _.
            continue-Kept schemas (register_schema ops tool.input_schema schemas) _
              (register_schema-Kept ops tool.input_schema schemas)
              (λ input s.
                continue-Kept s (register_output ops tool.output_schema s) _
                  (register_output-Kept ops tool.output_schema s)
                  (λ output s'. import_tools-Kept ops provider tools _ _ s'))))
  where
    Goal : Result (List (ToolId × ToolDescriptor)) ToolFabricError × SchemaRegistry → Type 0
    Goal x = Kept schemas x.1
