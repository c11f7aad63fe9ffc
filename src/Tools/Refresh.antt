-- ===== src/Tools/Refresh.antt =====
-- A refresh that fails (crates/lattice-tools/src/lib.rs).
use abraxius_lattice.Tools.Types.{
  ProviderId, ImportedTool, CatalogRefresh, ToolFabricError, ToolDescriptor, ToolId,
}
use abraxius_lattice.Tools.Schema.{SchemaRegistry}
use abraxius_lattice.Tools.Kept.{Kept, import_tools-Kept}
use abraxius_lattice.Tools.Catalog.{
  ToolCatalog, CatalogOps, refresh_provider, refresh_imported, with_schemas, import_tools,
  catalog_revision,
}
use abraxius_lattice.Base.Results.{Result, ok, err, Result-cases}
use abraxius_lattice.Base.Maps.{values, text_key}
use abraxius_lattice.Base.{List, [], ◌≡◌, refl, ap, ◌∙◌, inl, inr, sym, subst, arith}

-- What a catalog shows of tools: all but its schemas.
abbrev pub HasTools : ToolCatalog → ToolCatalog → Type 0
HasTools c d =
    (c.tools ≡ d.tools)
    × (c.provider_tools ≡ d.provider_tools)
    × (c.catalog_revisions ≡ d.catalog_revisions)

refresh_imported-err :
    (ops : CatalogOps) (provider_id : ProviderId) (next : List (ToolId × ToolDescriptor))
    (catalog : ToolCatalog) {e : ToolFabricError}
    → (refresh_imported ops provider_id next catalog).0 ≡ err e
    → (refresh_imported ops provider_id next catalog).1 ≡ catalog
unfolding refresh_imported
refresh_imported-err ops provider_id next catalog {e} h =
    elim (Result-cases (catalog_revision ops (values next))) [
      | inl (r, q) ↦ ground (arith, q)
      | inr (e', q) ↦ ground (arith, q)
    ]

abbrev pub imported_tools :
    CatalogOps
    → ProviderId
    → List ImportedTool
    → ToolCatalog
    → Result (List (ToolId × ToolDescriptor)) ToolFabricError × SchemaRegistry
imported_tools ops provider_id imported catalog =
    import_tools ops.schema_ops provider_id imported [] [] catalog.schema_registry

pub refresh_ok :
    (ops : CatalogOps) (provider_id : ProviderId) (imported : List ImportedTool)
    (catalog : ToolCatalog) (next : List (ToolId × ToolDescriptor))
    → (imported_tools ops provider_id imported catalog).0 ≡ ok next
    → refresh_provider ops provider_id imported catalog
      ≡ refresh_imported ops provider_id next
          (with_schemas (imported_tools ops provider_id imported catalog).1 catalog)
unfolding refresh_provider
refresh_ok ops provider_id imported catalog next q = rw (q, refresh_provider) refl

pub refresh_err :
    (ops : CatalogOps) (provider_id : ProviderId) (imported : List ImportedTool)
    (catalog : ToolCatalog) (e : ToolFabricError)
    → (imported_tools ops provider_id imported catalog).0 ≡ err e
    → refresh_provider ops provider_id imported catalog
      ≡ (err e, with_schemas (imported_tools ops provider_id imported catalog).1 catalog)
unfolding refresh_provider
refresh_err ops provider_id imported catalog e q = rw (q, refresh_provider) refl

-- A refresh that fails leaves the tools, the providers' lists of tools and the revisions of the
-- catalogs as they were, and every schema that was there is there as it was.
pub refresh_provider-err :
    (ops : CatalogOps) (provider_id : ProviderId) (imported : List ImportedTool)
    (catalog : ToolCatalog) (e : ToolFabricError)
    → (refresh_provider ops provider_id imported catalog).0 ≡ err e
    → let after = (refresh_provider ops provider_id imported catalog).1 in
      HasTools after catalog × Kept catalog.schema_registry after.schema_registry
unfolding with_schemas
refresh_provider-err ops provider_id imported catalog e h =
    let m = imported_tools ops provider_id imported catalog in
    let kept =
      import_tools-Kept ops.schema_ops provider_id imported [] [] catalog.schema_registry in
    elim (Result-cases m.0) [
      | inl (next, q) ↦
          subst
            (λ (c : ToolCatalog).
              HasTools c catalog × Kept catalog.schema_registry c.schema_registry)
            (sym (
              ap (λ (r : Result CatalogRefresh ToolFabricError × ToolCatalog). r.1)
                (refresh_ok ops provider_id imported catalog next q)
              ∙ refresh_imported-err ops provider_id next (with_schemas m.1 catalog) (
                  sym (
                    ap (λ (r : Result CatalogRefresh ToolFabricError × ToolCatalog). r.0)
                      (refresh_ok ops provider_id imported catalog next q))
                  ∙ h)))
            ((refl, refl, refl), kept)
      | inr (e', q) ↦
          subst
            (λ (c : ToolCatalog).
              HasTools c catalog × Kept catalog.schema_registry c.schema_registry)
            (sym (
              ap (λ (r : Result CatalogRefresh ToolFabricError × ToolCatalog). r.1)
                (refresh_err ops provider_id imported catalog e' q)))
            ((refl, refl, refl), kept)
    ]
