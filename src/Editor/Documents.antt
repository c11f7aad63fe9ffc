-- ===== src/Editor/Documents.antt =====
-- `Editor` (crates/lattice-editor-core/src/lib.rs): the open documents by their identifier, and what
-- opening, closing and changing one of them does to the others.
use abraxius_lattice.Base.{ℕ, ◌≡◌, Bool, none, some, List, arith, if◌then◌else◌}
use abraxius_lattice.Base.Results.{Result, ok, err, ok_or, Method}
use abraxius_lattice.Base.Text.{Text}
use abraxius_lattice.Base.Maps.{
  get, insert, remove, contains_key, nat_key, key_eq, get-insert, get-remove,
}
use abraxius_lattice.Editor.Rope.{RopeOps}
use abraxius_lattice.Editor.Types.{EditorError, document_exists, document_not_found, Document}
use abraxius_lattice.Editor.View.{HasherOps, new}

pub record Editor (Rope : Type 0) : Type 0 where
  pub documents : List (ℕ × Document Rope)

module _ {Rope : Type 0} where
  unfoldable pub close_document : ℕ → Method (Editor Rope) (Unit {0}) EditorError
  close_document id e = elim (get id e.documents) [
    | none ↦ (err (document_not_found id), e)
    | some _ ↦ (ok tt, record { documents = remove id e.documents })
  ]

  unfoldable pub document : ℕ → Editor Rope → Result (Document Rope) EditorError
  document id e = ok_or (get id e.documents) (document_not_found id)

  -- `document_mut`, and a method called on the reference that it returns.
  unfoldable pub document_mut {ℓ} :
      {A : Type ℓ} → ℕ → Method (Document Rope) A EditorError → Method (Editor Rope) A EditorError
  document_mut id method e = elim (get id e.documents) [
    | none ↦ (err (document_not_found id), e)
    | some d ↦ ((method d).0, record { documents = insert id (method d).1 e.documents })
  ]

  -- Closing a document removes it, and no other.
  pub document-close_document :
      (id j : ℕ) (e : Editor Rope)
      → document j (close_document id e).1
        ≡ (if key_eq id j then err (document_not_found j) else document j e)
  unfolding document close_document
  document-close_document id j e = ground (arith, get-remove id j e.documents)

  -- A method on one document changes what is found under its identifier, and under no other.
  pub document-document_mut {ℓ} :
      {A : Type ℓ} (id j : ℕ) (method : Method (Document Rope) A EditorError) (e : Editor Rope)
      {d : Document Rope}
      → document id e ≡ ok d
      → document j (document_mut id method e).1
        ≡ (if key_eq id j then ok (method d).1 else document j e)
  unfolding document document_mut
  document-document_mut id j method e {d} h =
      ground (arith, get-insert id j (method d).1 e.documents)

module _ {Rope Hasher : Type 0} (ops : RopeOps Rope) (hasher : HasherOps Hasher) where
  unfoldable pub open_document : ℕ → Text → Bool → Method (Editor Rope) (Unit {0}) EditorError
  open_document id source read_only e =
      if contains_key id e.documents then (err (document_exists id), e) else (
        ok tt,
        record { documents = insert id (new ops hasher id source read_only) e.documents },
      )

  -- Opening succeeds exactly under a free identifier; the new document is then found there, and all
  -- that was open stays as it was.
  pub document-open_document :
      (id j : ℕ) (source : Text) (read_only : Bool) (e : Editor Rope)
      → document j (open_document id source read_only e).1 ≡ (
          if contains_key id e.documents
          then document j e
          else if key_eq id j
          then ok (new ops hasher id source read_only)
          else document j e)
  unfolding document open_document
  document-open_document id j source read_only e =
      ground (arith, get-insert id j (new ops hasher id source read_only) e.documents)
