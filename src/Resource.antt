-- ===== src/Resource.antt =====
-- Canonical references `rbx://…` (crates/lattice-resource/src/lib.rs): their printing and parsing,
-- and the identity of contents. The crates uuid and blake3 are parameters.
pub mod Kinds
pub mod RoundTrip
use abraxius_lattice.Base.Results.{Result, ok, err, and_then, ok_or, map_err}
use abraxius_lattice.Base.Text.{Text, codes, text_eq, strip_prefix}
use abraxius_lattice.Base.Split.{split, any_empty, Lacks}
use abraxius_lattice.Base.Decimal.{print_u64, parse_u64}
use abraxius_lattice.Base.{
  Bool, List, Option, none, some, [], ◌++◌, ◌∷◌, ℕ, if◌then◌else◌, ◌≡◌, ◌≢◌,
}

-- `Uuid`: its `Display` and `Uuid::parse_str`.
pub record UuidOps : Type 1 where
  pub Uuid : Type 0
  pub format : Uuid → Text
  pub parse_str : Text → Option Uuid

-- The hyphenated form is read back, it is not empty and it has no slash.
pub record UuidLaws (ops : UuidOps) : Type 0 where
  pub parse_str-format : (u : ops.Uuid) → ops.parse_str (ops.format u) ≡ some u
  pub format_nonempty : (u : ops.Uuid) → ops.format u ≢ []
  pub format-Lacks : (u : ops.Uuid) → Lacks b'/' (ops.format u)

-- `blake3::Hash` as its 32 bytes: `hash`, `to_hex` and `from_hex`.
pub record Blake3Ops : Type 1 where
  pub Digest : Type 0
  pub hash : List ℕ → Digest
  pub to_hex : Digest → Text
  pub from_hex : Text → Option Digest

-- A digest's hexadecimal form is read back, and begins with no `b3:` (its digits have no colon).
pub record Blake3Laws (ops : Blake3Ops) : Type 0 where
  pub from_hex-to_hex : (h : ops.Digest) → ops.from_hex (ops.to_hex h) ≡ some h
  pub to_hex-Lacks : (h : ops.Digest) → Lacks b':' (ops.to_hex h)

pub data ResourceKind : Type 0 where
  project : ResourceKind
  place : ResourceKind
  instance_kind : ResourceKind
  script : ResourceKind
  symbol : ResourceKind
  result : ResourceKind
  diagnostic : ResourceKind
  change_set : ResourceKind
  test_result : ResourceKind
  other : Text → ResourceKind

unfoldable pub as_str : ResourceKind → Text
as_str project = codes "project"
as_str place = codes "place"
as_str instance_kind = codes "instance"
as_str script = codes "script"
as_str symbol = codes "symbol"
as_str result = codes "result"
as_str diagnostic = codes "diagnostic"
as_str change_set = codes "changeset"
as_str test_result = codes "result"
as_str (other value) = value

unfoldable pub kind_from : Text → ResourceKind
kind_from value =
    if text_eq value (codes "project")
    then project
    else if text_eq value (codes "place")
    then place
    else if text_eq value (codes "instance")
    then instance_kind
    else if text_eq value (codes "script")
    then script
    else if text_eq value (codes "symbol")
    then symbol
    else if text_eq value (codes "result")
    then result
    else if text_eq value (codes "diagnostic")
    then diagnostic
    else if text_eq value (codes "changeset")
    then change_set
    else other value

pub data ResourceRefError : Type 0 where
  invalid_scheme : ResourceRefError
  invalid_grammar : ResourceRefError
  invalid_id : Text → ResourceRefError
  invalid_number : Text → ResourceRefError
  invalid_content_hash : Text → ResourceRefError

unfoldable pub parse_number : Text → Result ℕ ResourceRefError
parse_number value = ok_or (parse_u64 value) (invalid_number value)

-- Two segments of a reference.
infixr 20 ◌/:◌
abbrev pub ◌/:◌ : Text → Text → Text
s /: t = s ++ (b'/' ∷ t)

-- `strip_prefix("b3:").unwrap_or(value)`.
unfoldable pub bare_hex : Text → Text
bare_hex value = elim (strip_prefix (codes "b3:") value) [ none ↦ value | some v ↦ v ]

module _ (uuid : UuidOps) where
  -- `LatticeId`, a `Uuid` that is not looked into.
  pub record LatticeId : Type 0 where
    pub as_uuid : uuid.Uuid

  unfoldable pub parse_id : Text → Result LatticeId ResourceRefError
  parse_id value =
      ok_or (elim (uuid.parse_str value) [ none ↦ none | some u ↦ some (record { as_uuid = u }) ])
        (invalid_id value)

  abbrev pub show_id : LatticeId → Text
  show_id id = uuid.format id.as_uuid

  pub data ResourceScope : Type 0 where
    workspace : LatticeId → ResourceScope
    studio : LatticeId → ResourceScope
    cloud : ℕ → ℕ → ℕ → ResourceScope
    test : LatticeId → ResourceScope

  pub record ResourceRef : Type 0 where
    pub scope : ResourceScope
    pub kind : ResourceKind
    pub id : LatticeId

  unfoldable pub print : ResourceRef → Text
  print r = elim r.scope [
    | workspace w ↦
        codes "rbx://" ++ (codes "workspace" /: show_id w /: as_str r.kind /: show_id r.id)
    | studio s ↦ codes "rbx://" ++ (codes "studio" /: show_id s /: as_str r.kind /: show_id r.id)
    | cloud u p v ↦
        codes "rbx://"
        ++ (codes "cloud"
            /: print_u64 u
            /: print_u64 p
            /: codes "version"
            /: print_u64 v
            /: as_str r.kind
            /: show_id r.id)
    | test t ↦ codes "rbx://" ++ (codes "test" /: show_id t /: as_str r.kind /: show_id r.id)
  ]

  -- The arms with four segments: the fields are parsed in the order in which they are written.
  unfoldable pub parse_short :
      (LatticeId → ResourceScope) → Text → Text → Text → Result ResourceRef ResourceRefError
  parse_short scope owner kind id = and_then (parse_id owner) (λ o.
      and_then (parse_id id) (λ i. ok (record { scope = scope o; kind = kind_from kind; id = i })))

  unfoldable pub parse_cloud :
      Text → Text → Text → Text → Text → Result ResourceRef ResourceRefError
  parse_cloud universe place_id version kind id = and_then (parse_number universe) (λ u.
      and_then (parse_number place_id) (λ p. and_then (parse_number version) (λ v.
        and_then (parse_id id)
          (λ i. ok (record { scope = cloud u p v; kind = kind_from kind; id = i })))))

  unfoldable pub parse_segments : List Text → Result ResourceRef ResourceRefError
  parse_segments (a ∷ b ∷ c ∷ d ∷ []) =
      if text_eq a (codes "workspace")
      then parse_short workspace b c d
      else if text_eq a (codes "studio")
      then parse_short studio b c d
      else if text_eq a (codes "test")
      then parse_short test b c d
      else err invalid_grammar
  parse_segments (a ∷ b ∷ c ∷ d ∷ e ∷ f ∷ g ∷ []) =
      if text_eq a (codes "cloud")
      then if text_eq d (codes "version") then parse_cloud b c e f g else err invalid_grammar
      else err invalid_grammar
  parse_segments [] = err invalid_grammar
  parse_segments (a ∷ []) = err invalid_grammar
  parse_segments (a ∷ b ∷ []) = err invalid_grammar
  parse_segments (a ∷ b ∷ c ∷ []) = err invalid_grammar
  parse_segments (a ∷ b ∷ c ∷ d ∷ e ∷ []) = err invalid_grammar
  parse_segments (a ∷ b ∷ c ∷ d ∷ e ∷ f ∷ []) = err invalid_grammar
  parse_segments (a ∷ b ∷ c ∷ d ∷ e ∷ f ∷ g ∷ h ∷ t) = err invalid_grammar

  unfoldable pub parse_body : Text → Result ResourceRef ResourceRefError
  parse_body body =
      let segments = split b'/' body in
      if any_empty segments then err invalid_grammar else parse_segments segments

  -- `ResourceRef::from_str`.
  unfoldable pub parse : Text → Result ResourceRef ResourceRefError
  parse value = and_then (ok_or (strip_prefix (codes "rbx://") value) invalid_scheme) parse_body

module _ (blake3 : Blake3Ops) where
  pub record ContentHash : Type 0 where
    pub digest : blake3.Digest

  unfoldable pub of : List ℕ → ContentHash
  of bytes = record { digest = blake3.hash bytes }

  unfoldable pub from_hex : Text → Result ContentHash ResourceRefError
  from_hex value = elim (blake3.from_hex (bare_hex value)) [
    | none ↦ err (invalid_content_hash (bare_hex value))
    | some h ↦ ok (record { digest = h })
  ]

  unfoldable pub to_hex : ContentHash → Text
  to_hex h = blake3.to_hex h.digest

  unfoldable pub show_hash : ContentHash → Text
  show_hash h = codes "b3:" ++ blake3.to_hex h.digest
