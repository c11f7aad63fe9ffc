-- ===== src/Resource/RoundTrip.antt =====
-- The references that are printed are read back (crates/lattice-resource/src/lib.rs).
use abraxius_lattice.Resource.{
  UuidOps, UuidLaws, Blake3Ops, Blake3Laws, ResourceKind, as_str, kind_from, ResourceScope,
  ResourceRef, LatticeId, parse_id, show_id, ◌/:◌, print, parse, parse_body, parse_segments,
  parse_short, parse_cloud, parse_number, ContentHash, bare_hex, from_hex, to_hex, show_hash,
  workspace, studio, cloud, test, invalid_content_hash,
}
use abraxius_lattice.Resource.Kinds.{canonical_kind, kind_from-as_str}
use abraxius_lattice.Base.Results.{ok, err}
use abraxius_lattice.Base.Text.{Text, codes, text_eq, strip_prefix, strip_prefix-append}
use abraxius_lattice.Base.Split.{split, is_empty, any_empty, Lacks, split-append, split-one}
use abraxius_lattice.Base.Decimal.{print_u64, print_u64-Lacks, print_u64-cons, parse_u64-print_u64}
use abraxius_lattice.Base.{
  false, List, Option, none, some, [], ◌++◌, ◌∷◌, ℕ, ◌≤◌, ◌≡◌, ◌≢◌, refl, ap, ◌∙◌, u64_max, arith,
}

-- What can stand between two slashes.
abbrev pub IsSegment : Text → Type 0
IsSegment s = (s ≢ []) × Lacks b'/' s

segment-is_empty : (s : Text) → IsSegment s → is_empty s ≡ false
unfolding is_empty
segment-is_empty [] (ne, l) = absurd (ne refl)
segment-is_empty (c ∷ s) h = refl

abbrev pub AllSegments : List Text → Type 0
AllSegments [] = Unit {0}
AllSegments (s ∷ ss) = IsSegment s × AllSegments ss

segments-any_empty : (ss : List Text) → AllSegments ss → any_empty ss ≡ false
unfolding any_empty
segments-any_empty [] h = refl
segments-any_empty (s ∷ ss) (h, hs) = rw (segment-is_empty s h) (segments-any_empty ss hs)

-- The segments with a slash between them.
abbrev join : List Text → Text
join [] = []
join (s ∷ []) = s
join (s ∷ t ∷ ss) = s ++ (b'/' ∷ join (t ∷ ss))

split-join :
    (s : Text) (ss : List Text) → AllSegments (s ∷ ss) → split b'/' (join (s ∷ ss)) ≡ s ∷ ss
split-join s [] ((ne, l), h) = split-one b'/' s l
split-join s (t ∷ ss) ((ne, l), h) =
    split-append b'/' s (join (t ∷ ss)) l ∙ ap (λ (r : List Text). s ∷ r) (split-join t ss h)

module _ (uuid : UuidOps) where
  parse-join :
      (s : Text) (ss : List Text)
      → AllSegments (s ∷ ss)
      → parse uuid (codes "rbx://" ++ join (s ∷ ss)) ≡ parse_segments uuid (s ∷ ss)
  unfolding parse parse_body
  parse-join s ss h =
      rw
        (
          strip_prefix-append (codes "rbx://") (join (s ∷ ss)),
          split-join s ss h,
          segments-any_empty (s ∷ ss) h,
        )
        refl

module _ (uuid : UuidOps) (laws : UuidLaws uuid) where
  show_id-IsSegment : (i : LatticeId uuid) → IsSegment (show_id uuid i)
  show_id-IsSegment i = (laws.format_nonempty i.as_uuid, laws.format-Lacks i.as_uuid)

  parse_id-show_id : (i : LatticeId uuid) → parse_id uuid (show_id uuid i) ≡ ok i
  unfolding parse_id
  parse_id-show_id i = rw (laws.parse_str-format i.as_uuid) refl

  parse_short-show_id :
      (scope : LatticeId uuid → ResourceScope uuid) (o i : LatticeId uuid) (k : Text)
      → parse_short uuid scope (show_id uuid o) k (show_id uuid i)
        ≡ ok (record { scope = scope o; kind = kind_from k; id = i })
  unfolding parse_short
  parse_short-show_id scope o i k = rw (parse_id-show_id o, parse_id-show_id i) refl

print_u64-IsSegment : (n : ℕ) → IsSegment (print_u64 n)
print_u64-IsSegment n =
    let (c, t, e, le) = print_u64-cons n in ((λ h. cc), print_u64-Lacks n b'/' (omega arith))

parse_number-print_u64 : (n : ℕ) → n ≤ u64_max → parse_number (print_u64 n) ≡ ok n
unfolding parse_number
parse_number-print_u64 n h = rw (parse_u64-print_u64 n h) refl

-- A text without a colon has not the prefix `b3:`.
strip_prefix-Lacks : (t : Text) → Lacks b':' t → strip_prefix (codes "b3:") t ≡ none
unfolding strip_prefix
strip_prefix-Lacks [] l = refl
strip_prefix-Lacks (a ∷ []) l = ground arith
strip_prefix-Lacks (a ∷ b ∷ []) l = ground arith
strip_prefix-Lacks (a ∷ b ∷ c ∷ t) l = ground arith

-- The numbers of the scope are of type `u64`, and the kind is a segment.
abbrev pub IsPrintable : (uuid : UuidOps) → ResourceRef uuid → Type 0
IsPrintable uuid r =
    IsSegment (as_str r.kind)
    × elim r.scope [ cloud u p v ↦ (u ≤ u64_max) × (p ≤ u64_max) × (v ≤ u64_max) | _ ↦ Unit {0} ]

-- The reference with the kind under which it is read back.
abbrev pub canonical : (uuid : UuidOps) → ResourceRef uuid → ResourceRef uuid
canonical uuid r = record { scope = r.scope; kind = canonical_kind r.kind; id = r.id }

short_word :
    (uuid : UuidOps) (laws : UuidLaws uuid) (w k : Text) (o i : LatticeId uuid)
    → IsSegment w
    → IsSegment k
    → parse uuid (codes "rbx://" ++ (w /: show_id uuid o /: k /: show_id uuid i))
      ≡ parse_segments uuid (w ∷ show_id uuid o ∷ k ∷ show_id uuid i ∷ [])
short_word uuid laws w k o i hw hk =
    parse-join uuid w (show_id uuid o ∷ k ∷ show_id uuid i ∷ [])
      (hw, (show_id-IsSegment uuid laws o, (hk, (show_id-IsSegment uuid laws i, tt))))

workspace-IsSegment : IsSegment (codes "workspace")
workspace-IsSegment = ((λ h. cc), ground arith)

studio-IsSegment : IsSegment (codes "studio")
studio-IsSegment = ((λ h. cc), ground arith)

test-IsSegment : IsSegment (codes "test")
test-IsSegment = ((λ h. cc), ground arith)

cloud-IsSegment : IsSegment (codes "cloud")
cloud-IsSegment = ((λ h. cc), ground arith)

version-IsSegment : IsSegment (codes "version")
version-IsSegment = ((λ h. cc), ground arith)

parse-print_short :
    (uuid : UuidOps) (laws : UuidLaws uuid) (w k : Text) (o i : LatticeId uuid)
    (scope : LatticeId uuid → ResourceScope uuid)
    → IsSegment w
    → IsSegment k
    → parse_segments uuid (w ∷ show_id uuid o ∷ k ∷ show_id uuid i ∷ [])
      ≡ parse_short uuid scope (show_id uuid o) k (show_id uuid i)
    → parse uuid (codes "rbx://" ++ (w /: show_id uuid o /: k /: show_id uuid i))
      ≡ ok (record { scope = scope o; kind = kind_from k; id = i })
parse-print_short uuid laws w k o i scope hw hk e =
    short_word uuid laws w k o i hw hk ∙ e ∙ parse_short-show_id uuid laws scope o i k

parse_cloud-print_u64 :
    (uuid : UuidOps) (laws : UuidLaws uuid) (u p v : ℕ) (k : Text) (i : LatticeId uuid)
    → u ≤ u64_max
    → p ≤ u64_max
    → v ≤ u64_max
    → parse_cloud uuid (print_u64 u) (print_u64 p) (print_u64 v) k (show_id uuid i)
      ≡ ok (record { scope = cloud u p v; kind = kind_from k; id = i })
unfolding parse_cloud
parse_cloud-print_u64 uuid laws u p v k i hu hp hv =
    rw
      (
        parse_number-print_u64 u hu,
        parse_number-print_u64 p hp,
        parse_number-print_u64 v hv,
        parse_id-show_id uuid laws i,
      )
      refl

segments_cloud :
    (uuid : UuidOps) (b c e f g : Text)
    → parse_segments uuid (codes "cloud" ∷ b ∷ c ∷ codes "version" ∷ e ∷ f ∷ g ∷ [])
      ≡ parse_cloud uuid b c e f g
unfolding parse_segments text_eq
segments_cloud uuid b c e f g = refl

parse-print_cloud :
    (uuid : UuidOps) (laws : UuidLaws uuid) (u p v : ℕ) (k : Text) (i : LatticeId uuid)
    → IsSegment k
    → u ≤ u64_max
    → p ≤ u64_max
    → v ≤ u64_max
    → parse uuid (
        codes "rbx://"
        ++ (codes "cloud"
            /: print_u64 u
            /: print_u64 p
            /: codes "version"
            /: print_u64 v
            /: k
            /: show_id uuid i))
      ≡ ok (record { scope = cloud u p v; kind = kind_from k; id = i })
parse-print_cloud uuid laws u p v k i hk hu hp hv =
    parse-join uuid (codes "cloud")
      (print_u64 u ∷ print_u64 p ∷ codes "version" ∷ print_u64 v ∷ k ∷ show_id uuid i ∷ [])
      (
        cloud-IsSegment,
        (
          print_u64-IsSegment u,
          (
            print_u64-IsSegment p,
            (version-IsSegment, (print_u64-IsSegment v, (hk, (show_id-IsSegment uuid laws i, tt)))),
          ),
        ),
      )
    ∙ segments_cloud uuid (print_u64 u) (print_u64 p) (print_u64 v) k (show_id uuid i)
    ∙ parse_cloud-print_u64 uuid laws u p v k i hu hp hv

segments_workspace :
    (uuid : UuidOps) (b c d : Text)
    → parse_segments uuid (codes "workspace" ∷ b ∷ c ∷ d ∷ []) ≡ parse_short uuid workspace b c d
unfolding parse_segments text_eq
segments_workspace uuid b c d = refl

segments_studio :
    (uuid : UuidOps) (b c d : Text)
    → parse_segments uuid (codes "studio" ∷ b ∷ c ∷ d ∷ []) ≡ parse_short uuid studio b c d
unfolding parse_segments text_eq
segments_studio uuid b c d = refl

segments_test :
    (uuid : UuidOps) (b c d : Text)
    → parse_segments uuid (codes "test" ∷ b ∷ c ∷ d ∷ []) ≡ parse_short uuid test b c d
unfolding parse_segments text_eq
segments_test uuid b c d = refl

parse-print_scope :
    (uuid : UuidOps) (laws : UuidLaws uuid) (s : ResourceScope uuid) (k : ResourceKind)
    (i : LatticeId uuid)
    → IsPrintable uuid (record { scope = s; kind = k; id = i })
    → parse uuid (print uuid (record { scope = s; kind = k; id = i }))
      ≡ ok (record { scope = s; kind = kind_from (as_str k); id = i })
unfolding print
parse-print_scope uuid laws (workspace o) k i (h, _) =
    parse-print_short uuid laws (codes "workspace") (as_str k) o i workspace workspace-IsSegment h
      (segments_workspace uuid _ _ _)
parse-print_scope uuid laws (studio o) k i (h, _) =
    parse-print_short uuid laws (codes "studio") (as_str k) o i studio studio-IsSegment h
      (segments_studio uuid _ _ _)
parse-print_scope uuid laws (cloud u p v) k i (h, (hu, hp, hv)) =
    parse-print_cloud uuid laws u p v (as_str k) i h hu hp hv
parse-print_scope uuid laws (test o) k i (h, _) =
    parse-print_short uuid laws (codes "test") (as_str k) o i test test-IsSegment h
      (segments_test uuid _ _ _)

-- A reference whose numbers are of type `u64` and whose kind's name is not empty and has no slash
-- is read back from its text: its scope and identifier are the same, and so is its kind, but that a
-- test result is read as a result, and a kind `other` under one of the eight names as its kind.
pub parse-print :
    (uuid : UuidOps) (laws : UuidLaws uuid) (r : ResourceRef uuid)
    → IsPrintable uuid r
    → parse uuid (print uuid r) ≡ ok (canonical uuid r)
parse-print uuid laws r h =
    parse-print_scope uuid laws r.scope r.kind r.id h
    ∙ ap (λ (k : ResourceKind). ok (record { scope = r.scope; kind = k; id = r.id }))
        (kind_from-as_str r.kind)

bare_hex-append : (t : Text) → bare_hex (codes "b3:" ++ t) ≡ t
unfolding bare_hex
bare_hex-append t =
    ap (λ (o : Option Text). elim o [ none ↦ codes "b3:" ++ t | some v ↦ v ])
      (strip_prefix-append (codes "b3:") t)

bare_hex-Lacks : (t : Text) → Lacks b':' t → bare_hex t ≡ t
unfolding bare_hex
bare_hex-Lacks t l =
    ap (λ (o : Option Text). elim o [ none ↦ t | some v ↦ v ]) (strip_prefix-Lacks t l)

from_hex-bare_hex :
    (blake3 : Blake3Ops) (t : Text) (h : ContentHash blake3)
    → blake3.from_hex (bare_hex t) ≡ some h.digest
    → from_hex blake3 t ≡ ok h
unfolding from_hex
from_hex-bare_hex blake3 t h e =
    ap
      (λ (o : Option blake3.Digest). elim o [
        | none ↦ err (invalid_content_hash (bare_hex t))
        | some d ↦ ok (record { digest = d })
      ])
      e

-- The hash of contents is read back from its text with the prefix `b3:` and without it.
pub from_hex-show_hash :
    (blake3 : Blake3Ops) (laws : Blake3Laws blake3) (h : ContentHash blake3)
    → (from_hex blake3 (show_hash blake3 h) ≡ ok h) × (from_hex blake3 (to_hex blake3 h) ≡ ok h)
unfolding show_hash to_hex
from_hex-show_hash blake3 laws h = (
  from_hex-bare_hex blake3 (show_hash blake3 h) h (
      ap (λ (t : Text). blake3.from_hex t) (bare_hex-append (blake3.to_hex h.digest))
      ∙ laws.from_hex-to_hex h.digest),
  from_hex-bare_hex blake3 (to_hex blake3 h) h (
      ap (λ (t : Text). blake3.from_hex t)
        (bare_hex-Lacks (blake3.to_hex h.digest) (laws.to_hex-Lacks h.digest))
      ∙ laws.from_hex-to_hex h.digest),
)
