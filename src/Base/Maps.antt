-- ===== src/Base/Maps.antt =====
-- Rust's `BTreeMap` as a list of entries that is kept in the order of its keys.
use Prim.Native.Nat.{ℕ, compare, Ordering, ◌≤◌, ◌+◌}
use Prim.Native.Nat.Ordering.{lt, eq, gt}
use mathlib.Core.Path.{◌≡◌, refl}
use mathlib.Core.Logic.{◌↔◌}
use mathlib.Core.Bool.{Bool, true, false}
use mathlib.Core.Option.{Option, none, some}
use mathlib.Core.List.{List, [], ◌∷◌}
use native.Mathlib.Omega.{arith}
use abraxius_lattice.Base.Tests.{if◌then◌else◌}
use abraxius_lattice.Base.Text.{Text}
use abraxius_lattice.Base.Lists.{length}

-- `Ord` on the type of the keys: what is compared as equal is equal.
pub record Key (K : Type 0) : Type 0 where
  pub cmp : K → K → Ordering
  pub cmp_iff : (a b : K) → (cmp a b ≡ eq) ↔ (a ≡ b)

pub nat-cmp_iff : (a b : ℕ) → (compare a b ≡ eq) ↔ (a ≡ b)
nat-cmp_iff a b = (λ h. ground arith, λ h. ground arith)

instance abbrev pub nat_key : Key ℕ
nat_key = record { cmp = compare; cmp_iff = nat-cmp_iff }

-- The lexicographic order of texts and byte arrays.
unfoldable pub compare_text : Text → Text → Ordering
compare_text [] [] = eq
compare_text [] (d ∷ t) = lt
compare_text (c ∷ s) [] = gt
compare_text (c ∷ s) (d ∷ t) =
    let rest = compare_text s t in elim (compare c d) [ eq ↦ rest | o ↦ o ]

compare_text→eq : (s t : Text) → compare_text s t ≡ eq → s ≡ t
unfolding compare_text
compare_text→eq [] [] h = refl
compare_text→eq [] (d ∷ t) h = cc
compare_text→eq (c ∷ s) [] h = cc
compare_text→eq (c ∷ s) (d ∷ t) h = ground (arith, compare_text→eq s t)

compare_text_self : (s : Text) → compare_text s s ≡ eq
unfolding compare_text
compare_text_self [] = refl
compare_text_self (c ∷ s) = ground (arith, compare_text_self s)

pub text-cmp_iff : (s t : Text) → (compare_text s t ≡ eq) ↔ (s ≡ t)
text-cmp_iff s t = (compare_text→eq s t, λ e. rw e (compare_text_self t))

instance abbrev pub text_key : Key Text
text_key = record { cmp = compare_text; cmp_iff = text-cmp_iff }

module _ {K : Type 0} ⦃key : Key K⦄ where
  abbrev pub key_eq : K → K → Bool
  key_eq a b = elim (key.cmp a b) [ eq ↦ true | _ ↦ false ]

  pub key_eq→eq : (a b : K) → key_eq a b ≡ true → a ≡ b
  key_eq→eq a b h = (key.cmp_iff a b).0 (ground arith)

  pub key_eq_self : (a : K) → key_eq a a ≡ true
  key_eq_self a = rw ((key.cmp_iff a a).1 refl, key_eq)

  pub key_eq_iff : (a b : K) → (key_eq a b ≡ true) ↔ (a ≡ b)
  key_eq_iff a b = (key_eq→eq a b, λ e. rw e (key_eq_self b))

module _ {ℓ} {K : Type 0} ⦃key : Key K⦄ {V : Type ℓ} where
  unfoldable pub get : K → List (K × V) → Option V
  get k [] = none
  get k ((j, v) ∷ m) = let rest = get k m in if key_eq j k then some v else rest

  unfoldable pub insert : K → V → List (K × V) → List (K × V)
  insert k v [] = (k, v) ∷ []
  insert k v ((j, w) ∷ m) =
      let rest = insert k v m in
      elim (key.cmp k j) [ lt ↦ (k, v) ∷ (j, w) ∷ m | eq ↦ (k, v) ∷ m | gt ↦ (j, w) ∷ rest ]

  unfoldable pub remove : K → List (K × V) → List (K × V)
  remove k [] = []
  remove k ((j, w) ∷ m) = let rest = remove k m in if key_eq j k then rest else (j, w) ∷ rest

  unfoldable pub contains_key : K → List (K × V) → Bool
  contains_key k m = elim (get k m) [ none ↦ false | some _ ↦ true ]

  unfoldable pub keys : List (K × V) → List K
  keys [] = []
  keys ((k, v) ∷ m) = k ∷ keys m

  unfoldable pub values : List (K × V) → List V
  values [] = []
  values ((k, v) ∷ m) = v ∷ values m

  pub get-insert :
      (k j : K) (v : V) (m : List (K × V))
      → get j (insert k v m) ≡ (if key_eq k j then some v else get j m)
  unfolding get insert
  get-insert k j v [] = refl
  get-insert k j v ((i, w) ∷ m) =
      ground (arith, key.cmp_iff k j, key.cmp_iff k i, key.cmp_iff i j, get-insert k j v m)

  pub get-insert_self : (k : K) (v : V) (m : List (K × V)) → get k (insert k v m) ≡ some v
  get-insert_self k v m = rw (get-insert k k v m, key_eq_self k)

  pub get-remove :
      (k j : K) (m : List (K × V)) → get j (remove k m) ≡ (if key_eq k j then none else get j m)
  unfolding get remove
  get-remove k j [] = ground arith
  get-remove k j ((i, w) ∷ m) =
      ground (arith, key.cmp_iff i k, key.cmp_iff i j, key.cmp_iff k j, get-remove k j m)

  pub length-insert_le : (k : K) (v : V) (m : List (K × V)) → length (insert k v m) ≤ 1 + length m
  unfolding insert
  length-insert_le k v [] = omega arith
  length-insert_le k v ((j, w) ∷ m) = ground (arith, length-insert_le k v m)

  pub length-remove_le : (k : K) (m : List (K × V)) → length (remove k m) ≤ length m
  unfolding remove
  length-remove_le k [] = omega arith
  length-remove_le k ((j, w) ∷ m) = ground (arith, length-remove_le k m)

  -- `get_mut` and an assignment: the value under a key is written in place.
  unfoldable pub update : K → V → List (K × V) → List (K × V)
  update k v [] = []
  update k v ((j, w) ∷ m) =
      let rest = update k v m in if key_eq j k then (j, v) ∷ rest else (j, w) ∷ rest

  pub length-update : (k : K) (v : V) (m : List (K × V)) → length (update k v m) ≡ length m
  unfolding update
  length-update k v [] = refl
  length-update k v ((j, w) ∷ m) = ground (arith, length-update k v m)

  -- An update is seen under its own key if the key is there, and under no other one.
  pub get-update_self :
      (k : K) (v : V) (m : List (K × V)) {w : V} → get k m ≡ some w → get k (update k v m) ≡ some v
  unfolding get update
  get-update_self k v [] h = cc
  get-update_self k v ((i, u) ∷ m) {w} h = ground (arith, get-update_self k v m {w = w})

  pub get-update_other :
      (k j : K) (v : V) (m : List (K × V)) → key_eq k j ≡ false → get j (update k v m) ≡ get j m
  unfolding get update
  get-update_other k j v [] h = refl
  get-update_other k j v ((i, u) ∷ m) h =
      ground (arith, h, key.cmp_iff i k, key.cmp_iff i j, key.cmp_iff k j, get-update_other k j v m)

  pub remove_missing : (k : K) (m : List (K × V)) → get k m ≡ none → remove k m ≡ m
  unfolding get remove
  remove_missing k [] h = refl
  remove_missing k ((j, w) ∷ m) h = ground (arith, remove_missing k m)

  -- A key that was not there comes and goes without a trace.
  pub remove-insert :
      (k : K) (v : V) (m : List (K × V)) → get k m ≡ none → remove k (insert k v m) ≡ m
  unfolding get insert remove
  remove-insert k v [] h = ground (arith, key_eq_self k)
  remove-insert k v ((j, w) ∷ m) h = ground (
    arith,
    key_eq_self k,
    key.cmp_iff j k,
    key.cmp_iff k j,
    remove-insert k v m,
    remove_missing k m,
  )
