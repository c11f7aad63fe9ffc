-- ===== src/Tools/Entries.antt =====
-- Entries of the catalog that are available tools of one provider (crates/lattice-tools/src/lib.rs).
use abraxius_lattice.Tools.Types.{ProviderId, ToolId, ToolDescriptor, available}
use abraxius_lattice.Tools.Catalog.{extend}
use abraxius_lattice.Base.Maps.{
  text_key, get, insert, key_eq, key_eq→eq, key_eq_iff, compare_text, text-cmp_iff, get-insert,
}
use Prim.Native.Nat.{Ordering}
use Prim.Native.Nat.Ordering.{lt, eq, gt}
use abraxius_lattice.Base.{
  Option, some, List, [], ◌∷◌, ◌≡◌, ◌⊎◌, refl, ◌∙◌, inl, inr, sym, subst, arith, if-split,
}

-- The descriptor is of an available tool of the provider, under this identifier.
abbrev pub IsOf : ProviderId → ToolId → ToolDescriptor → Type 0
IsOf provider id d = (d.id ≡ id) × (d.provider_id ≡ provider) × (d.availability ≡ available)

-- Under the identifier stands an available tool of the provider.
abbrev pub IsStored : ProviderId → ToolId → List (ToolId × ToolDescriptor) → Type 0
IsStored provider id tools = (d : ToolDescriptor) × (get id tools ≡ some d) × IsOf provider id d

-- Inserting such a tool keeps what is stored, and stores it.
insert-IsStored :
    (provider : ProviderId) (j id : ToolId) (d : ToolDescriptor)
    (tools : List (ToolId × ToolDescriptor))
    → IsOf provider j d
    → IsStored provider id tools ⊎ (j ≡ id)
    → IsStored provider id (insert j d tools)
insert-IsStored provider j id d tools (e, p, a) h =
    subst (λ (o : Option ToolDescriptor). (x : ToolDescriptor) × (o ≡ some x) × IsOf provider id x)
      (sym (get-insert j id d tools))
      (if-split
        (λ (o : Option ToolDescriptor). (x : ToolDescriptor) × (o ≡ some x) × IsOf provider id x)
        (key_eq j id) (λ same. (d, refl, (e ∙ key_eq→eq j id same, p, a)))
        (λ other. elim h [
          | inl old ↦ old
          | inr q ↦ absurd (ground (arith, key_eq_iff j id, q, other))
        ]))

-- The entries of a list are available tools of the provider under their own identifiers.
abbrev pub AllOf : ProviderId → List (ToolId × ToolDescriptor) → Type 0
AllOf provider [] = Unit {0}
AllOf provider ((id, d) ∷ next) = IsOf provider id d × AllOf provider next

-- The identifier is among those of the list.
abbrev pub HasId : ToolId → List (ToolId × ToolDescriptor) → Type 0
HasId id [] = ⊥
HasId id ((j, d) ∷ next) = (j ≡ id) ⊎ HasId id next

pub extend-IsStored :
    (provider : ProviderId) (id : ToolId) (next tools : List (ToolId × ToolDescriptor))
    → AllOf provider next
    → IsStored provider id tools ⊎ HasId id next
    → IsStored provider id (extend next tools)
unfolding extend
extend-IsStored provider id [] tools h (inl s) = s
extend-IsStored provider id [] tools h (inr s) = absurd s
extend-IsStored provider id ((j, d) ∷ next) tools (h, hs) (inl s) =
    extend-IsStored provider id next (insert j d tools) hs
      (inl (insert-IsStored provider j id d tools h (inl s)))
extend-IsStored provider id ((j, d) ∷ next) tools (h, hs) (inr (inl e)) =
    extend-IsStored provider id next (insert j d tools) hs
      (inl (insert-IsStored provider j id d tools h (inr e)))
extend-IsStored provider id ((j, d) ∷ next) tools (h, hs) (inr (inr later)) =
    extend-IsStored provider id next (insert j d tools) hs (inr later)

-- `insert` on the three outcomes of its comparison.
insert_lt :
    (k j : ToolId) (d e : ToolDescriptor) (m : List (ToolId × ToolDescriptor))
    → compare_text k j ≡ lt
    → insert k d ((j, e) ∷ m) ≡ (k, d) ∷ (j, e) ∷ m
unfolding insert
insert_lt k j d e m h = rw (h, insert) refl

insert_eq :
    (k j : ToolId) (d e : ToolDescriptor) (m : List (ToolId × ToolDescriptor))
    → compare_text k j ≡ eq
    → insert k d ((j, e) ∷ m) ≡ (k, d) ∷ m
unfolding insert
insert_eq k j d e m h = rw (h, insert) refl

insert_gt :
    (k j : ToolId) (d e : ToolDescriptor) (m : List (ToolId × ToolDescriptor))
    → compare_text k j ≡ gt
    → insert k d ((j, e) ∷ m) ≡ (j, e) ∷ insert k d m
unfolding insert
insert_gt k j d e m h = rw (h, insert) refl

Ordering-cases : (o : Ordering) → (o ≡ lt) ⊎ (o ≡ eq) ⊎ (o ≡ gt)
Ordering-cases lt = inl refl
Ordering-cases eq = inr (inl refl)
Ordering-cases gt = inr (inr refl)

insert_nil-AllOf :
    (provider : ProviderId) (k : ToolId) (d : ToolDescriptor)
    → IsOf provider k d
    → AllOf provider (insert k d [])
unfolding insert
insert_nil-AllOf provider k d h = (h, tt)

pub insert-AllOf :
    (provider : ProviderId) (k : ToolId) (d : ToolDescriptor) (m : List (ToolId × ToolDescriptor))
    → IsOf provider k d
    → AllOf provider m
    → AllOf provider (insert k d m)
insert-AllOf provider k d [] h hs = insert_nil-AllOf provider k d h
insert-AllOf provider k d ((j, e) ∷ m) h (he, hs) = elim (Ordering-cases (compare_text k j)) [
  | inl o ↦ subst (AllOf provider) (sym (insert_lt k j d e m o)) (h, (he, hs))
  | inr (inl o) ↦ subst (AllOf provider) (sym (insert_eq k j d e m o)) (h, hs)
  | inr (inr o) ↦
      subst (AllOf provider) (sym (insert_gt k j d e m o)) (he, insert-AllOf provider k d m h hs)
]

insert_nil-HasId : (id k : ToolId) (d : ToolDescriptor) → k ≡ id → HasId id (insert k d [])
unfolding insert
insert_nil-HasId id k d e = inl e

merge_key :
    (id k j : ToolId) (m : List (ToolId × ToolDescriptor))
    → k ≡ j
    → (k ≡ id) ⊎ ((j ≡ id) ⊎ HasId id m)
    → (k ≡ id) ⊎ HasId id m
merge_key id k j m e (inl h) = inl h
merge_key id k j m e (inr (inl h)) = inl (e ∙ h)
merge_key id k j m e (inr (inr h)) = inr h

pass_key :
    (id k j : ToolId) (d : ToolDescriptor) (m : List (ToolId × ToolDescriptor))
    → ((k ≡ id) ⊎ HasId id m → HasId id (insert k d m))
    → (k ≡ id) ⊎ ((j ≡ id) ⊎ HasId id m)
    → (j ≡ id) ⊎ HasId id (insert k d m)
pass_key id k j d m ih (inl h) = inr (ih (inl h))
pass_key id k j d m ih (inr (inl h)) = inl h
pass_key id k j d m ih (inr (inr h)) = inr (ih (inr h))

pub insert-HasId :
    (id k : ToolId) (d : ToolDescriptor) (m : List (ToolId × ToolDescriptor))
    → (k ≡ id) ⊎ HasId id m
    → HasId id (insert k d m)
insert-HasId id k d [] (inl e) = insert_nil-HasId id k d e
insert-HasId id k d [] (inr h) = absurd h
insert-HasId id k d ((j, e) ∷ m) h = elim (Ordering-cases (compare_text k j)) [
  | inl o ↦ subst (HasId id) (sym (insert_lt k j d e m o)) h
  | inr (inl o) ↦
      subst (HasId id) (sym (insert_eq k j d e m o)) (merge_key id k j m ((text-cmp_iff k j).0 o) h)
  | inr (inr o) ↦
      subst (HasId id) (sym (insert_gt k j d e m o)) (pass_key id k j d m (insert-HasId id k d m) h)
]
