-- ===== src/Base/Split.antt =====
-- `str::split` on one character.
use abraxius_lattice.Base.Tests.{◌==◌, if◌then◌else◌, Bool-cases}
use abraxius_lattice.Base.Text.{Text}
use Prim.Native.Nat.{ℕ}
use mathlib.Core.Path.{◌≡◌, refl}
use mathlib.Core.Logic.{inl, inr, ◌≢◌}
use mathlib.Core.Bool.{Bool, true, false, ◌||◌}
use mathlib.Core.List.{List, [], ◌∷◌, ◌++◌}
use native.Mathlib.Omega.{arith}

-- The character stands nowhere in the text.
abbrev pub Lacks : ℕ → Text → Type 0
Lacks sep [] = Unit {0}
Lacks sep (c ∷ s) = (c ≢ sep) × Lacks sep s

abbrev cons_head : ℕ → List Text → List Text
cons_head c [] = (c ∷ []) ∷ []
cons_head c (s ∷ ss) = (c ∷ s) ∷ ss

unfoldable pub split : ℕ → Text → List Text
split sep [] = [] ∷ []
split sep (c ∷ t) = let rest = split sep t in if c == sep then [] ∷ rest else cons_head c rest

-- `iter().any(|segment| segment.is_empty())`.
unfoldable pub is_empty : Text → Bool
is_empty [] = true
is_empty (c ∷ t) = false

unfoldable pub any_empty : List Text → Bool
unfolding is_empty
any_empty [] = false
any_empty (s ∷ ss) = is_empty s || any_empty ss

-- A segment up to the separator, and the last one.
pub split-append :
    (sep : ℕ) (s t : Text) → Lacks sep s → split sep (s ++ (sep ∷ t)) ≡ s ∷ split sep t
unfolding split
split-append sep [] t h = ground arith
split-append sep (c ∷ s) t (ne, h) = ground (arith, split-append sep s t h)

pub split-one : (sep : ℕ) (s : Text) → Lacks sep s → split sep s ≡ s ∷ []
unfolding split
split-one sep [] h = refl
split-one sep (c ∷ s) (ne, h) = ground (arith, split-one sep s h)

abbrev pub AllLack : ℕ → List Text → Type 0
AllLack sep [] = Unit {0}
AllLack sep (s ∷ ss) = Lacks sep s × AllLack sep ss

cons_head-AllLack :
    (sep c : ℕ) (ss : List Text) → c ≢ sep → AllLack sep ss → AllLack sep (cons_head c ss)
cons_head-AllLack sep c [] ne h = ((ne, tt), tt)
cons_head-AllLack sep c (s ∷ ss) ne (h, hs) = ((ne, h), hs)

-- No segment holds the separator.
pub split-AllLack : (sep : ℕ) (t : Text) → AllLack sep (split sep t)
unfolding split
split-AllLack sep [] = (tt, tt)
split-AllLack sep (c ∷ t) = elim (Bool-cases (c == sep)) [
  | inl same ↦ rw same (tt, split-AllLack sep t)
  | inr other ↦
      rw other (cons_head-AllLack sep c (split sep t) (λ e. ground arith) (split-AllLack sep t))
]
