-- ===== src/Base/Results.antt =====
-- Errors as values: Rust's `Result`, and methods on `&mut self` that may fail. A failing method
-- keeps what it has written, so the state comes back beside the error too.
use mathlib.Core.Path.{◌≡◌, refl}
use mathlib.Core.Logic.{◌⊎◌, inl, inr}
use mathlib.Core.Option.{Option, none, some}

pub data Result {ℓ κ} (A : Type ℓ) (E : Type κ) : Type (ℓ ⊔ κ) where
  ok : A → Result A E
  err : E → Result A E

-- The `?` operator on a `Result`.
abbrev pub and_then {ℓ κ} : {A B : Type ℓ} {E : Type κ} → Result A E → (A → Result B E) → Result B E
and_then (ok a) f = f a
and_then (err e) f = err e

abbrev pub ok_or {ℓ κ} : {A : Type ℓ} {E : Type κ} → Option A → E → Result A E
ok_or none e = err e
ok_or (some a) e = ok a

abbrev pub map_err {ℓ κ ι} :
    {A : Type ℓ} {E : Type κ} {F : Type ι} → (E → F) → Result A E → Result A F
map_err f (ok a) = ok a
map_err f (err e) = err (f e)

-- The `?` operator on a method's result: on an error the state is the one that it left.
abbrev pub continue {ℓ κ ι} :
    {A B : Type ℓ} {E : Type κ} {S : Type ι}
    → Result A E × S
    → (A → S → Result B E × S)
    → Result B E × S
continue (ok a, s) f = f a s
continue (err e, s) f = (err e, s)

-- A method on `&mut self` over the state `S`.
abbrev pub Method {ℓ κ ι} : Type ι → Type ℓ → Type κ → Type (ℓ ⊔ κ ⊔ ι)
Method S A E = S → Result A E × S

module _ {ℓ κ ι} {A B : Type ℓ} {E : Type κ} {S : Type ι} where
  infixl 5 ◌>>=◌
  abbrev pub ◌>>=◌ : Method S A E → (A → Method S B E) → Method S B E
  ◌>>=◌ m f s = continue (m s) f

  infixl 5 ◌>>◌
  abbrev pub ◌>>◌ : Method S A E → Method S B E → Method S B E
  ◌>>◌ m k s = continue (m s) (λ _. k)

module _ {ℓ κ ι} {A : Type ℓ} {E : Type κ} {S : Type ι} where
  abbrev pub pure : A → Method S A E
  pure a s = (ok a, s)

  abbrev pub raise : E → Method S A E
  raise e s = (err e, s)

  -- A step that reads the state, and one that may fail on it without writing.
  abbrev pub gets : (S → A) → Method S A E
  gets f s = (ok (f s), s)

  abbrev pub asks : (S → Result A E) → Method S A E
  asks f s = (f s, s)

pub Result-cases {ℓ κ} :
    {A : Type ℓ} {E : Type κ} (m : Result A E) → ((a : A) × (m ≡ ok a)) ⊎ ((e : E) × (m ≡ err e))
Result-cases (ok a) = inl (a, refl)
Result-cases (err e) = inr (e, refl)

pub and_then-eq-ok {ℓ κ} :
    {A B : Type ℓ} {E : Type κ} (m : Result A E) (f : A → Result B E) {b : B}
    → and_then m f ≡ ok b
    → (a : A) × (m ≡ ok a) × (f a ≡ ok b)
and_then-eq-ok (ok a) f h = (a, refl, h)
and_then-eq-ok (err e) f h = cc

pub continue-eq-ok {ℓ κ ι} :
    {A B : Type ℓ} {E : Type κ} {S : Type ι} (m : Result A E × S) (f : A → S → Result B E × S)
    {b : B} {s' : S}
    → continue m f ≡ (ok b, s')
    → (a : A) × (s : S) × (m ≡ (ok a, s)) × (f a s ≡ (ok b, s'))
continue-eq-ok (ok a, s) f h = (a, s, refl, h)
continue-eq-ok (err e, s) f h = cc

pub ok_or-eq-ok {ℓ κ} :
    {A : Type ℓ} {E : Type κ} (o : Option A) (e : E) {a : A} → ok_or o e ≡ ok a → o ≡ some a
ok_or-eq-ok none e h = cc
ok_or-eq-ok (some x) e h = cc

pub map_err-eq-ok {ℓ κ ι} :
    {A : Type ℓ} {E : Type κ} {F : Type ι} (f : E → F) (m : Result A E) {a : A}
    → map_err f m ≡ ok a
    → m ≡ ok a
map_err-eq-ok f (ok x) h = cc
map_err-eq-ok f (err e) h = cc
