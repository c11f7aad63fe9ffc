-- ===== src/Base/Decimal.antt =====
-- `u64` in decimal: `Display`, and `str::parse::<u64>`, which takes one leading `+` and refuses
-- what is empty, what holds another character and what passes `u64::MAX`.
use Prim.Native.Nat.{ℕ, zero, suc, ◌+◌, ◌-◌, ◌*◌, ◌/◌, ◌%◌, ◌≤◌, ◌<◌}
use mathlib.Core.Path.{◌≡◌, refl, ◌∙◌}
use mathlib.Core.Bool.{◌&&◌}
use mathlib.Core.Option.{Option, none, some}
use mathlib.Core.List.{[], ◌∷◌}
use native.Mathlib.Omega.{arith}
use abraxius_lattice.Base.Tests.{
  ltb, leb, ◌==◌, if◌then◌else◌, u64_max, if-both, if-false, if-split,
}
use abraxius_lattice.Base.Text.{Text}
use abraxius_lattice.Base.Split.{Lacks}

-- The digits of `n` in front of `acc`, with fuel for as many digits.
decimal : ℕ → ℕ → Text → Text
decimal zero n acc = acc
decimal (suc f) n acc =
    let more = decimal f (n / 10) ((48 + n % 10) ∷ acc) in if ltb n 10 then (48 + n) ∷ acc else more

-- A `u64` has at most 20 digits.
unfoldable pub print_u64 : ℕ → Text
unfolding decimal
print_u64 n = decimal 20 n []

digits : ℕ → Text → Option ℕ
digits acc [] = some acc
digits acc (c ∷ t) =
    let rest = digits (acc * 10 + (c - 48)) t in
    if leb 48 c && leb c 57 && leb (acc * 10 + (c - 48)) u64_max then rest else none

unfoldable pub parse_u64 : Text → Option ℕ
unfolding digits
parse_u64 [] = none
parse_u64 (c ∷ []) = digits 0 (c ∷ [])
parse_u64 (c ∷ d ∷ t) = if c == b'+' then digits 0 (d ∷ t) else digits 0 (c ∷ d ∷ t)

abbrev pow10 : ℕ → ℕ
pow10 zero = 1
pow10 (suc f) = 10 * pow10 f

digits-decimal :
    (f n : ℕ) (acc : Text)
    → n < pow10 f
    → 0 < f
    → n ≤ u64_max
    → digits 0 (decimal f n acc) ≡ digits n acc
unfolding digits decimal
digits-decimal zero n acc h p m = absurd (omega arith)
digits-decimal (suc zero) n acc h p m = ground arith
digits-decimal (suc (suc f)) n acc h p m =
    ground (arith, digits-decimal (suc f) (n / 10) ((48 + n % 10) ∷ acc))

-- What is printed begins with a digit.
decimal-cons :
    (f n : ℕ) (acc : Text) → 0 < f → (c : ℕ) × (t : Text) × (decimal f n acc ≡ c ∷ t) × (48 ≤ c)
unfolding decimal
decimal-cons zero n acc p = absurd (omega arith)
decimal-cons (suc zero) n acc p =
    if-split (λ (s : Text). (c : ℕ) × (t : Text) × (s ≡ c ∷ t) × (48 ≤ c)) (ltb n 10)
      (λ small. (48 + n, acc, refl, omega arith)) (λ large. (48 + n % 10, acc, refl, omega arith))
decimal-cons (suc (suc f)) n acc p =
    if-both (λ (s : Text). (c : ℕ) × (t : Text) × (s ≡ c ∷ t) × (48 ≤ c)) (ltb n 10)
      (48 + n, acc, refl, omega arith)
      (decimal-cons (suc f) (n / 10) ((48 + n % 10) ∷ acc) (omega arith))

decimal-Lacks : (f n sep : ℕ) (acc : Text) → sep < 48 → Lacks sep acc → Lacks sep (decimal f n acc)
unfolding decimal
decimal-Lacks zero n sep acc h l = l
decimal-Lacks (suc f) n sep acc h l =
    if-both (Lacks sep) (ltb n 10) ((λ e. absurd (omega arith)), l)
      (decimal-Lacks f (n / 10) sep ((48 + n % 10) ∷ acc) h ((λ e. absurd (omega arith)), l))

pub print_u64-Lacks : (n sep : ℕ) → sep < 48 → Lacks sep (print_u64 n)
unfolding print_u64
print_u64-Lacks n sep h = decimal-Lacks 20 n sep [] h tt

pub print_u64-cons : (n : ℕ) → (c : ℕ) × (t : Text) × (print_u64 n ≡ c ∷ t) × (48 ≤ c)
unfolding print_u64
print_u64-cons n = decimal-cons 20 n [] (omega arith)

parse_u64-digits : (s t : Text) (c : ℕ) → s ≡ c ∷ t → 48 ≤ c → parse_u64 s ≡ digits 0 s
unfolding parse_u64
parse_u64-digits s [] c e h = rw e refl
parse_u64-digits s (d ∷ t) c e h =
    rw e (if-false {b = c == b'+'} (digits 0 (d ∷ t)) (digits 0 (c ∷ d ∷ t)) (ground arith))

digits-nil : (n : ℕ) → digits n [] ≡ some n
unfolding digits
digits-nil n = refl

pub parse_u64-print_u64 : (n : ℕ) → n ≤ u64_max → parse_u64 (print_u64 n) ≡ some n
unfolding print_u64
parse_u64-print_u64 n h =
    let (c, t, e, le) = decimal-cons 20 n [] (omega arith) in
    parse_u64-digits (decimal 20 n []) t c e le
    ∙ digits-decimal 20 n [] (omega arith) (omega arith) h
    ∙ digits-nil n
