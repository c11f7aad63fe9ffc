-- ===== src/Tools/Form.antt =====
-- The form of the capability identifiers that are accepted (crates/lattice-tools/src/lib.rs).
use abraxius_lattice.Tools.Types.{CapabilityId}
use abraxius_lattice.Tools.Capability.{
  cons_before, split_once, or_else, rsplit_once, valid_piece, valid_version, is_piece_byte,
  is_digit, all, starts_with_zero, validate_pieces, validate_qualified, validate_capability_id,
  parse_capability,
}
use abraxius_lattice.Base.Results.{ok, and_then-eq-ok}
use abraxius_lattice.Base.Text.{Text, as_bytes}
use abraxius_lattice.Base.Split.{is_empty}
use abraxius_lattice.Base.{
  Bool, true, not, List, ◌≤◌, ◌≢◌, ◌⊎◌, Option, none, some, [], ◌++◌, ◌∷◌, ℕ, ◌≡◌, refl, ap, ◌∙◌,
  sym, if-split, if◌then◌else◌, ◌==◌, ==_iff, arith,
}

cons_before-eq-some :
    (c : ℕ) (o : Option (Text × Text)) {b a : Text}
    → cons_before c o ≡ some (b, a)
    → (b' : Text) × (o ≡ some (b', a)) × (b ≡ c ∷ b')
unfolding cons_before
cons_before-eq-some c none h = cc
cons_before-eq-some c (some (b', a')) h = (b', cc, cc)

split_once-eq-some :
    (sep : ℕ) (t : Text) {b a : Text} → split_once sep t ≡ some (b, a) → t ≡ b ++ (sep ∷ a)
unfolding split_once
split_once-eq-some sep [] h = cc
split_once-eq-some sep (c ∷ t) {b} {a} h =
    if-split (λ (o : Option (Text × Text)). o ≡ some (b, a) → c ∷ t ≡ b ++ (sep ∷ a)) (c == sep)
      (λ e q. ground (arith, ==_iff c sep))
      (λ e q.
        let (b', p, r) = cons_before-eq-some c (split_once sep t) q in
        ap (λ (s : Text). c ∷ s) (split_once-eq-some sep t p)
        ∙ ap (λ (s : Text). s ++ (sep ∷ a)) (sym r))
      h

or_else-eq-some :
    (c sep : ℕ) (t : Text) (o : Option (Text × Text)) {b a : Text}
    → ((b' : Text) → o ≡ some (b', a) → t ≡ b' ++ (sep ∷ a))
    → or_else (cons_before c o) (if c == sep then some ([], t) else none) ≡ some (b, a)
    → c ∷ t ≡ b ++ (sep ∷ a)
unfolding or_else cons_before
or_else-eq-some c sep t none {b} {a} ih h =
    if-split (λ (o : Option (Text × Text)). o ≡ some (b, a) → c ∷ t ≡ b ++ (sep ∷ a)) (c == sep)
      (λ e q. ground (arith, ==_iff c sep)) (λ e q. cc) h
or_else-eq-some c sep t (some (b', a')) {b} {a} ih h =
    let same : c ∷ b' ≡ b = cc in
    let after : a' ≡ a = cc in
    ap (λ (s : Text). c ∷ s) (ih b' (ap (λ (x : Text). some (b', x)) after))
    ∙ ap (λ (s : Text). s ++ (sep ∷ a)) same

rsplit_once-eq-some :
    (sep : ℕ) (t : Text) {b a : Text} → rsplit_once sep t ≡ some (b, a) → t ≡ b ++ (sep ∷ a)
unfolding rsplit_once
rsplit_once-eq-some sep [] h = cc
rsplit_once-eq-some sep (c ∷ t) h =
    or_else-eq-some c sep t (rsplit_once sep t) (λ b' q. rsplit_once-eq-some sep t q) h

-- A byte of a lower-case letter, a digit, a dot or a hyphen.
abbrev IsPieceByte : ℕ → Type 0
IsPieceByte b = (97 ≤ b × b ≤ 122) ⊎ (48 ≤ b × b ≤ 57) ⊎ (b ≡ b'.') ⊎ (b ≡ b'-')

abbrev IsDigitByte : ℕ → Type 0
IsDigitByte b = 48 ≤ b × b ≤ 57

abbrev AllBytes : (ℕ → Type 0) → List ℕ → Type 0
AllBytes P [] = Unit {0}
AllBytes P (b ∷ bs) = P b × AllBytes P bs

abbrev IsName : Text → Type 0
IsName t = (t ≢ []) × AllBytes IsPieceByte (as_bytes t)

abbrev IsVersion : Text → Type 0
IsVersion t = (t ≢ []) × AllBytes IsDigitByte (as_bytes t) × ((rest : Text) → t ≢ b'0' ∷ rest)

-- The text of a capability: a name in a name space, and a version.
abbrev pub IsCapability : Text → Type 0
IsCapability value =
    (namespace : Text) × (name : Text) × (version : Text) × (value
      ≡ (namespace ++ (b':' ∷ name)) ++ (b'@' ∷ version))
    × IsName namespace
    × IsName name
    × IsVersion version

is_piece_byte-IsPieceByte : (b : ℕ) → is_piece_byte b ≡ true → IsPieceByte b
unfolding is_piece_byte is_digit
is_piece_byte-IsPieceByte b h = ground (arith, ==_iff b b'.', ==_iff b b'-')

is_digit-IsDigitByte : (b : ℕ) → is_digit b ≡ true → IsDigitByte b
unfolding is_digit
is_digit-IsDigitByte b h = (ground arith, ground arith)

all-AllBytes :
    (p : ℕ → Bool) (P : ℕ → Type 0)
    → ((b : ℕ) → p b ≡ true → P b)
    → (bs : List ℕ) → all p bs ≡ true
    → AllBytes P bs
unfolding all
all-AllBytes p P f [] h = tt
all-AllBytes p P f (b ∷ bs) h = (f b (ground arith), all-AllBytes p P f bs (ground arith))

is_empty-false : (t : Text) → not (is_empty t) ≡ true → t ≢ []
unfolding is_empty
is_empty-false [] h = cc
is_empty-false (c ∷ t) h = λ e. cc

starts_with_zero-false :
    (t : Text) → not (starts_with_zero t) ≡ true → (rest : Text) → t ≢ b'0' ∷ rest
unfolding starts_with_zero
starts_with_zero-false [] h rest = λ e. cc
starts_with_zero-false (c ∷ t) h rest =
    λ e. let same : c ≡ b'0' = cc in absurd (ground (arith, ==_iff c b'0'))

valid_piece-IsName : (t : Text) → valid_piece t ≡ true → IsName t
unfolding valid_piece
valid_piece-IsName t h = (
  is_empty-false t (ground arith),
  all-AllBytes is_piece_byte IsPieceByte is_piece_byte-IsPieceByte (as_bytes t) (ground arith),
)

valid_version-IsVersion : (t : Text) → valid_version t ≡ true → IsVersion t
unfolding valid_version
valid_version-IsVersion t h = (
  is_empty-false t (ground arith),
  all-AllBytes is_digit IsDigitByte is_digit-IsDigitByte (as_bytes t) (ground arith),
  starts_with_zero-false t (ground arith),
)

validate_pieces-ok :
    (value version qualified : Text) (o : Option (Text × Text))
    → o ≡ split_once b':' qualified
    → value ≡ qualified ++ (b'@' ∷ version)
    → validate_pieces value version o ≡ ok tt
    → IsCapability value
unfolding validate_pieces
validate_pieces-ok value version qualified none e v h = cc
validate_pieces-ok value version qualified (some (namespace, name)) e v h = (
  namespace,
  name,
  version,
  v ∙ ap (λ (s : Text). s ++ (b'@' ∷ version)) (split_once-eq-some b':' qualified (sym e)),
  valid_piece-IsName namespace (ground arith),
  valid_piece-IsName name (ground arith),
  valid_version-IsVersion version (ground arith),
)

validate_qualified-ok :
    (value : Text) (o : Option (Text × Text))
    → o ≡ rsplit_once b'@' value
    → validate_qualified value o ≡ ok tt
    → IsCapability value
unfolding validate_qualified
validate_qualified-ok value none e h = cc
validate_qualified-ok value (some (qualified, version)) e h =
    validate_pieces-ok value version qualified (split_once b':' qualified) refl
      (rsplit_once-eq-some b'@' value (sym e)) h

-- A capability identifier that is parsed is the text itself, and this is a name space, a colon, a
-- name, an at sign and a version: the two names are not empty and consist of lower-case letters,
-- digits, dots and hyphens, and the version is a decimal number that does not begin with a zero.
pub parse_capability-ok :
    (value : Text) (c : CapabilityId)
    → parse_capability value ≡ ok c
    → (c ≡ value) × IsCapability value
unfolding parse_capability validate_capability_id
parse_capability-ok value c h =
    let (_, e, f) =
      and_then-eq-ok (validate_qualified value (rsplit_once b'@' value)) (λ _. ok value) h in
    (cc, validate_qualified-ok value (rsplit_once b'@' value) refl e)
