-- ===== src/Platform/WinePath/RoundTrip.antt =====
-- Which paths of a Wine guest are read back (crates/lattice-platform/src/model.rs).
use abraxius_lattice.Platform.WinePath.{
  WinePath, PathError, to_ascii_uppercase, is_ascii_alphabetic, is_separator, from_parts,
  cons_piece, split_path, has_forbidden, is_skipped, collect, parse_absolute, parse_wine_path,
  join_components, print_wine_path,
}
use abraxius_lattice.Base.Results.{Result, ok, and_then, and_then-eq-ok}
use abraxius_lattice.Base.Text.{Text, codes, text_eq, starts_with, strip_prefix}
use abraxius_lattice.Base.Split.{is_empty}
use abraxius_lattice.Base.{
  Bool, true, false, not, ◌&&◌, ◌||◌, List, [], ◌∷◌, ◌++◌, ℕ, ◌≤◌, ◌≡◌, ◌≢◌, ◌↔◌, ◌==◌, refl, ap,
  subst, ◌∙◌, if-split, if-false, arith, Bool-cases, inl, inr,
}

-- No separator is in the text.
unfoldable pub is_piece : Text → Bool
is_piece [] = true
is_piece (c ∷ t) = not (is_separator c) && is_piece t

-- A component: not skipped, not the parent, and without separators and forbidden characters.
abbrev pub IsComponent : Text → Type 0
IsComponent s =
    (is_skipped s ≡ false)
    × (text_eq s (codes "..") ≡ false)
    × (has_forbidden s ≡ false)
    × (is_piece s ≡ true)

abbrev pub AllComponents : List Text → Type 0
AllComponents [] = Unit {0}
AllComponents (s ∷ ss) = IsComponent s × AllComponents ss

-- The drive is an upper-case letter, and every component is one.
abbrev pub IsWinePath : WinePath → Type 0
IsWinePath p = (0x41 ≤ p.drive) × (p.drive ≤ 0x5a) × AllComponents p.components

abbrev AllPieces : List Text → Type 0
AllPieces [] = Unit {0}
AllPieces (s ∷ ss) = (is_piece s ≡ true) × AllPieces ss

cons_piece-AllPieces :
    (c : ℕ) (l : List Text) → is_separator c ≡ false → AllPieces l → AllPieces (cons_piece c l)
unfolding cons_piece is_piece
cons_piece-AllPieces c [] h p = (ground (arith, h), tt)
cons_piece-AllPieces c (s ∷ ss) h (a, p) = (ground (arith, h, a), p)

split_path-AllPieces : (t : Text) → AllPieces (split_path t)
unfolding split_path is_piece
split_path-AllPieces [] = (refl, tt)
split_path-AllPieces (c ∷ t) =
    if-split AllPieces (is_separator c) (λ _. (refl, split_path-AllPieces t))
      (λ other. cons_piece-AllPieces c (split_path t) other (split_path-AllPieces t))

-- What is collected are components.
collect-AllComponents :
    (value : Text) (l : List Text) {found : List Text}
    → AllPieces l
    → collect value l ≡ ok found
    → AllComponents found
unfolding collect
collect-AllComponents value [] {found} p h =
    let same : [] ≡ found = cc in subst AllComponents same tt
collect-AllComponents value (s ∷ ss) {found} (a, p) h =
    if-split Goal (is_skipped s) (λ _ q. collect-AllComponents value ss p q)
      (λ kept.
        if-split Goal (text_eq s (codes "..")) (λ _ q. cc)
          (λ down.
            if-split Goal (has_forbidden s) (λ _ q. cc)
              (λ allowed q.
                let (rest, e, same) = and_then-eq-ok (collect value ss) _ q in
                let is : s ∷ rest ≡ found = cc in
                subst AllComponents is
                  ((kept, down, allowed, a), collect-AllComponents value ss p e))))
      h
  where
    Goal : Result (List Text) PathError → Type 0
    Goal r = r ≡ ok found → AllComponents found

-- Joined pieces are split again.
split_path-append :
    (s t : Text) → is_piece s ≡ true → split_path (s ++ (0x5c ∷ t)) ≡ s ∷ split_path t
unfolding split_path is_piece is_separator cons_piece
split_path-append [] t h = refl
split_path-append (c ∷ s) t h = ground (arith, h, split_path-append s t)

split_path-one : (s : Text) → is_piece s ≡ true → split_path s ≡ s ∷ []
unfolding split_path is_piece cons_piece
split_path-one [] h = refl
split_path-one (c ∷ s) h = ground (arith, h, split_path-one s)

split_path-join_components :
    (s : Text) (ss : List Text)
    → AllComponents (s ∷ ss)
    → split_path (join_components (s ∷ ss)) ≡ s ∷ ss
unfolding join_components
split_path-join_components s [] ((_, _, _, piece), _) = split_path-one s piece
split_path-join_components s (t ∷ ss) ((_, _, _, piece), rest) =
    split_path-append s (join_components (t ∷ ss)) piece
    ∙ ap (λ (l : List Text). s ∷ l) (split_path-join_components t ss rest)

collect_all : (value : Text) (l : List Text) → AllComponents l → collect value l ≡ ok l
unfolding collect
collect_all value [] h = refl
collect_all value (s ∷ ss) ((kept, down, allowed, _), h) =
    if-false _ _ kept
    ∙ if-false _ _ down
    ∙ if-false _ _ allowed
    ∙ ap (λ (r : Result (List Text) PathError). and_then r (λ (found : List Text). ok (s ∷ found)))
        (collect_all value ss h)

upper_stays : (d : ℕ) → 0x41 ≤ d → d ≤ 0x5a → to_ascii_uppercase d ≡ d
unfolding to_ascii_uppercase
upper_stays d a b = ground (arith, a, b)

upper_range :
    (d : ℕ)
    → is_ascii_alphabetic d ≡ true
    → (0x41 ≤ to_ascii_uppercase d) × (to_ascii_uppercase d ≤ 0x5a)
unfolding to_ascii_uppercase is_ascii_alphabetic
upper_range d h = (ground (arith, h), ground (arith, h))

-- With a letter before a colon it is no UNC path.
no_unc :
    (d c : ℕ) (t : Text) → 0x41 ≤ d → d ≤ 0x5a → (starts_with (d ∷ t) (c ∷ c ∷ []) ≡ true → c ≡ d)
unfolding starts_with strip_prefix
no_unc d c t a b h = ground (arith, h)

joined :
    (value : Text) (l : List Text)
    → AllComponents l
    → collect value (split_path (join_components l)) ≡ ok l
unfolding join_components split_path collect is_skipped is_empty
joined value [] h = refl
joined value (s ∷ ss) h =
    ap (collect value) (split_path-join_components s ss h) ∙ collect_all value (s ∷ ss) h

parse_absolute-print_wine_path :
    (p : WinePath) → IsWinePath p → parse_absolute (print_wine_path p) (print_wine_path p) ≡ ok p
unfolding parse_absolute print_wine_path is_separator is_ascii_alphabetic from_parts
parse_absolute-print_wine_path p (a, b, h) =
    let starts : (not (is_ascii_alphabetic p.drive) || false || false) ≡ false =
      ground (arith, a, b) in
    if-false _ _ starts
    ∙ ap
        (λ (m : Result (List Text) PathError).
          and_then m (λ (l : List Text). ok (from_parts p.drive l)))
        (joined (print_wine_path p) p.components h)
    ∙ ap (λ (d : ℕ). ok (record { drive = d; components = p.components })) (upper_stays p.drive a b)

no_prefix :
    (d c : ℕ) (t : Text) → 0x41 ≤ d → d ≤ 0x5a → c ≢ d → starts_with (d ∷ t) (c ∷ c ∷ []) ≡ false
no_prefix d c t a b other = elim (Bool-cases (starts_with (d ∷ t) (c ∷ c ∷ []))) [
  | inl hit ↦ absurd (other (no_unc d c t a b hit))
  | inr miss ↦ miss
]

parse_wine_path-print_wine_path :
    (p : WinePath) → IsWinePath p → parse_wine_path (print_wine_path p) ≡ ok p
unfolding parse_wine_path print_wine_path
parse_wine_path-print_wine_path p (a, b, h) =
    let rest : Text = 0x3a ∷ 0x5c ∷ join_components p.components in
    let left = no_prefix p.drive 0x5c rest a b (λ e. omega (arith, e, b)) in
    let right = no_prefix p.drive 0x2f rest a b (λ e. omega (arith, e, a)) in
    let neither : (starts_with (p.drive ∷ rest) (0x5c ∷ 0x5c ∷ [])
          || starts_with (p.drive ∷ rest) (0x2f ∷ 0x2f ∷ []))
        ≡ false =
      ground (arith, left, right) in
    if-false _ _ neither ∙ parse_absolute-print_wine_path p (a, b, h)

parse_absolute-IsWinePath :
    (value t : Text) {p : WinePath} → parse_absolute value t ≡ ok p → IsWinePath p
unfolding parse_absolute from_parts
parse_absolute-IsWinePath value [] {p} h = cc
parse_absolute-IsWinePath value (d ∷ []) {p} h = cc
parse_absolute-IsWinePath value (d ∷ c ∷ []) {p} h = cc
parse_absolute-IsWinePath value (d ∷ c ∷ s ∷ t) {p} h =
    if-split (λ (r : Result WinePath PathError). r ≡ ok p → IsWinePath p)
      (not (is_ascii_alphabetic d) || not (c == 0x3a) || not (is_separator s)) (λ _ q. cc)
      (λ begins q.
        let (components, e, same) = and_then-eq-ok (collect value (split_path t)) _ q in
        let is : record { drive = to_ascii_uppercase d; components = components } ≡ p = cc in
        let (low, high) = upper_range d (ground (arith, begins)) in
        subst IsWinePath is
          (low, high, collect-AllComponents value (split_path t) (split_path-AllPieces t) e))
      h

-- What is parsed is a path with an upper-case drive, and without empty, current or parent
-- components, separators and forbidden characters.
parse_wine_path-IsWinePath :
    (value : Text) {p : WinePath} → parse_wine_path value ≡ ok p → IsWinePath p
unfolding parse_wine_path
parse_wine_path-IsWinePath value {p} h =
    if-split (λ (r : Result WinePath PathError). r ≡ ok p → IsWinePath p)
      (starts_with value (0x5c ∷ 0x5c ∷ []) || starts_with value (0x2f ∷ 0x2f ∷ [])) (λ _ q. cc)
      (λ _ q. parse_absolute-IsWinePath value value q) h

-- The paths that are the result of parsing some text are exactly those that are read back from their
-- own text, and exactly those whose drive is an upper-case letter and whose components are not empty,
-- not `.` and not `..`, without separators, colons and null characters.
pub parse_wine_path_iff :
    (p : WinePath)
    → (((value : Text) × (parse_wine_path value ≡ ok p)) ↔ IsWinePath p)
      × ((parse_wine_path (print_wine_path p) ≡ ok p) ↔ IsWinePath p)
parse_wine_path_iff p = (
  (
    λ (value, e). parse_wine_path-IsWinePath value e,
    λ h. (print_wine_path p, parse_wine_path-print_wine_path p h),
  ),
  (parse_wine_path-IsWinePath (print_wine_path p), parse_wine_path-print_wine_path p),
)
