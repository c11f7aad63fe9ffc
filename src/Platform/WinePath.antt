-- ===== src/Platform/WinePath.antt =====
-- The paths of a Wine guest (crates/lattice-platform/src/model.rs). The three bytes that a path begins
-- with are ASCII, so they are the first three characters.
pub mod RoundTrip
use abraxius_lattice.Base.Results.{Result, ok, err, and_then}
use abraxius_lattice.Base.Text.{Text, codes, text_eq, starts_with}
use abraxius_lattice.Base.Split.{is_empty}
use abraxius_lattice.Tools.Search.{to_ascii_lowercase}
use abraxius_lattice.Base.{
  Bool, true, false, not, ◌&&◌, ◌||◌, List, [], ◌∷◌, ◌++◌, Option, none, some, ℕ, ◌-◌, leb, ◌==◌,
  if◌then◌else◌, length,
}

pub record WinePath : Type 0 where
  pub drive : ℕ
  pub components : List Text

pub data PathError : Type 0 where
  malformed_wine_path : Text → PathError
  unsupported_unc : PathError
  traversal : PathError
  drive_not_mapped : ℕ → PathError
  prefix_escape : PathError
  host_path_not_mapped : PathError

unfoldable pub to_ascii_uppercase : ℕ → ℕ
to_ascii_uppercase c = if leb 0x61 c && leb c 0x7a then c - 0x20 else c

unfoldable pub is_ascii_alphabetic : ℕ → Bool
is_ascii_alphabetic c = (leb 0x41 c && leb c 0x5a) || (leb 0x61 c && leb c 0x7a)

unfoldable pub is_separator : ℕ → Bool
is_separator c = c == 0x5c || c == 0x2f

unfoldable pub from_parts : ℕ → List Text → WinePath
from_parts drive components = record { drive = to_ascii_uppercase drive; components = components }

-- `split(['\\', '/'])`.
unfoldable pub cons_piece : ℕ → List Text → List Text
cons_piece c [] = (c ∷ []) ∷ []
cons_piece c (s ∷ ss) = (c ∷ s) ∷ ss

unfoldable pub split_path : Text → List Text
split_path [] = [] ∷ []
split_path (c ∷ t) =
    let rest = split_path t in if is_separator c then [] ∷ rest else cons_piece c rest

-- `contains('\0')` or `contains(':')`.
unfoldable pub has_forbidden : Text → Bool
has_forbidden [] = false
has_forbidden (c ∷ t) = c == 0 || c == 0x3a || has_forbidden t

unfoldable pub is_skipped : Text → Bool
is_skipped s = is_empty s || text_eq s (codes ".")

-- The loop over the components.
unfoldable pub collect : Text → List Text → Result (List Text) PathError
collect value [] = ok []
collect value (s ∷ ss) =
    let rest = collect value ss in
    if is_skipped s
    then rest
    else if text_eq s (codes "..")
    then err traversal
    else if has_forbidden s
    then err (malformed_wine_path value)
    else and_then rest (λ (found : List Text). ok (s ∷ found))

unfoldable pub parse_absolute : Text → Text → Result WinePath PathError
parse_absolute value (d ∷ c ∷ s ∷ rest) =
    if not (is_ascii_alphabetic d) || not (c == 0x3a) || not (is_separator s)
    then err (malformed_wine_path value)
    else and_then (collect value (split_path rest))
        (λ (components : List Text). ok (from_parts d components))
parse_absolute value _ = err (malformed_wine_path value)

-- `FromStr`.
unfoldable pub parse_wine_path : Text → Result WinePath PathError
parse_wine_path value =
    if starts_with value (0x5c ∷ 0x5c ∷ []) || starts_with value (0x2f ∷ 0x2f ∷ [])
    then err unsupported_unc
    else parse_absolute value value

unfoldable pub join_components : List Text → Text
join_components [] = []
join_components (s ∷ []) = s
join_components (s ∷ t ∷ ss) = s ++ (0x5c ∷ join_components (t ∷ ss))

-- `Display`.
unfoldable pub print_wine_path : WinePath → Text
print_wine_path p = p.drive ∷ 0x3a ∷ 0x5c ∷ join_components p.components

unfoldable pub eq_ignore_ascii_case : Text → Text → Bool
eq_ignore_ascii_case left right = text_eq (to_ascii_lowercase left) (to_ascii_lowercase right)

unfoldable pub all_equivalent : List Text → List Text → Bool
all_equivalent [] [] = true
all_equivalent (left ∷ ls) (right ∷ rs) = eq_ignore_ascii_case left right && all_equivalent ls rs
all_equivalent _ _ = false

unfoldable pub equivalent_guest : WinePath → WinePath → Bool
equivalent_guest p other = p.drive == other.drive && all_equivalent p.components other.components
