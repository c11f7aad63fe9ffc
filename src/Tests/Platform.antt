-- ===== src/Tests/Platform.antt =====
-- crates/lattice-platform: the paths of Wine guests.
use abraxius_lattice.Platform.WinePath.{
  WinePath, traversal, parse_wine_path, parse_absolute, print_wine_path, split_path, collect,
  is_skipped, is_separator, is_ascii_alphabetic, has_forbidden, cons_piece, from_parts,
  to_ascii_uppercase,
}
use abraxius_lattice.Platform.WinePath.RoundTrip.{parse_wine_path_iff, IsWinePath}
use abraxius_lattice.Base.Results.{ok, err}
use abraxius_lattice.Base.Text.{Text, codes, text_eq, starts_with, strip_prefix}
use abraxius_lattice.Base.Split.{is_empty}
use abraxius_lattice.Base.{[], ◌∷◌, ◌≡◌, ◌↔◌, refl}

abbrev users : WinePath
users = record { drive = 0x43; components = codes "users" ∷ codes "player" ∷ [] }

parse_wine_path_iff_example :
    (((value : Text) × (parse_wine_path value ≡ ok users)) ↔ IsWinePath users)
    × ((parse_wine_path (print_wine_path users) ≡ ok users) ↔ IsWinePath users)
parse_wine_path_iff_example = parse_wine_path_iff users

parsing : Unit {0}
unfolding parse_wine_path parse_absolute split_path collect is_skipped is_separator
    is_ascii_alphabetic has_forbidden cons_piece from_parts to_ascii_uppercase text_eq is_empty
    starts_with strip_prefix
parsing = tt

slashes : parse_wine_path (codes "c:/users/./player/") ≡ ok users
unfolding parsing
slashes = refl

escape : parse_wine_path (codes "C:/safe/../escape") ≡ err traversal
unfolding parsing
escape = refl
