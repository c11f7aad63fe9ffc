-- ===== src/Resource/Kinds.antt =====
-- The kinds of resources as they are read back (crates/lattice-resource/src/lib.rs).
use abraxius_lattice.Resource.{
  project, place, instance_kind, script, symbol, result, diagnostic, change_set, test_result, other,
  ResourceKind, as_str, kind_from,
}
use abraxius_lattice.Base.Text.{Text, codes, text_eq}
use abraxius_lattice.Base.{List, [], ◌∷◌, if◌then◌else◌, ◌≡◌, refl}

-- The eight names that stand for a kind.
abbrev kind_names : List (Text × ResourceKind)
kind_names =
    (codes "project", project)
    ∷ (codes "place", place)
    ∷ (codes "instance", instance_kind)
    ∷ (codes "script", script)
    ∷ (codes "symbol", symbol)
    ∷ (codes "result", result)
    ∷ (codes "diagnostic", diagnostic)
    ∷ (codes "changeset", change_set)
    ∷ []

abbrev named : List (Text × ResourceKind) → Text → ResourceKind
named [] t = other t
named ((name, kind) ∷ names) t = if text_eq t name then kind else named names t

-- Every kind is read as itself, but a test result, which has a result's name, and a kind that
-- bears the name of another.
abbrev pub canonical_kind : ResourceKind → ResourceKind
canonical_kind test_result = result
canonical_kind (other value) = named kind_names value
canonical_kind project = project
canonical_kind place = place
canonical_kind instance_kind = instance_kind
canonical_kind script = script
canonical_kind symbol = symbol
canonical_kind result = result
canonical_kind diagnostic = diagnostic
canonical_kind change_set = change_set

pub kind_from-as_str : (k : ResourceKind) → kind_from (as_str k) ≡ canonical_kind k
unfolding kind_from as_str text_eq
kind_from-as_str project = refl
kind_from-as_str place = refl
kind_from-as_str instance_kind = refl
kind_from-as_str script = refl
kind_from-as_str symbol = refl
kind_from-as_str result = refl
kind_from-as_str diagnostic = refl
kind_from-as_str change_set = refl
kind_from-as_str test_result = refl
kind_from-as_str (other value) = refl
