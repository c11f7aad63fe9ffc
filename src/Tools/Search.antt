-- ===== src/Tools/Search.antt =====
-- The search for tools by words (crates/lattice-tools/src/lib.rs).
use abraxius_lattice.Tools.Types.{ToolDescriptor, CapabilityBinding}
use abraxius_lattice.Tools.Catalog.{ToolCatalog, is_whitespace, filter_tools, is_available}
use abraxius_lattice.Base.Text.{Text, starts_with}
use abraxius_lattice.Base.Split.{is_empty}
use abraxius_lattice.Base.Maps.{text_key, values}
use abraxius_lattice.Base.{
  Bool, true, List, Option, none, some, [], ◌++◌, ◌∷◌, ℕ, if◌then◌else◌, ◌&&◌, ◌||◌, leb, ◌+◌, min,
  max, take,
}

unfoldable pub to_ascii_lowercase : Text → Text
to_ascii_lowercase [] = []
to_ascii_lowercase (c ∷ t) = (if leb 65 c && leb c 90 then c + 32 else c) ∷ to_ascii_lowercase t

-- `str::contains` on a text.
unfoldable pub contains : Text → Text → Bool
unfolding starts_with
contains [] needle = starts_with [] needle
contains (c ∷ t) needle = starts_with (c ∷ t) needle || contains t needle

-- `split_whitespace`, with the word that is being read.
unfoldable pub words : Text → Text → List Text
words word [] = if is_empty word then [] else word ∷ []
words word (c ∷ t) =
    let next = words [] t in
    let longer = words (word ++ (c ∷ [])) t in
    if is_whitespace c then if is_empty word then next else word ∷ next else longer

unfoldable pub lowercase_all : List Text → List Text
lowercase_all [] = []
lowercase_all (w ∷ ws) = to_ascii_lowercase w ∷ lowercase_all ws

unfoldable pub contains_all : Text → List Text → Bool
contains_all haystack [] = true
contains_all haystack (term ∷ terms) = contains haystack term && contains_all haystack terms

unfoldable pub join_capabilities : List CapabilityBinding → Text
join_capabilities [] = []
join_capabilities (b ∷ []) = b.capability
join_capabilities (b ∷ c ∷ bs) = b.capability ++ (b' ' ∷ join_capabilities (c ∷ bs))

unfoldable pub or_default : Option Text → Text
or_default none = []
or_default (some t) = t

unfoldable pub haystack_of : ToolDescriptor → Text
haystack_of tool = to_ascii_lowercase (
    tool.native_name
    ++ (b' '
        ∷ (or_default tool.title
            ++ (b' '
                ∷ (or_default tool.provider_description
                    ++ (b' ' ∷ join_capabilities tool.capabilities))))))

unfoldable pub search : Text → ℕ → ToolCatalog → List ToolDescriptor
search query limit catalog = take (min (max limit 1) 100) (
    filter_tools (λ tool. contains_all (haystack_of tool) (lowercase_all (words [] query)))
      (filter_tools is_available (values catalog.tools)))
