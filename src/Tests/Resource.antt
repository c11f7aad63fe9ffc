-- ===== src/Tests/Resource.antt =====
-- crates/lattice-resource: two identifiers and two digests, and the theorems there.
use abraxius_lattice.Resource.{
  UuidOps, UuidLaws, Blake3Ops, Blake3Laws, ResourceRef, cloud, script, test_result, other, as_str,
  kind_from, parse, print, from_hex, to_hex, show_hash, result,
}
use abraxius_lattice.Resource.RoundTrip.{parse-print, from_hex-show_hash, canonical}
use abraxius_lattice.Base.Results.{ok}
use abraxius_lattice.Base.Text.{Text, codes, text_eq}
use abraxius_lattice.Base.Split.{Lacks}
use abraxius_lattice.Base.{
  Bool, true, false, Option, none, some, [], ◌≡◌, ◌≢◌, refl, if◌then◌else◌, arith,
}

abbrev first_uuid : Text
first_uuid = codes "01900000-0000-7000-8000-000000000001"

abbrev second_uuid : Text
second_uuid = codes "01900000-0000-7000-8000-000000000002"

abbrev format_uuid : Bool → Text
format_uuid true = first_uuid
format_uuid false = second_uuid

abbrev parse_uuid : Text → Option Bool
parse_uuid t =
    if text_eq t first_uuid then some true else if text_eq t second_uuid then some false else none

abbrev two_uuids : UuidOps
two_uuids = record { Uuid = Bool; format = format_uuid; parse_str = parse_uuid }

parse-format : (u : Bool) → parse_uuid (format_uuid u) ≡ some u
unfolding text_eq
parse-format true = refl
parse-format false = refl

format_some : (u : Bool) → format_uuid u ≢ []
format_some true = λ h. cc
format_some false = λ h. cc

format_uuid-Lacks : (u : Bool) → Lacks b'/' (format_uuid u)
format_uuid-Lacks true = ground arith
format_uuid-Lacks false = ground arith

two_uuids-laws : UuidLaws two_uuids
two_uuids-laws = record {
  parse_str-format = parse-format;
  format_nonempty = format_some;
  format-Lacks = format_uuid-Lacks;
}

abbrev script_ref : ResourceRef two_uuids
script_ref = record {
  scope = cloud 7 42 18446744073709551615;
  kind = script;
  id = record { as_uuid = true };
}

parse-print_example :
    parse two_uuids (print two_uuids script_ref) ≡ ok (canonical two_uuids script_ref)
unfolding as_str
parse-print_example =
    parse-print two_uuids two_uuids-laws script_ref
      (((λ h. cc), ground arith), (omega arith, omega arith, omega arith))

abbrev first_hex : Text
first_hex = codes "af1349b9f5f9a1a6a0404dea36dcc9499bcb25c9adc112b7cc9a93cae41f3262"

abbrev second_hex : Text
second_hex = codes "0000000000000000000000000000000000000000000000000000000000000000"

abbrev hex_of : Bool → Text
hex_of true = first_hex
hex_of false = second_hex

abbrev of_hex : Text → Option Bool
of_hex t =
    if text_eq t first_hex then some true else if text_eq t second_hex then some false else none

abbrev two_digests : Blake3Ops
two_digests = record { Digest = Bool; hash = λ bytes. true; to_hex = hex_of; from_hex = of_hex }

of_hex-hex_of : (d : Bool) → of_hex (hex_of d) ≡ some d
unfolding text_eq
of_hex-hex_of true = refl
of_hex-hex_of false = refl

hex_of-Lacks : (d : Bool) → Lacks b':' (hex_of d)
hex_of-Lacks true = ground arith
hex_of-Lacks false = ground arith

two_digests-laws : Blake3Laws two_digests
two_digests-laws = record { from_hex-to_hex = of_hex-hex_of; to_hex-Lacks = hex_of-Lacks }

from_hex-show_hash_example :
    (from_hex two_digests (show_hash two_digests (record { digest = true }))
      ≡ ok (record { digest = true }))
    × (from_hex two_digests (to_hex two_digests (record { digest = true }))
        ≡ ok (record { digest = true }))
from_hex-show_hash_example =
    from_hex-show_hash two_digests two_digests-laws (record { digest = true })

-- A test result's kind has the name of a result's, and is read as that.
test_result_kind : kind_from (as_str test_result) ≡ result
unfolding kind_from as_str text_eq
test_result_kind = refl

known_kind : kind_from (as_str (other (codes "script"))) ≡ script
unfolding kind_from as_str text_eq
known_kind = refl
