-- ===== src/Tools/Depth.antt =====
-- Which schemas are accepted (crates/lattice-tools/src/lib.rs).
use abraxius_lattice.Tools.Types.{
  Value, null, boolean, number, string, array, object, Values, no_values, value_and, Members,
  no_members, member_and,
}
use abraxius_lattice.Tools.Schema.{walk, walk_values, walk_members, validate_schema, as_object}
use abraxius_lattice.Base.Results.{ok}
use abraxius_lattice.Base.{ℕ, ◌+◌, ◌≤◌, max, suc, ◌≡◌, ◌↔◌, ◌≢◌, arith, none}

-- How many values lie between a value and the innermost one in it.
mutual
  pub depth : Value → ℕ
  depth null = 0
  depth (boolean b) = 0
  depth (number n) = 0
  depth (string s) = 0
  depth (array vs) = values_depth vs
  depth (object ms) = members_depth ms

  pub values_depth : Values → ℕ
  values_depth no_values = 0
  values_depth (value_and v vs) = max (suc (depth v)) (values_depth vs)

  pub members_depth : Members → ℕ
  members_depth no_members = 0
  members_depth (member_and k v ms) = max (suc (depth v)) (members_depth ms)

mutual
  unfolding walk depth

  walk_iff : (v : Value) (d : ℕ) → (walk v d ≡ ok tt) ↔ (d + depth v ≤ 64)
  walk_iff null d = ground arith
  walk_iff (boolean b) d = ground arith
  walk_iff (number n) d = ground arith
  walk_iff (string s) d = ground arith
  walk_iff (array vs) d = ground (arith, walk_values_iff vs d)
  walk_iff (object ms) d = ground (arith, walk_members_iff ms d)

  walk_values_iff :
      (vs : Values) (d : ℕ) → d ≤ 64 → (walk_values vs (suc d) ≡ ok tt) ↔ (d + values_depth vs ≤ 64)
  walk_values_iff no_values d h = ground arith
  walk_values_iff (value_and v vs) d h = ground (arith, walk_iff v (suc d), walk_values_iff vs d h)

  walk_members_iff :
      (ms : Members) (d : ℕ)
      → d ≤ 64
      → (walk_members ms (suc d) ≡ ok tt) ↔ (d + members_depth ms ≤ 64)
  walk_members_iff no_members d h = ground arith
  walk_members_iff (member_and k v ms) d h =
      ground (arith, walk_iff v (suc d), walk_members_iff ms d h)

-- A schema is accepted exactly if it is an object and no value lies more than 64 levels deep.
pub validate_schema_iff :
    (v : Value) → (validate_schema v ≡ ok tt) ↔ ((as_object v ≢ none) × (depth v ≤ 64))
unfolding validate_schema as_object depth
validate_schema_iff null = ground arith
validate_schema_iff (boolean b) = ground arith
validate_schema_iff (number n) = ground arith
validate_schema_iff (string s) = ground arith
validate_schema_iff (array vs) = ground arith
validate_schema_iff (object ms) = ground (arith, walk_iff (object ms) 0)
