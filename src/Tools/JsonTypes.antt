-- ===== src/Tools/JsonTypes.antt =====
-- The types that a schema names (crates/lattice-tools/src/lib.rs).
use abraxius_lattice.Tools.Types.{
  Value, Values, Members, Number, unsigned, negative, float, null, boolean, number, string, array,
  object,
}
use abraxius_lattice.Tools.Schema.{json_type_matches, is_integer}
use abraxius_lattice.Base.Text.{Text, codes, text_eq, text_eq_iff}
use abraxius_lattice.Base.{Bool, ◌⊎◌, inl, inr, if-split, ℕ, true, false, ◌≡◌, refl}

-- The value has the JSON type that the text names.
abbrev pub HasType : Value → Text → Type 0
HasType value t =
    ((t ≡ codes "null") × (value ≡ null))
    ⊎ ((t ≡ codes "boolean") × ((b : Bool) × (value ≡ boolean b)))
    ⊎ ((t ≡ codes "object") × ((ms : Members) × (value ≡ object ms)))
    ⊎ ((t ≡ codes "array") × ((vs : Values) × (value ≡ array vs)))
    ⊎ ((t ≡ codes "number") × ((n : Number) × (value ≡ number n)))
    ⊎ ((t ≡ codes "integer")
        × ((n : ℕ) × ((value ≡ number (unsigned n)) ⊎ (value ≡ number (negative n)))))
    ⊎ ((t ≡ codes "string") × ((t : Text) × (value ≡ string t)))

only_null :
    (value : Value) → elim value as (λ _. Bool) [ null ↦ true | _ ↦ false ] ≡ true → (value ≡ null)
only_null null h = refl
only_null (boolean b) h = cc
only_null (number n) h = cc
only_null (string t) h = cc
only_null (array vs) h = cc
only_null (object ms) h = cc

only_boolean :
    (value : Value)
    → elim value as (λ _. Bool) [ boolean _ ↦ true | _ ↦ false ] ≡ true
    → ((b : Bool) × (value ≡ boolean b))
only_boolean null h = cc
only_boolean (boolean b) h = (b, refl)
only_boolean (number n) h = cc
only_boolean (string t) h = cc
only_boolean (array vs) h = cc
only_boolean (object ms) h = cc

only_object :
    (value : Value)
    → elim value as (λ _. Bool) [ object _ ↦ true | _ ↦ false ] ≡ true
    → ((ms : Members) × (value ≡ object ms))
only_object null h = cc
only_object (boolean b) h = cc
only_object (number n) h = cc
only_object (string t) h = cc
only_object (array vs) h = cc
only_object (object ms) h = (ms, refl)

only_array :
    (value : Value)
    → elim value as (λ _. Bool) [ array _ ↦ true | _ ↦ false ] ≡ true
    → ((vs : Values) × (value ≡ array vs))
only_array null h = cc
only_array (boolean b) h = cc
only_array (number n) h = cc
only_array (string t) h = cc
only_array (array vs) h = (vs, refl)
only_array (object ms) h = cc

only_number :
    (value : Value)
    → elim value as (λ _. Bool) [ number _ ↦ true | _ ↦ false ] ≡ true
    → ((n : Number) × (value ≡ number n))
only_number null h = cc
only_number (boolean b) h = cc
only_number (number n) h = (n, refl)
only_number (string t) h = cc
only_number (array vs) h = cc
only_number (object ms) h = cc

only_string :
    (value : Value)
    → elim value as (λ _. Bool) [ string _ ↦ true | _ ↦ false ] ≡ true
    → ((t : Text) × (value ≡ string t))
only_string null h = cc
only_string (boolean b) h = cc
only_string (number n) h = cc
only_string (string t) h = (t, refl)
only_string (array vs) h = cc
only_string (object ms) h = cc

only_integer :
    (value : Value)
    → is_integer value ≡ true
    → (n : ℕ) × ((value ≡ number (unsigned n)) ⊎ (value ≡ number (negative n)))
unfolding is_integer
only_integer (number (unsigned n)) h = (n, inl refl)
only_integer (number (negative n)) h = (n, inr refl)
only_integer (number (float n)) h = cc
only_integer null h = cc
only_integer (boolean b) h = cc
only_integer (string t) h = cc
only_integer (array vs) h = cc
only_integer (object ms) h = cc

pub json_type_matches-HasType :
    (value : Value) (t : Text) → json_type_matches value t ≡ true → HasType value t
unfolding json_type_matches
json_type_matches-HasType value t =
    if-split Goal (text_eq t (codes "null"))
      (λ named q. inl ((text_eq_iff t (codes "null")).0 named, only_null value q))
      (λ _.
        if-split Goal (text_eq t (codes "boolean"))
          (λ named q. inr (inl ((text_eq_iff t (codes "boolean")).0 named, only_boolean value q)))
          (λ _.
            if-split Goal (text_eq t (codes "object"))
              (λ named q.
                inr (inr (inl ((text_eq_iff t (codes "object")).0 named, only_object value q))))
              (λ _.
                if-split Goal (text_eq t (codes "array"))
                  (λ named q.
                    inr (
                      inr
                        (inr (inl ((text_eq_iff t (codes "array")).0 named, only_array value q)))))
                  (λ _.
                    if-split Goal (text_eq t (codes "number"))
                      (λ named q. inr (
                        inr (
                          inr (
                            inr (
                              inl
                                ((text_eq_iff t (codes "number")).0 named, only_number value q))))))
                      (λ _.
                        if-split Goal (text_eq t (codes "integer"))
                          (λ named q. inr (
                            inr (
                              inr (
                                inr (
                                  inr (
                                    inl (
                                      (text_eq_iff t (codes "integer")).0 named,
                                      only_integer value q,
                                    )))))))
                          (λ _.
                            if-split Goal (text_eq t (codes "string"))
                              (λ named q. inr (
                                inr (
                                  inr (
                                    inr (
                                      inr (
                                        inr (
                                          (
                                            (text_eq_iff t (codes "string")).0 named,
                                            only_string value q,
                                          ))))))))
                              (λ _. λ q. cc)))))))
  where
    Goal : Bool → Type 0
    Goal b = b ≡ true → HasType value t
