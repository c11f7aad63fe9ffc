-- ===== src/Bridge/Http/Guard.antt =====
-- What the handlers do for a request that is not authenticated (crates/lattice-studio-bridge/src/lib.rs).
use abraxius_lattice.Bridge.Types.{
  StudioBridgeLimits, StudioBridgeSessionId, StudioBridgeRegistration, StudioBridgeReport,
}
use abraxius_lattice.Bridge.Pairing.{
  Expiries, PairingState, matches, expire, retain_later, is_later,
}
use abraxius_lattice.Base.Maps.{text_key, get, key_eq, key_eq→eq}
use abraxius_lattice.Bridge.Http.{
  HttpState, StudioBridgeHttpError, unauthorized, manual_matches, token_matches, same_bytes,
  supplied_token, check_token, authenticate, register_http, report_http, sessions_http,
}
use abraxius_lattice.Base.Results.{Result, ok, err, continue}
use abraxius_lattice.Base.Text.{Text, codes, as_bytes, strip_prefix-eq-some}
use abraxius_lattice.Base.{
  true, List, [], ◌∷◌, ◌++◌, length, ◌<◌, arith, sym, ==_iff, Option, none, some, ℕ, ◌≡◌, ◌⊎◌, inl,
  inr, refl, ap, ◌∙◌, Bool-cases, ltb, if-split, if-false,
}

-- The secret stands in the list, with this time.
abbrev HasEntry : Text → ℕ → Expiries → Type 0
HasEntry k e [] = ⊥
HasEntry k e ((j, d) ∷ m) = ((j ≡ k) × (d ≡ e)) ⊎ HasEntry k e m

-- The credential hashes like the manual token, or is the secret of a paired session that has not
-- expired.
abbrev IsAccepted : (List ℕ → List ℕ) → ℕ → Text → HttpState → Type 0
IsAccepted hash now supplied s =
    ((expected : List ℕ) × (s.manual_token ≡ some expected)
      × (hash (as_bytes supplied) ≡ hash expected))
    ⊎ ((expires : ℕ) × HasEntry supplied expires s.pairing.sessions × (now < expires))

-- The header of the request is the word `Bearer` and such a credential.
abbrev pub IsAuthentic : (List ℕ → List ℕ) → ℕ → Option Text → HttpState → Type 0
IsAuthentic hash now header s =
    (supplied : Text) × (header ≡ some (codes "Bearer " ++ supplied))
    × IsAccepted hash now supplied s

same_bytes-eq : (a b : List ℕ) → length a ≡ length b → same_bytes a b ≡ true → b ≡ a
unfolding same_bytes
same_bytes-eq [] [] e h = refl
same_bytes-eq [] (y ∷ b) e h = absurd (omega (arith, e))
same_bytes-eq (x ∷ a) [] e h = absurd (omega (arith, e))
same_bytes-eq (x ∷ a) (y ∷ b) e h = ground (arith, same_bytes-eq a b (omega (arith, e)), ==_iff x y)

-- A secret of the rest stands in the whole list.
later_entry :
    (k j : Text) (d now : ℕ) (m : Expiries)
    → ((e : ℕ) × HasEntry k e m × (now < e))
    → (e : ℕ) × HasEntry k e ((j, d) ∷ m) × (now < e)
later_entry k j d now m (e, found, late) = (e, inr found, late)

retain_later-HasEntry :
    (k : Text) (now : ℕ) (m : Expiries)
    → is_later now (get k (retain_later now m)) ≡ true
    → (e : ℕ) × HasEntry k e m × (now < e)
unfolding get retain_later is_later
retain_later-HasEntry k now [] h = absurd cc
retain_later-HasEntry k now ((j, d) ∷ m) h =
    if-split
      (λ (l : Expiries).
        is_later now (get k l) ≡ true → (e : ℕ) × HasEntry k e ((j, d) ∷ m) × (now < e))
      (ltb now d)
      (λ late.
        if-split
          (λ (o : Option ℕ).
            is_later now o ≡ true → (e : ℕ) × HasEntry k e ((j, d) ∷ m) × (now < e))
          (key_eq j k) (λ same q. (d, inl (key_eq→eq j k same, refl), ground (arith, late)))
          (λ _ q. later_entry k j d now m (retain_later-HasEntry k now m q)))
      (λ _ q. later_entry k j d now m (retain_later-HasEntry k now m q)) h

manual_matches-eq :
    (hash : List ℕ → List ℕ) (token : Option (List ℕ)) (supplied : Text)
    → ((b : List ℕ) → length (hash b) ≡ 32)
    → manual_matches hash token supplied ≡ true
    → (expected : List ℕ) × (token ≡ some expected) × (hash (as_bytes supplied) ≡ hash expected)
unfolding manual_matches token_matches
manual_matches-eq hash none supplied long h = absurd cc
manual_matches-eq hash (some expected) supplied long h = (
  expected,
  refl,
  same_bytes-eq (hash expected) (hash (as_bytes supplied))
      (long expected ∙ sym (long (as_bytes supplied))) h,
)

matches-HasEntry :
    (supplied : Text) (now : ℕ) (p : PairingState)
    → (matches supplied now p).0 ≡ true
    → (e : ℕ) × HasEntry supplied e p.sessions × (now < e)
unfolding matches expire
matches-HasEntry supplied now p h = retain_later-HasEntry supplied now p.sessions h

supplied_token-eq-some :
    (header : Option Text) (supplied : Text)
    → supplied_token header ≡ some supplied
    → header ≡ some (codes "Bearer " ++ supplied)
unfolding supplied_token
supplied_token-eq-some none supplied h = absurd cc
supplied_token-eq-some (some value) supplied h =
    ap (λ (t : Text). some t) (strip_prefix-eq-some (codes "Bearer ") value h)

abbrev Checked : Type 0
Checked = Result (Unit {0}) StudioBridgeHttpError × HttpState

-- A check that passes has seen a credential, and one that fails leaves the broker alone.
abbrev Guards : (List ℕ → List ℕ) → ℕ → Option Text → HttpState → Checked → Type 0
Guards hash now o s c =
    ((supplied : Text) × (o ≡ some supplied) × IsAccepted hash now supplied s)
    ⊎ ((c.0 ≡ err unauthorized) × (c.1.broker ≡ s.broker))

check_token-Guards :
    (hash : List ℕ → List ℕ) (now : ℕ) (o : Option Text) (s : HttpState)
    → ((b : List ℕ) → length (hash b) ≡ 32)
    → Guards hash now o s (check_token hash now o s)
unfolding check_token
check_token-Guards hash now none s long = inr (refl, refl)
check_token-Guards hash now (some supplied) s long =
    elim (Bool-cases (manual_matches hash s.manual_token supplied)) [
      | inl manual ↦
          inl (supplied, refl, inl (manual_matches-eq hash s.manual_token supplied long manual))
      | inr other ↦ elim (Bool-cases (matches supplied now s.pairing).0) [
        | inl paired ↦ inl (supplied, refl, inr (matches-HasEntry supplied now s.pairing paired))
        | inr neither ↦ inr (
          ap (λ (c : Checked). c.0) (if-false _ _ other) ∙ if-false _ _ neither,
          ap (λ (c : Checked). c.1.broker) (if-false _ _ other),
        )
      ]
    ]

-- The answer of a handler that checks first: the request was authentic, or is refused and the broker
-- is as it was.
abbrev pub IsGuarded :
    {A : Type 0}
    → (List ℕ → List ℕ)
    → ℕ
    → Option Text
    → HttpState
    → Result A StudioBridgeHttpError × HttpState
    → Type 0
IsGuarded hash now header s outcome =
    IsAuthentic hash now header s ⊎ ((outcome.0 ≡ err unauthorized) × (outcome.1.broker ≡ s.broker))

continue-err :
    {A : Type 0} (c : Checked)
    (next : Unit {0} → HttpState → Result A StudioBridgeHttpError × HttpState)
    (e : StudioBridgeHttpError)
    → c.0 ≡ err e
    → ((continue c next).0 ≡ err e) × ((continue c next).1 ≡ c.1)
continue-err (ok _, s) next e h = absurd cc
continue-err (err x, s) next e h =
    let same : x ≡ e = cc in (ap (λ (y : StudioBridgeHttpError). err y) same, refl)

continue-authenticate :
    {A : Type 0} (hash : List ℕ → List ℕ) (now : ℕ) (header : Option Text) (s : HttpState)
    (next : Unit {0} → HttpState → Result A StudioBridgeHttpError × HttpState)
    → ((b : List ℕ) → length (hash b) ≡ 32)
    → IsGuarded hash now header s (continue (authenticate hash now header s) next)
unfolding authenticate
continue-authenticate hash now header s next long =
    elim (check_token-Guards hash now (supplied_token header) s long) [
      | inl (supplied, given, accepted) ↦
          inl (supplied, supplied_token-eq-some header supplied given, accepted)
      | inr (refused, kept) ↦
          let (a, b) =
            continue-err (check_token hash now (supplied_token header) s) next unauthorized
              refused in
          inr (a, ap (λ (x : HttpState). x.broker) b ∙ kept)
    ]

-- If every hash has 32 bytes: a request to register, to report or to list the sessions has the word
-- `Bearer` and a credential as its header, and this hashes like the manual token or is the secret of
-- a paired session that has not expired; or the request is answered with `unauthorized` and the
-- broker stays as it was, whatever the payload is and even if that cannot be read.
pub handlers-IsGuarded :
    (hash : List ℕ → List ℕ) (limits : StudioBridgeLimits) (now : ℕ) (fresh : StudioBridgeSessionId)
    (header : Option Text) (registration : Result StudioBridgeRegistration Text)
    (r : Result StudioBridgeReport Text) (s : HttpState)
    → ((b : List ℕ) → length (hash b) ≡ 32)
    → IsGuarded hash now header s (register_http hash limits now fresh header registration s)
      × IsGuarded hash now header s (report_http hash limits now header r s)
      × IsGuarded hash now header s (sessions_http hash limits now header s)
unfolding register_http report_http sessions_http
handlers-IsGuarded hash limits now fresh header registration r s long = (
  continue-authenticate hash now header s _ long,
  continue-authenticate hash now header s _ long,
  continue-authenticate hash now header s _ long,
)
