-- ===== src/Bridge/Pairing/Once.antt =====
-- What a challenge and a token are good for (crates/lattice-studio-bridge/src/lib.rs).
use abraxius_lattice.Bridge.Pairing.{
  Expiries, PairingState, NonceOps, retain_later, expire, oldest, remove_oldest, evict, make_room,
  redeem_found, redeem, matches, is_later, opaque_nonce, add_ms, pairing_session_ttl_ms,
  max_pairing_sessions,
}
use abraxius_lattice.Bridge.Pairing.Room.{PairingRequest, run}
use abraxius_lattice.Bridge.Pairing.Quiet.{AllQuiet, matches-run}
use abraxius_lattice.Tools.Types.{LatticeId}
use abraxius_lattice.Base.Text.{Text, codes}
use abraxius_lattice.Base.Maps.{text_key, get, insert, remove, key_eq, key_eq_self, get-remove}
use abraxius_lattice.Base.{
  Bool, true, false, List, [], ◌∷◌, ◌+◌, min, Option, none, some, ℕ, zero, suc, ◌≡◌, ltb, leb,
  length, if◌then◌else◌, arith, refl, sym, ap, subst, ◌∙◌, if-both, if-true,
}
use abraxius_lattice.Base.Maps.{text-cmp_iff}

get-remove_self : (k : Text) (m : Expiries) → get k (remove k m) ≡ none
get-remove_self k m = get-remove k k m ∙ if-true none (get k m) (key_eq_self k)

-- What is not there does not come back by waiting, nor by making room.
retain_later-none :
    (k : Text) (now : ℕ) (m : Expiries) → get k m ≡ none → get k (retain_later now m) ≡ none
unfolding get retain_later
retain_later-none k now [] h = refl
retain_later-none k now ((j, e) ∷ m) h = ground (arith, retain_later-none k now m)

remove_oldest-none :
    (k : Text) (o : Option (Text × ℕ)) (m : Expiries)
    → get k m ≡ none
    → get k (remove_oldest o m) ≡ none
unfolding remove_oldest
remove_oldest-none k none m h = h
remove_oldest-none k (some e) m h =
    get-remove e.0 k m ∙ if-both (λ (o : Option ℕ). o ≡ none) (key_eq e.0 k) refl h

evict-none :
    (k : Text) (f limit : ℕ) (m : Expiries) → get k m ≡ none → get k (evict f limit m) ≡ none
unfolding evict
evict-none k zero limit m h = h
evict-none k (suc f) limit m h =
    if-both (λ (l : Expiries). get k l ≡ none) (leb limit (length m))
      (evict-none k f limit (remove_oldest (oldest m) m) (remove_oldest-none k (oldest m) m h)) h

-- A new entry is found exactly until it expires.
retain_later-insert :
    (k : Text) (e now : ℕ) (m : Expiries)
    → get k m ≡ none
    → get k (retain_later now (insert k e m)) ≡ (if ltb now e then some e else none)
unfolding get retain_later insert
retain_later-insert k e now [] h = ground (arith, key_eq_self k)
retain_later-insert k e now ((j, d) ∷ m) h = ground (
  arith,
  key_eq_self k,
  text-cmp_iff k j,
  text-cmp_iff j k,
  retain_later-insert k e now m,
  retain_later-none k now m,
)

redeem_found_once :
    (o : Option ℕ) (challenge : Text) (session : Text × ℕ) (p : PairingState) {s : Text × ℕ}
    → (redeem_found o challenge session p).0 ≡ some s
    → get challenge (redeem_found o challenge session p).1.challenges ≡ none
unfolding redeem_found
redeem_found_once none challenge session p h = cc
redeem_found_once (some _) challenge session p h = get-remove_self challenge p.challenges

redeem_again :
    (ops : NonceOps) (id : LatticeId) (challenge : Text) (now : ℕ) (p : PairingState)
    → get challenge p.challenges ≡ none
    → (redeem ops id challenge now p).0 ≡ none
unfolding redeem expire redeem_found
redeem_again ops id challenge now p h =
    ap
      (λ (o : Option ℕ).
        (redeem_found o challenge
          (opaque_nonce ops (codes "session") id, add_ms now pairing_session_ttl_ms)
          (expire now p)).0)
      (retain_later-none challenge now p.challenges h)

spent :
    (ops : NonceOps) (id : LatticeId) (challenge : Text) (now : ℕ) (p : PairingState)
    {session : Text × ℕ}
    → (redeem ops id challenge now p).0 ≡ some session
    → get challenge (redeem ops id challenge now p).1.challenges ≡ none
unfolding redeem
spent ops id challenge now p h = redeem_found_once _ challenge _ (expire now p) h

-- A challenge that was redeemed is not redeemed again, at whatever time.
pub redeem_once :
    (ops : NonceOps) (id id' : LatticeId) (challenge : Text) (now later : ℕ) (p : PairingState)
    (session : Text × ℕ)
    → (redeem ops id challenge now p).0 ≡ some session
    → (redeem ops id' challenge later (redeem ops id challenge now p).1).0 ≡ none
redeem_once ops id id' challenge now later p session h =
    redeem_again ops id' challenge later (redeem ops id challenge now p).1
      (spent ops id challenge now p h)

later_if : (b : Bool) (t e : ℕ) → ltb t e ≡ b → is_later t (if b then some e else none) ≡ b
unfolding is_later
later_if true t e h = h
later_if false t e h = refl

redeem_found-expires :
    (o : Option ℕ) (challenge token : Text) (end : ℕ) (p : PairingState) {s : Text × ℕ}
    → (redeem_found o challenge (token, end) p).0 ≡ some s
    → s.1 ≡ end
unfolding redeem_found
redeem_found-expires none challenge token end p h = cc
redeem_found-expires (some _) challenge token end p {s} h =
    let same : (token, end) ≡ s = cc in ap (λ (x : Text × ℕ). x.1) (sym same)

redeem_found-matches :
    (o : Option ℕ) (challenge : Text) (session : Text × ℕ) (t : ℕ) (p : PairingState) {s : Text × ℕ}
    → get session.0 p.sessions ≡ none
    → (redeem_found o challenge session p).0 ≡ some s
    → (matches s.0 t (redeem_found o challenge session p).1).0 ≡ ltb t s.1
unfolding redeem_found matches expire make_room
redeem_found-matches none challenge session t p new h = cc
redeem_found-matches (some _) challenge (token, expires) t p {s} new h =
    let same : (token, expires) ≡ s = cc in
    subst
      (λ (x : Text × ℕ).
        is_later t (
          get x.0 (
            retain_later t
              (insert token expires (evict (length p.sessions) max_pairing_sessions p.sessions))))
        ≡ ltb t x.1)
      same
      (ap (is_later t) (
          retain_later-insert token expires t
            (evict (length p.sessions) max_pairing_sessions p.sessions)
            (evict-none token (length p.sessions) max_pairing_sessions p.sessions new))
        ∙ later_if (ltb t expires) t expires refl)

-- A token that a challenge was redeemed for, if no session had it, is accepted until it expires and
-- not from then on: until the next pairing, whatever challenges have been issued and tokens checked
-- since. It expires 43,200,000 ms after the pairing, or at 9,223,372,036,854,775,807 if that is
-- earlier.
pub matches-redeem :
    (ops : NonceOps) (id : LatticeId) (challenge : Text) (now t : ℕ) (p : PairingState)
    (qs : List PairingRequest) (token : Text) (expires : ℕ)
    → get (opaque_nonce ops (codes "session") id) p.sessions ≡ none
    → (redeem ops id challenge now p).0 ≡ some (token, expires)
    → AllQuiet t qs
    → ((matches token t (run ops (redeem ops id challenge now p).1 qs)).0 ≡ ltb t expires)
      × (expires ≡ min (now + 43200000) 9223372036854775807)
unfolding redeem expire add_ms
matches-redeem ops id challenge now t p qs token expires new h quiet = (
  matches-run ops token t (redeem ops id challenge now p).1 qs quiet
      ∙ redeem_found-matches _ challenge
          (opaque_nonce ops (codes "session") id, add_ms now pairing_session_ttl_ms) t
          (expire now p)
          (retain_later-none (opaque_nonce ops (codes "session") id) now p.sessions new) h,
  redeem_found-expires _ challenge _ _ (expire now p) h,
)
