-- ===== src/Bridge/Pairing/Room.antt =====
-- The pairing's stores stay bounded (crates/lattice-studio-bridge/src/lib.rs).
use abraxius_lattice.Bridge.Pairing.{
  earlier, remove_oldest, redeem_found, pairing_challenge_ttl_ms, Expiries, PairingState, NonceOps,
  retain_later, expire, oldest, evict, make_room, issue_challenge, redeem, matches,
  max_pending_pairing_challenges, max_pairing_sessions, opaque_nonce, add_ms,
}
use abraxius_lattice.Tools.Types.{LatticeId}
use abraxius_lattice.Base.Text.{Text, codes}
use abraxius_lattice.Base.Maps.{
  text_key, remove, key_eq, key_eq_self, length-insert_le, length-remove_le,
}
use abraxius_lattice.Base.{
  true, List, [], ◌∷◌, Option, none, some, ℕ, zero, suc, ◌+◌, ◌≤◌, ◌<◌, ◌≡◌, ◌⊎◌, inl, inr, length,
  leb, arith, refl, sym, subst, if-split, if-both,
}

-- The entry's key stands in the list.
abbrev HasKey : Text → Expiries → Type 0
HasKey k [] = ⊥
HasKey k ((j, e) ∷ m) = (j ≡ k) ⊎ HasKey k m

earlier-HasKey :
    (d : Text × ℕ) (m : Expiries) (o : Option (Text × ℕ))
    → ((e : Text × ℕ) → o ≡ some e → HasKey e.0 m)
    → HasKey (earlier d o).0 (d ∷ m)
unfolding earlier
earlier-HasKey d m none h = inl refl
earlier-HasKey d m (some e) h =
    if-both (λ (x : Text × ℕ). HasKey x.0 (d ∷ m)) (leb d.1 e.1) (inl refl) (inr (h e refl))

oldest-HasKey : (m : Expiries) (e : Text × ℕ) → oldest m ≡ some e → HasKey e.0 m
unfolding oldest
oldest-HasKey [] e h = cc
oldest-HasKey (d ∷ m) e h =
    let same : earlier d (oldest m) ≡ e = cc in
    subst (λ (x : Text × ℕ). HasKey x.0 (d ∷ m)) same
      (earlier-HasKey d m (oldest m) (λ x q. oldest-HasKey m x q))

-- Removing a key that is there makes the list shorter.
remove_shorter : (k : Text) (m : Expiries) → HasKey k m → length (remove k m) < length m
unfolding remove
remove_shorter k [] h = absurd h
remove_shorter k ((j, e) ∷ m) (inl same) =
    if-split (λ (l : Expiries). length l < suc (length m)) (key_eq j k)
      (λ _. omega (arith, length-remove_le k m))
      (λ miss.
        let hit = subst (λ (x : Text). key_eq x k ≡ true) (sym same) (key_eq_self k) in absurd cc)
remove_shorter k ((j, e) ∷ m) (inr later) =
    if-both (λ (l : Expiries). length l < suc (length m)) (key_eq j k)
      (omega (arith, length-remove_le k m)) (omega (arith, remove_shorter k m later))

remove_oldest_shorter :
    (m : Expiries) → 0 < length m → length (remove_oldest (oldest m) m) < length m
unfolding remove_oldest oldest
remove_oldest_shorter [] h = absurd (omega arith)
remove_oldest_shorter (d ∷ m) h =
    remove_shorter (earlier d (oldest m)).0 (d ∷ m)
      (earlier-HasKey d m (oldest m) (λ x q. oldest-HasKey m x q))

-- With one round for every entry too many the loop ends below the limit.
evict_room :
    (f limit : ℕ) (m : Expiries)
    → 0 < limit
    → length m < f + limit
    → length (evict f limit m) < limit
unfolding evict
evict_room zero limit m p h = omega (arith, h)
evict_room (suc f) limit m p h =
    if-split (λ (l : Expiries). length l < limit) (leb limit (length m))
      (λ full.
        let many : limit ≤ length m = ground (arith, full) in
        evict_room f limit (remove_oldest (oldest m) m) p
          (omega (arith, h, many, remove_oldest_shorter m (omega (arith, many, p)))))
      (λ room. ground (arith, room))

evict_small : (f limit : ℕ) (m : Expiries) → length m < limit → evict f limit m ≡ m
unfolding evict
evict_small zero limit m h = refl
evict_small (suc f) limit m h =
    if-split (λ (l : Expiries). l ≡ m) (leb limit (length m))
      (λ full. absurd (ground (arith, full))) (λ _. refl)

-- The loop that makes room ends, by its own condition: with a positive limit its result is below
-- the limit, and what is below already stays as it is.
pub make_room_ends :
    (limit : ℕ) (m : Expiries)
    → 0 < limit
    → (length (make_room limit m) < limit) × (length m < limit → make_room limit m ≡ m)
unfolding make_room
make_room_ends limit m p =
    (evict_room (length m) limit m p (omega (arith, p)), evict_small (length m) limit m)

length-retain_later : (now : ℕ) (m : Expiries) → length (retain_later now m) ≤ length m
unfolding retain_later
length-retain_later now [] = omega arith
length-retain_later now ((k, e) ∷ m) = ground (arith, length-retain_later now m)

-- There are at most 32 challenges and 128 sessions.
abbrev pub IsBounded : PairingState → Type 0
IsBounded p =
    (length p.challenges ≤ max_pending_pairing_challenges)
    × (length p.sessions ≤ max_pairing_sessions)

-- The requests of the pairing.
pub data PairingRequest : Type 0 where
  issues : LatticeId → ℕ → PairingRequest
  redeems : LatticeId → Text → ℕ → PairingRequest
  checks : Text → ℕ → PairingRequest

abbrev pub after : NonceOps → PairingState → PairingRequest → PairingState
after ops p (issues id now) = (issue_challenge ops id now p).1
after ops p (redeems id challenge now) = (redeem ops id challenge now p).1
after ops p (checks candidate now) = (matches candidate now p).1

abbrev pub run : NonceOps → PairingState → List PairingRequest → PairingState
run ops p [] = p
run ops p (q ∷ qs) = run ops (after ops p q) qs

expire-IsBounded : (now : ℕ) (p : PairingState) → IsBounded p → IsBounded (expire now p)
unfolding expire
expire-IsBounded now p (a, b) = (
  omega (arith, a, length-retain_later now p.challenges),
  omega (arith, b, length-retain_later now p.sessions),
)

issue_challenge-IsBounded :
    (ops : NonceOps) (id : LatticeId) (now : ℕ) (p : PairingState)
    → IsBounded p
    → IsBounded (issue_challenge ops id now p).1
unfolding issue_challenge
issue_challenge-IsBounded ops id now p h =
    let (a, b) = expire-IsBounded now p h in
    let less =
      (make_room_ends max_pending_pairing_challenges (expire now p).challenges (omega arith)).0 in
    (
      omega (
        arith,
        less,
        length-insert_le (opaque_nonce ops (codes "challenge") id)
            (add_ms now pairing_challenge_ttl_ms)
            (make_room max_pending_pairing_challenges (expire now p).challenges),
      ),
      b,
    )

redeem_found-IsBounded :
    (o : Option ℕ) (challenge : Text) (session : Text × ℕ) (p : PairingState)
    → IsBounded p
    → IsBounded (redeem_found o challenge session p).1
unfolding redeem_found
redeem_found-IsBounded none challenge session p h = h
redeem_found-IsBounded (some _) challenge session p (a, b) = (
  omega (arith, a, length-remove_le challenge p.challenges),
  omega (
    arith,
    (make_room_ends max_pairing_sessions p.sessions (omega arith)).0,
    length-insert_le session.0 session.1 (make_room max_pairing_sessions p.sessions),
  ),
)

after-IsBounded :
    (ops : NonceOps) (p : PairingState) (q : PairingRequest)
    → IsBounded p
    → IsBounded (after ops p q)
unfolding redeem matches
after-IsBounded ops p (issues id now) h = issue_challenge-IsBounded ops id now p h
after-IsBounded ops p (redeems id challenge now) h =
    redeem_found-IsBounded _ challenge _ (expire now p) (expire-IsBounded now p h)
after-IsBounded ops p (checks candidate now) h = expire-IsBounded now p h

-- No sequence of requests makes the stores grow past 32 challenges and 128 sessions.
pub run-IsBounded :
    (ops : NonceOps) (p : PairingState) (qs : List PairingRequest)
    → IsBounded p
    → IsBounded (run ops p qs)
run-IsBounded ops p [] h = h
run-IsBounded ops p (q ∷ qs) h = run-IsBounded ops (after ops p q) qs (after-IsBounded ops p q h)
