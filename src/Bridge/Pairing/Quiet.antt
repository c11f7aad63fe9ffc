-- ===== src/Bridge/Pairing/Quiet.antt =====
-- The requests between two pairings (crates/lattice-studio-bridge/src/lib.rs): challenges are issued
-- and tokens checked, and the sessions change only as they expire.
use abraxius_lattice.Bridge.Pairing.{
  Expiries, PairingState, NonceOps, retain_later, expire, matches, is_later, issue_challenge,
}
use abraxius_lattice.Bridge.Pairing.Room.{PairingRequest, issues, redeems, checks, after, run}
use abraxius_lattice.Base.Text.{Text}
use abraxius_lattice.Base.Maps.{text_key, get}
use abraxius_lattice.Base.{List, [], ◌∷◌, ℕ, ◌≤◌, ◌≡◌, refl, ap, ◌∙◌, arith}

-- Not a pairing, and not later than this time.
abbrev pub IsQuiet : ℕ → PairingRequest → Type 0
IsQuiet t (issues id now) = now ≤ t
IsQuiet t (redeems id challenge now) = ⊥
IsQuiet t (checks candidate now) = now ≤ t

abbrev pub AllQuiet : ℕ → List PairingRequest → Type 0
AllQuiet t [] = Unit {0}
AllQuiet t (q ∷ qs) = IsQuiet t q × AllQuiet t qs

-- To expire earlier makes no difference later.
retain_later_twice :
    (now t : ℕ) (m : Expiries) → now ≤ t → retain_later t (retain_later now m) ≡ retain_later t m
unfolding retain_later
retain_later_twice now t [] h = refl
retain_later_twice now t ((k, e) ∷ m) h = ground (arith, retain_later_twice now t m)

after-sessions :
    (ops : NonceOps) (t : ℕ) (p : PairingState) (q : PairingRequest)
    → IsQuiet t q
    → retain_later t (after ops p q).sessions ≡ retain_later t p.sessions
unfolding issue_challenge matches expire
after-sessions ops t p (issues id now) h = retain_later_twice now t p.sessions h
after-sessions ops t p (redeems id challenge now) h = absurd h
after-sessions ops t p (checks candidate now) h = retain_later_twice now t p.sessions h

run-sessions :
    (ops : NonceOps) (t : ℕ) (p : PairingState) (qs : List PairingRequest)
    → AllQuiet t qs
    → retain_later t (run ops p qs).sessions ≡ retain_later t p.sessions
run-sessions ops t p [] h = refl
run-sessions ops t p (q ∷ qs) (h, hs) =
    run-sessions ops t (after ops p q) qs hs ∙ after-sessions ops t p q h

pub matches-run :
    (ops : NonceOps) (token : Text) (t : ℕ) (p : PairingState) (qs : List PairingRequest)
    → AllQuiet t qs
    → (matches token t (run ops p qs)).0 ≡ (matches token t p).0
unfolding matches expire
matches-run ops token t p qs h =
    ap (λ (m : Expiries). is_later t (get token m)) (run-sessions ops t p qs h)
