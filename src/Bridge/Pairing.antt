-- ===== src/Bridge/Pairing.antt =====
-- The one-time pairing of the plugin (crates/lattice-studio-bridge/src/lib.rs). A `HashMap` stands as
-- a list of entries, whose order is that in which the map is iterated. The identifier that the clock
-- gives, its text and the hexadecimal text of a hash are parameters.
pub mod Room
pub mod Quiet
pub mod Once
use abraxius_lattice.Base.Text.{Text, codes, as_bytes, text_eq, byte_len}
use abraxius_lattice.Base.Maps.{text_key, get, insert, remove}
use abraxius_lattice.Base.{
  Bool, true, false, List, [], ◌∷◌, ◌++◌, Option, none, some, ℕ, zero, suc, ◌+◌, min, ltb, leb,
  if◌then◌else◌, length,
}
use abraxius_lattice.Tools.Types.{LatticeId}

abbrev pub i64_max : ℕ
i64_max = 9223372036854775807

abbrev pub pairing_challenge_ttl_ms : ℕ
pairing_challenge_ttl_ms = 30000

abbrev pub pairing_session_ttl_ms : ℕ
pairing_session_ttl_ms = 43200000

abbrev pub max_pending_pairing_challenges : ℕ
max_pending_pairing_challenges = 32

abbrev pub max_pairing_sessions : ℕ
max_pairing_sessions = 128

-- `saturating_add` on times.
unfoldable pub add_ms : ℕ → ℕ → ℕ
add_ms now ttl = min (now + ttl) i64_max

-- Each secret with the time at which it expires.
abbrev pub Expiries : Type 0
Expiries = List (Text × ℕ)

pub record PairingState : Type 0 where
  pub challenges : Expiries
  pub sessions : Expiries

-- `LatticeId`'s `Display`, and `blake3::hash(…).to_hex()`.
pub record NonceOps : Type 0 where
  pub show_id : LatticeId → Text
  pub hash_hex : List ℕ → Text

unfoldable pub opaque_nonce : NonceOps → Text → LatticeId → Text
opaque_nonce ops prefix id =
    prefix ++ (b'_' ∷ ops.hash_hex (as_bytes (prefix ++ (b':' ∷ ops.show_id id))))

-- `retain(|_, expires| *expires > now)`.
unfoldable pub retain_later : ℕ → Expiries → Expiries
retain_later now [] = []
retain_later now ((secret, expires) ∷ m) =
    let rest = retain_later now m in if ltb now expires then (secret, expires) ∷ rest else rest

unfoldable pub expire : ℕ → PairingState → PairingState
expire now p = record {
  challenges = retain_later now p.challenges;
  sessions = retain_later now p.sessions;
}

-- `iter().min_by_key(…)`: the first of the entries that expire earliest.
unfoldable pub earlier : Text × ℕ → Option (Text × ℕ) → Text × ℕ
earlier e none = e
earlier e (some d) = if leb e.1 d.1 then e else d

unfoldable pub oldest : Expiries → Option (Text × ℕ)
unfolding earlier
oldest [] = none
oldest (e ∷ m) = some (earlier e (oldest m))

unfoldable pub remove_oldest : Option (Text × ℕ) → Expiries → Expiries
remove_oldest none m = m
remove_oldest (some e) m = remove e.0 m

-- The loop that makes room. The fuel is the number of entries that it may remove. Only an empty map
-- has no oldest entry, and a round leaves that as it is.
unfoldable pub evict : ℕ → ℕ → Expiries → Expiries
evict zero limit m = m
evict (suc f) limit m =
    let rest = evict f limit (remove_oldest (oldest m) m) in
    if leb limit (length m) then rest else m

unfoldable pub make_room : ℕ → Expiries → Expiries
unfolding evict
make_room limit m = evict (length m) limit m

unfoldable pub issue_challenge : NonceOps → LatticeId → ℕ → PairingState → (Text × ℕ) × PairingState
issue_challenge ops id now p =
    let p' = expire now p in
    let challenge = opaque_nonce ops (codes "challenge") id in
    let expires = add_ms now pairing_challenge_ttl_ms in
    (
      (challenge, expires),
      record p' {
        challenges =
            insert challenge expires (make_room max_pending_pairing_challenges p'.challenges);
      },
    )

-- The challenge is removed before the session's token is made.
unfoldable pub redeem_found :
    Option ℕ → Text → Text × ℕ → PairingState → Option (Text × ℕ) × PairingState
redeem_found none challenge session p = (none, p)
redeem_found (some _) challenge (token, expires) p = (
  some (token, expires),
  record {
    challenges = remove challenge p.challenges;
    sessions = insert token expires (make_room max_pairing_sessions p.sessions);
  },
)

unfoldable pub redeem :
    NonceOps → LatticeId → Text → ℕ → PairingState → Option (Text × ℕ) × PairingState
redeem ops id challenge now p =
    redeem_found (get challenge (expire now p).challenges) challenge
      (opaque_nonce ops (codes "session") id, add_ms now pairing_session_ttl_ms) (expire now p)

unfoldable pub is_later : ℕ → Option ℕ → Bool
is_later now none = false
is_later now (some expires) = ltb now expires

unfoldable pub matches : Text → ℕ → PairingState → Bool × PairingState
matches candidate now p = (is_later now (get candidate (expire now p).sessions), expire now p)
