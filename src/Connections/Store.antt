-- ===== src/Connections/Store.antt =====
-- The store of immutable results (crates/lattice-connections/src/lib.rs). A fresh identifier is an
-- argument of `put`.
use abraxius_lattice.Connections.Types.{
  StoredResult, ResultRef, new_result_ref, BrokerError, result_not_found,
}
use abraxius_lattice.Tools.Types.{LatticeId, ContentHash}
use abraxius_lattice.Base.Results.{Result, ok, err}
use abraxius_lattice.Base.Text.{Text}
use abraxius_lattice.Base.Maps.{text_key, get, insert}
use abraxius_lattice.Base.{List, none, some, ℕ, ◌-◌, ◌+◌, min, length, take, drop, u64_max}

-- `MemoryResultStore`: its field `values`.
abbrev pub ResultStore : Type 0
ResultStore = List (ResultRef × StoredResult)

-- `LatticeId`'s `Display` and blake3.
pub record StoreOps : Type 0 where
  pub show_id : LatticeId → Text
  pub content_hash : List ℕ → ContentHash

unfoldable pub stored_result : StoreOps → LatticeId → List ℕ → Text → StoredResult
stored_result ops id bytes content_type = record {
  reference = new_result_ref ops.show_id id;
  content_hash = ops.content_hash bytes;
  content_type = content_type;
  bytes = bytes;
}

unfoldable pub put : StoreOps → LatticeId → List ℕ → Text → ResultStore → StoredResult × ResultStore
put ops id bytes content_type store =
    let stored = stored_result ops id bytes content_type in
    (stored, insert stored.reference stored store)

-- The slice `bytes[start..end]`, with an offset of 64 bits.
unfoldable pub slice_of : ℕ → ℕ → List ℕ → List ℕ
slice_of offset count bytes =
    let start = min offset (length bytes) in
    let end = min (min (start + count) u64_max) (length bytes) in
    take (end - start) (drop start bytes)

unfoldable pub read_range : ResultRef → ℕ → ℕ → ResultStore → Result (List ℕ) BrokerError
read_range reference offset count store = elim (get reference store) [
  | none ↦ err result_not_found
  | some value ↦ ok (slice_of offset count value.bytes)
]
