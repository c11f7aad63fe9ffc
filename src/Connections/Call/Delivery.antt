-- ===== src/Connections/Call/Delivery.antt =====
-- What a call that succeeds hands over (crates/lattice-connections/src/lib.rs): the value itself, or
-- a reference under which the store has its encoding.
use abraxius_lattice.Connections.Types.{
  ProviderCallResult, Policy, InvocationStatus, call_succeeded, call_failed, call_cancelled,
  call_timed_out, ToolInvocationResult, ResultRef, StoredResult, BrokerError, result_not_found,
  Timed, finished, expired,
}
use abraxius_lattice.Connections.Store.{
  ResultStore, StoreOps, stored_result, put, slice_of, read_range,
}
use abraxius_lattice.Connections.Broker.{Slots}
use abraxius_lattice.Connections.Call.{
  CallOps, CallHeader, admit_call, Cancellation, cancelled_by, terminal_result, succeeded_result,
  deliver, finish_response, finish_call, call, Outcome, inline_limit, result_limit,
}
use abraxius_lattice.Tools.Types.{ToolRef, LatticeId, Value}
use abraxius_lattice.Tools.Catalog.{ToolCatalog}
use abraxius_lattice.Base.Results.{Result, ok, err, Result-cases}
use abraxius_lattice.Base.Text.{Text}
use abraxius_lattice.Base.Maps.{text_key, insert, get-insert_self}
use abraxius_lattice.Base.{
  List, ◌++◌, Option, none, some, ℕ, ◌+◌, ◌-◌, ◌≤◌, ◌<◌, ◌≡◌, ◌≢◌, ◌⊎◌, inl, inr, refl, sym, ap,
  ap₂, subst, ◌∙◌, if-split, arith, length, take, drop, min, ltb, leb, u64_max, take-append-drop,
  take-length, length-drop,
}

-- Under the reference the store has the bytes, which two reads give back in two parts, wherever they
-- are cut.
abbrev pub HasBytes : ResultRef → List ℕ → ResultStore → Type 0
HasBytes reference bytes store =
    (k : ℕ)
    → k ≤ length bytes
    → (front : List ℕ) × (back : List ℕ) × (read_range reference 0 k store ≡ ok front)
      × (read_range reference k (length bytes - k) store ≡ ok back)
      × (front ++ back ≡ bytes)

-- What is handed over for a value that the provider gave, in this encoding.
abbrev pub IsDelivered :
    ProviderCallResult → List ℕ → ToolInvocationResult → ResultStore → ResultStore → Type 0
IsDelivered result encoded r store store' =
    (r.byte_len ≡ length encoded)
    × (length encoded ≤ result_limit)
    × (((length encoded ≤ inline_limit) × (r.inline ≡ some result.structured) × (store' ≡ store))
        ⊎ ((inline_limit < length encoded)
            × (r.inline ≡ none)
            × ((reference : ResultRef) × (r.result_ref ≡ some reference)
                × HasBytes reference encoded store')))

slice_front :
    (k : ℕ) (bytes : List ℕ)
    → k ≤ length bytes
    → length bytes ≤ u64_max
    → slice_of 0 k bytes ≡ take k bytes
unfolding slice_of
slice_front k bytes h u =
    let start : min 0 (length bytes) ≡ 0 = omega (arith, h) in
    let count : min (min (min 0 (length bytes) + k) u64_max) (length bytes) - min 0 (length bytes)
        ≡ k =
      omega (arith, h, u) in
    ap₂ (λ (m n : ℕ). take m (drop n bytes)) count start

slice_back :
    (k : ℕ) (bytes : List ℕ)
    → k ≤ length bytes
    → length bytes ≤ u64_max
    → slice_of k (length bytes - k) bytes ≡ drop k bytes
unfolding slice_of
slice_back k bytes h u =
    ap₂ (λ (m n : ℕ). take m (drop n bytes)) (omega (arith, h, u)) (omega (arith, h))
    ∙ take-length (length bytes - k) (drop k bytes) (omega (arith, length-drop k bytes))

read_range-insert :
    (reference : ResultRef) (offset count : ℕ) (stored : StoredResult) (store : ResultStore)
    → read_range reference offset count (insert reference stored store)
      ≡ ok (slice_of offset count stored.bytes)
unfolding read_range
read_range-insert reference offset count stored store =
    ap
      (λ (o : Option StoredResult). elim o as (λ _. Result (List ℕ) BrokerError) [
        | none ↦ err result_not_found
        | some value ↦ ok (slice_of offset count value.bytes)
      ])
      (get-insert_self reference stored store)

-- What is put is read back.
put-HasBytes :
    (ops : StoreOps) (id : LatticeId) (bytes : List ℕ) (content_type : Text) (store : ResultStore)
    → length bytes ≤ u64_max
    → let (stored, store') = put ops id bytes content_type store in
      HasBytes stored.reference bytes store'
unfolding put stored_result
put-HasBytes ops id bytes content_type store u k h =
    let stored = stored_result ops id bytes content_type in
    (
      take k bytes,
      drop k bytes,
      read_range-insert stored.reference 0 k stored store
          ∙ ap (λ (l : List ℕ). ok l) (slice_front k bytes h u),
      read_range-insert stored.reference k (length bytes - k) stored store
          ∙ ap (λ (l : List ℕ). ok l) (slice_back k bytes h u),
      take-append-drop k bytes,
    )

Handed : ProviderCallResult → List ℕ → ResultStore → Outcome → Type 0
Handed result encoded store x =
    (r : ToolInvocationResult) → x.0 ≡ ok r → IsDelivered result encoded r store x.1

handed :
    (result : ProviderCallResult) (encoded : List ℕ) (store store' : ResultStore)
    (given : ToolInvocationResult)
    → IsDelivered result encoded given store store'
    → Handed result encoded store (ok given, store')
unfolding Handed
handed result encoded store store' given d r h =
    let same : given ≡ r = cc in
    subst (λ (x : ToolInvocationResult). IsDelivered result encoded x store store') same d

deliver-ok :
    (ops : CallOps) (header : CallHeader) (result : ProviderCallResult) (encoded : List ℕ)
    (id : LatticeId) (finished_at : ℕ) (store : ResultStore)
    → Handed result encoded store (deliver ops header result (ok encoded) id finished_at store)
unfolding Handed deliver succeeded_result put
deliver-ok ops header result encoded id finished_at store =
    let n = length encoded in
    if-split (Handed result encoded store) (ltb result_limit n) (λ large r h. cc)
      (λ small.
        let within : n ≤ result_limit = ground (arith, small) in
        let exact : min n u64_max ≡ n = omega (arith, within) in
        if-split (Handed result encoded store) (leb n inline_limit)
          (λ few.
            handed result encoded store store _
              (exact, within, inl (ground (arith, few), refl, refl)))
          (λ many. handed result encoded store _ _ (
            exact,
            within,
            inr (
              ground (arith, many),
              refl,
              (
                (stored_result ops.store_ops id encoded result.content_type).reference,
                refl,
                put-HasBytes ops.store_ops id encoded result.content_type store
                    (omega (arith, within)),
              ),
            ),
          )))

-- The provider gave a value, and it is handed over.
abbrev pub Succeeds :
    CallOps → Timed ProviderCallResult → ToolInvocationResult → ResultStore → ResultStore → Type 0
Succeeds ops answer r store store' =
    (result : ProviderCallResult) × (encoded : List ℕ) × (answer ≡ finished (ok result))
    × (ops.to_vec result.structured ≡ ok encoded)
    × IsDelivered result encoded r store store'

-- The outcome is no success, or one that has handed over what the provider gave.
Success : CallOps → Timed ProviderCallResult → ResultStore → Outcome → Type 0
Success ops answer store x =
    (r : ToolInvocationResult)
    → x.0 ≡ ok r
    → r.status ≡ call_succeeded
    → Succeeds ops answer r store x.1

-- A call that ended otherwise is no success.
terminal_result-Success :
    (ops : CallOps) (header : CallHeader) (status : InvocationStatus) (error : Text)
    (finished_at : ℕ) (answer : Timed ProviderCallResult) (store : ResultStore)
    → status ≢ call_succeeded
    → Success ops answer store (ok (terminal_result header status error finished_at), store)
unfolding Success terminal_result
terminal_result-Success ops header status error finished_at answer store other r h succeeded =
    let same : terminal_result header status error finished_at ≡ r = cc in
    let this : status ≡ r.status = ap (λ (x : ToolInvocationResult). x.status) same in
    absurd (other (this ∙ succeeded))

finish_response-ok :
    (ops : CallOps) (header : CallHeader) (answer : Timed ProviderCallResult) (id : LatticeId)
    (finished_at : ℕ) (store : ResultStore)
    → Success ops answer store (finish_response ops header answer id finished_at store)
unfolding Success finish_response terminal_result Handed deliver
finish_response-ok ops header (finished (ok result)) id finished_at store = λ r h status.
    elim (Result-cases (ops.to_vec result.structured)) [
      | inl (encoded, e) ↦ (
        result,
        encoded,
        refl,
        e,
        subst (Handed result encoded store)
            (ap (λ m. deliver ops header result m id finished_at store) (sym e))
            (deliver-ok ops header result encoded id finished_at store) r h,
      )
      | inr (x, e) ↦
          let refused = ap (λ m. (deliver ops header result m id finished_at store).0) e in
          absurd cc
    ]
finish_response-ok ops header (finished (err e)) id finished_at store =
    terminal_result-Success ops header call_failed _ finished_at _ store (λ q. cc)
finish_response-ok ops header expired id finished_at store =
    terminal_result-Success ops header call_timed_out _ finished_at _ store (λ q. cc)

finish_call-ok :
    (ops : CallOps) (header : CallHeader) (reason : Option Text) (answer : Timed ProviderCallResult)
    (id : LatticeId) (finished_at : ℕ) (store : ResultStore)
    → Success ops answer store (finish_call ops header reason answer id finished_at store)
unfolding finish_call
finish_call-ok ops header (some reason) answer id finished_at store =
    terminal_result-Success ops header call_cancelled reason finished_at answer store (λ q. cc)
finish_call-ok ops header none answer id finished_at store =
    finish_response-ok ops header answer id finished_at store

-- A call whose result says that it succeeded has the answer of the provider, with its length in
-- bytes, which is at most 64 MiB. Up to 64 KiB the value itself is in the result and the store is as
-- it was. Beyond, the result has a reference, and wherever the encoding is cut, two reads of the
-- store under the reference give it back.
pub call-ok :
    (ops : CallOps) (policy : Policy) (caller : Text) (tool_ref : ToolRef) (arguments : Value)
    (cancellation : Cancellation) (operation_id : LatticeId) (started_at : ℕ)
    (catalog : ToolCatalog) (slots : Slots) (answer : Timed ProviderCallResult) (id : LatticeId)
    (finished_at : ℕ) (store : ResultStore) (r : ToolInvocationResult)
    → let outcome =
        call ops policy caller tool_ref arguments cancellation operation_id started_at catalog slots
          answer id finished_at store in
      outcome.0 ≡ ok r → r.status ≡ call_succeeded → Succeeds ops answer r store outcome.1
unfolding call Success
call-ok ops policy caller tool_ref arguments cancellation operation_id started_at catalog slots
      answer id finished_at store r =
    let rest : Result CallHeader BrokerError → Outcome = λ o. elim o as (λ _. Outcome) [
      | err e ↦ (err e, store)
      | ok header ↦ finish_call ops header (cancelled_by cancellation) answer id finished_at store
    ] in
    elim (Result-cases
      (admit_call ops policy caller tool_ref arguments operation_id started_at catalog slots)) [
        | inl (header, e) ↦
            subst (λ (o : Result CallHeader BrokerError). Success ops answer store (rest o)) (sym e)
              (finish_call-ok ops header (cancelled_by cancellation) answer id finished_at store) r
        | inr (x, e) ↦
            subst (λ (o : Result CallHeader BrokerError). Success ops answer store (rest o)) (sym e)
              (λ r h succeeded. cc) r
      ]
