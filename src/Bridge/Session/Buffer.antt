-- ===== src/Bridge/Session/Buffer.antt =====
-- The buffer of events (crates/lattice-studio-bridge/src/lib.rs) against what it stands for: the
-- last events of all that came, as many as the limit allows.
use abraxius_lattice.Bridge.Session.Invariant.{length-push_event}
use abraxius_lattice.Bridge.Types.{StudioBridgeEvent}
use abraxius_lattice.Bridge.Session.{push_event, push_events}
use abraxius_lattice.Base.{
  List, [], ◌∷◌, ◌++◌, ℕ, zero, suc, ◌+◌, ◌-◌, ◌≤◌, ◌<◌, ◌≡◌, length, drop, leb, ◌==◌,
  saturating_add, u64_max, length-append, length-drop, arith, refl, sym, ap, ◌∙◌, append_assoc,
  append-nil, if-split,
}

-- The abstract buffer: the last `limit` events.
abbrev pub last : ℕ → List StudioBridgeEvent → List StudioBridgeEvent
last limit es = drop (length es - limit) es

drop-append :
    (n : ℕ) (xs ys : List StudioBridgeEvent) → n ≤ length xs → drop n (xs ++ ys) ≡ drop n xs ++ ys
drop-append zero xs ys h = refl
drop-append (suc n) [] ys h = absurd (omega arith)
drop-append (suc n) (x ∷ xs) ys h = drop-append n xs ys (omega arith)

drop-nil : (n : ℕ) → drop {A = StudioBridgeEvent} n [] ≡ []
drop-nil zero = refl
drop-nil (suc n) = refl

drop-drop : (m n : ℕ) (xs : List StudioBridgeEvent) → drop m (drop n xs) ≡ drop (n + m) xs
drop-drop m zero xs = ap (λ (k : ℕ). drop k xs) (omega arith)
drop-drop m (suc n) [] = drop-nil m ∙ sym (drop-nil (suc n + m))
drop-drop m (suc n) (x ∷ xs) = drop-drop m n xs ∙ ap (λ (k : ℕ). drop k (x ∷ xs)) (suc_add n m)
  where
    suc_add : (n m : ℕ) → suc (n + m) ≡ suc n + m
    suc_add n m = omega arith

drop_at : (a b : ℕ) (xs : List StudioBridgeEvent) → a ≡ b → drop a xs ≡ drop b xs
drop_at a b xs e = ap (λ (k : ℕ). drop k xs) e

-- Forgetting early loses nothing.
last-append :
    (limit : ℕ) (xs ys : List StudioBridgeEvent)
    → last limit (last limit xs ++ ys) ≡ last limit (xs ++ ys)
last-append limit xs ys =
    let k = length xs - limit in
    let cut : drop k xs ++ ys ≡ drop k (xs ++ ys) = sym (drop-append k xs ys (omega arith)) in
    ap (last limit) cut
    ∙ drop-drop (length (drop k (xs ++ ys)) - limit) k (xs ++ ys)
    ∙ ap (λ (n : ℕ). drop n (xs ++ ys))
        (omega (arith, length-drop k (xs ++ ys), length-append xs ys))

last_short : (limit : ℕ) (es : List StudioBridgeEvent) → length es ≤ limit → last limit es ≡ es
last_short limit es h = drop_at (length es - limit) 0 es (omega arith)

-- With no room at all nothing is kept.
last_none :
    (limit : ℕ) (e : StudioBridgeEvent) (es : List StudioBridgeEvent)
    → limit ≡ 0
    → length es ≤ limit
    → es ≡ last limit (es ++ (e ∷ []))
last_none limit e [] z h = drop_at 1 (1 - limit) (e ∷ []) (omega arith)
last_none limit e (x ∷ es) z h = absurd (omega arith)

last_full :
    (limit : ℕ) (e : StudioBridgeEvent) (es : List StudioBridgeEvent)
    → 0 < limit
    → length es ≡ limit
    → drop 1 es ++ (e ∷ []) ≡ last limit (es ++ (e ∷ []))
last_full limit e es z h =
    sym (drop-append 1 es (e ∷ []) (omega arith))
    ∙ drop_at 1 (length (es ++ (e ∷ [])) - limit) (es ++ (e ∷ []))
        (omega (arith, length-append es (e ∷ [])))

push_event-last :
    (limit : ℕ) (e : StudioBridgeEvent) (es : List StudioBridgeEvent) (n : ℕ)
    → length es ≤ limit
    → (push_event limit e (es, n)).0 ≡ last limit (es ++ (e ∷ []))
unfolding push_event
push_event-last limit e es n h =
    if-split (λ (x : List StudioBridgeEvent × ℕ). x.0 ≡ last limit (es ++ (e ∷ []))) (limit == 0)
      (λ z. last_none limit e es (ground (arith, z)) h)
      (λ z.
        if-split (λ (x : List StudioBridgeEvent × ℕ). x.0 ≡ last limit (es ++ (e ∷ [])))
          (leb limit (length es))
          (λ full. last_full limit e es (ground (arith, z)) (ground (arith, full)))
          (λ room.
            sym (
              last_short limit (es ++ (e ∷ [])) (ground (arith, room, length-append es (e ∷ []))))))

-- The events kept and those dropped are all that came.
push_event_counted :
    (limit : ℕ) (e : StudioBridgeEvent) (es : List StudioBridgeEvent) (n : ℕ)
    → length es ≤ limit
    → n + 1 ≤ u64_max
    → let (es', n') = push_event limit e (es, n) in
      (n' + length es' ≡ n + length es + 1) × (n' ≤ n + 1)
unfolding push_event saturating_add
push_event_counted limit e es n h k =
    ground (arith, length-append (drop 1 es) (e ∷ []), length-append es (e ∷ []), length-drop 1 es)

push_events-last :
    (limit : ℕ) (new es : List StudioBridgeEvent) (n : ℕ)
    → length es ≤ limit
    → (push_events limit new (es, n)).0 ≡ last limit (es ++ new)
unfolding push_events
push_events-last limit [] es n h = sym (ap (last limit) (append-nil es) ∙ last_short limit es h)
push_events-last limit (e ∷ new) es n h =
    push_events-last limit new (push_event limit e (es, n)).0 (push_event limit e (es, n)).1
      (length-push_event limit e es n h)
    ∙ ap (λ (xs : List StudioBridgeEvent). last limit (xs ++ new)) (push_event-last limit e es n h)
    ∙ last-append limit (es ++ (e ∷ [])) new
    ∙ ap (last limit) (append_assoc es (e ∷ []) new)

push_events_counted :
    (limit : ℕ) (new es : List StudioBridgeEvent) (n : ℕ)
    → length es ≤ limit
    → n + length new ≤ u64_max
    → let (es', n') = push_events limit new (es, n) in n' + length es' ≡ n + length es + length new
unfolding push_events
push_events_counted limit [] es n h k = omega arith
push_events_counted limit (e ∷ new) es n h k =
    let (es', n') = push_event limit e (es, n) in
    let (all, few) = push_event_counted limit e es n h (omega arith) in
    omega (
      arith,
      all,
      push_events_counted limit new es' n' (length-push_event limit e es n h) (omega (arith, few)),
    )

-- A session's buffer within its limit holds, after new events, the last events of the old and the
-- new ones, as many as the limit allows. While the count of dropped events fits `u64`, the events
-- kept and those dropped are together all that came.
pub push_events-keeps_last :
    (limit : ℕ) (new es : List StudioBridgeEvent) (n : ℕ)
    → length es ≤ limit
    → n + length new ≤ u64_max
    → let (es', n') = push_events limit new (es, n) in
      (es' ≡ last limit (es ++ new)) × (n' + length es' ≡ n + length es + length new)
push_events-keeps_last limit new es n h k =
    (push_events-last limit new es n h, push_events_counted limit new es n h k)
