-- ===== src/Ledger/Async/Bounds.antt =====
-- internal/ledger/async.go: sizes and counters.
use crawlwall.Base.{
  ℕ, ◌+◌, ◌≤◌, ◌<◌, String, Bool, true, false, ◌≡◌, refl, ap, ◌⊎◌, inl, inr, List, [], ◌∷◌, ◌++◌,
  ltb, leb, if◌then◌else◌, length, length-append, arith, Bool-cases,
}
use crawlwall.Ledger.Event.{Event}
use crawlwall.Ledger.Async.{
  Queued, event, barrier, Mode, Async, async_queue_size, async_batch_size, with_id, write_event,
  queue_barrier, commit, accept, report_dropped, Step, write, flush, receive, tick, quit, finish,
  Reach, start, next,
}
use crawlwall.Ledger.Async.Invariant.{List-cases}

-- The queue and the batch keep to their sizes. Each write is accepted or counted as dropped, the
-- total that was logged is not above the count, and the store holds what was tried, in order,
-- unless a batch has failed.
pub record Counted (s : Async) : Type 0 where
  pub queue_bound : length s.queue ≤ async_queue_size
  pub batch_bound : length s.batch < async_batch_size
  pub every_write : s.written ≡ length s.accepted + s.dropped
  pub reported_bound : s.reported ≤ s.dropped
  pub store : (s.stored ≡ s.attempted) ⊎ (1 ≤ s.failures)

-- The same, for a batch that may be full.
record Loose (s : Async) : Type 0 where
  queue_bound : length s.queue ≤ async_queue_size
  every_write : s.written ≡ length s.accepted + s.dropped
  reported_bound : s.reported ≤ s.dropped
  store : (s.stored ≡ s.attempted) ⊎ (1 ≤ s.failures)

loosened : {s : Async} → Counted s → Loose s
loosened c = record {
  queue_bound = c.queue_bound;
  every_write = c.every_write;
  reported_bound = c.reported_bound;
  store = c.store;
}

store-commit :
    (succeeds : Bool) (stored attempted batch : List Event) (failures : ℕ)
    → (stored ≡ attempted) ⊎ (1 ≤ failures)
    → ((if succeeds then stored ++ batch else stored) ≡ attempted ++ batch)
      ⊎ (1 ≤ (if succeeds then failures else failures + 1))
store-commit true stored attempted batch failures (inl e) = inl (ap (λ es. es ++ batch) e)
store-commit true stored attempted batch failures (inr e) = inr e
store-commit false stored attempted batch failures h = inr (omega arith)

Counted-commit : (succeeds : Bool) (s : Async) → Loose s → Counted (commit succeeds s)
unfolding commit
Counted-commit succeeds s h = elim (List-cases s.batch) [
  | inl none_left ↦
      rw (none_left, commit)
        (record {
          queue_bound = h.queue_bound;
          batch_bound = rw none_left (omega arith);
          every_write = h.every_write;
          reported_bound = h.reported_bound;
          store = h.store;
        })
  | inr (e, rest, some_left) ↦
      rw (some_left, commit)
        (record {
          queue_bound = h.queue_bound;
          batch_bound = omega arith;
          every_write = h.every_write;
          reported_bound = h.reported_bound;
          store = store-commit succeeds s.stored s.attempted s.batch s.failures h.store;
        })
]

-- A state whose queue and batch differ.
moved :
    {s : Async} (q : List Queued) (b : List Event)
    → length q ≤ async_queue_size
    → Counted s
    → Loose (record s { queue = q; batch = b })
moved q b room h = record {
  queue_bound = room;
  every_write = h.every_write;
  reported_bound = h.reported_bound;
  store = h.store;
}

acknowledged :
    {s : Async} (n : ℕ) (before : List Event)
    → Counted s
    → Counted (record s { acked = (n, before) ∷ s.acked })
acknowledged n before h = record {
  queue_bound = h.queue_bound;
  batch_bound = h.batch_bound;
  every_write = h.every_write;
  reported_bound = h.reported_bound;
  store = h.store;
}

tightened : {s : Async} → length s.batch < async_batch_size → Loose s → Counted s
tightened b h = record {
  queue_bound = h.queue_bound;
  batch_bound = b;
  every_write = h.every_write;
  reported_bound = h.reported_bound;
  store = h.store;
}

Counted-accept :
    (succeeds : Bool) (item : Queued) (rest : List Queued) (s : Async)
    → s.queue ≡ item ∷ rest
    → Counted s
    → Counted (accept succeeds item (record s { queue = rest }))
unfolding accept
Counted-accept succeeds (barrier n before) rest s q h =
    let room : length rest ≤ async_queue_size = omega (arith, h.queue_bound, ap length q) in
    acknowledged n before (Counted-commit succeeds _ (moved rest s.batch room h))
Counted-accept succeeds (event e) rest s q h =
    let room : length rest ≤ async_queue_size = omega (arith, h.queue_bound, ap length q) in
    let loose = moved rest (s.batch ++ e ∷ []) room h in
    elim (Bool-cases (leb async_batch_size (length (s.batch ++ e ∷ [])))) [
      | inl full ↦ rw full (Counted-commit succeeds _ loose)
      | inr part ↦ rw part (tightened (ground arith) loose)
    ]

Counted-write :
    (new_id : String) (e : Event) (s : Async) → Counted s → Counted (write_event new_id e s)
unfolding write_event
Counted-write new_id e s h = elim (Bool-cases (ltb (length s.queue) async_queue_size)) [
  | inl room ↦ rw room (record {
    queue_bound = rw (length-append s.queue (event (with_id new_id e) ∷ [])) (ground arith);
    batch_bound = h.batch_bound;
    every_write =
        rw (length-append s.accepted (with_id new_id e ∷ [])) (omega (arith, h.every_write));
    reported_bound = h.reported_bound;
    store = h.store;
  })
  | inr none_left ↦ rw none_left (record {
    queue_bound = h.queue_bound;
    batch_bound = h.batch_bound;
    every_write = omega (arith, h.every_write);
    reported_bound = omega (arith, h.reported_bound);
    store = h.store;
  })
]

reported : {s : Async} (m : Mode) → Counted s → Counted (record (report_dropped s) { mode = m })
unfolding report_dropped
reported m h = record {
  queue_bound = h.queue_bound;
  batch_bound = h.batch_bound;
  every_write = h.every_write;
  reported_bound = omega arith;
  store = h.store;
}

Counted-Step : {s t : Async} → Step s t → Counted s → Counted t
unfolding queue_barrier report_dropped
Counted-Step {s} (write new_id e) h = Counted-write new_id e s h
Counted-Step {s} (flush n room) h = tightened h.batch_bound (
    moved (s.queue ++ barrier n s.accepted ∷ []) s.batch
      (rw (length-append s.queue (barrier n s.accepted ∷ [])) (omega (arith, room))) h)
Counted-Step {s} (receive succeeds item rest q up) h = Counted-accept succeeds item rest s q h
Counted-Step {s} (tick succeeds up) h = reported _ (Counted-commit succeeds s (loosened h))
Counted-Step (quit up) h = record {
  queue_bound = h.queue_bound;
  batch_bound = h.batch_bound;
  every_write = h.every_write;
  reported_bound = h.reported_bound;
  store = h.store;
}
Counted-Step {s} (finish succeeds up q) h = reported _ (Counted-commit succeeds s (loosened h))

-- In every reachable state the queue holds at most 4096 items and the batch fewer than 256 events,
-- each write was accepted or counted as dropped, the logged total is not above that count, and the
-- store holds the events that were tried, in order, unless a batch has failed.
pub Reach-Counted : {s : Async} → Reach s → Counted s
Reach-Counted start = record {
  queue_bound = omega arith;
  batch_bound = omega arith;
  every_write = refl;
  reported_bound = omega arith;
  store = inl refl;
}
Reach-Counted (next r step) = Counted-Step step (Reach-Counted r)
