-- ===== src/Ledger/Async.antt =====
-- internal/ledger/async.go as a step relation. Requests write, callers of `Flush` queue a barrier,
-- and the writer goroutine receives, ticks, and on quit drains the queue and stops. A step that
-- commits is told whether the batch write succeeds; a failed batch is logged and not tried again.
-- `accepted`, `attempted`, `written` and `failures` record the past, and so does the list that a
-- barrier carries: the events accepted before it.
pub mod Invariant
pub mod Bounds
pub mod Barrier
pub mod Shutdown
pub mod Drained
use crawlwall.Base.{
  ℕ, suc, ◌+◌, ◌≤◌, ◌<◌, String, Bool, true, false, ◌≡◌, ◌≢◌, ◌⊎◌, List, [], ◌∷◌, ◌++◌, ◌==◌, ltb,
  leb, if◌then◌else◌, length,
}
use crawlwall.Ledger.Event.{Event}

abbrev pub async_queue_size : ℕ
async_queue_size = 4096

abbrev pub async_batch_size : ℕ
async_batch_size = 256

pub data Queued : Type 0 where
  event : Event → Queued
  barrier : ℕ → List Event → Queued

pub data Mode : Type 0 where
  running draining stopped : Mode

pub record Async : Type 0 where
  pub queue : List Queued
  pub batch : List Event
  pub mode : Mode
  pub dropped : ℕ
  pub reported : ℕ
  pub stored : List Event
  pub acked : List (ℕ × List Event)
  pub accepted : List Event
  pub attempted : List Event
  pub written : ℕ
  pub failures : ℕ

abbrev pub new_async : Async
new_async = record {
  queue = [];
  batch = [];
  mode = running;
  dropped = 0;
  reported = 0;
  stored = [];
  acked = [];
  accepted = [];
  attempted = [];
  written = 0;
  failures = 0;
}

abbrev pub with_id : String → Event → Event
with_id new_id e = if e.event_id == "" then record e { event_id = new_id } else e

-- `WriteEvent`: never waits; past a full queue the event is counted and lost
unfoldable pub write_event : String → Event → Async → Async
write_event new_id e s =
    if ltb (length s.queue) async_queue_size
    then record s {
      queue = s.queue ++ event (with_id new_id e) ∷ [];
      accepted = s.accepted ++ with_id new_id e ∷ [];
      written = s.written + 1;
    }
    else record s { dropped = s.dropped + 1; written = s.written + 1 }

-- the send of `Flush`, which waits for room
unfoldable pub queue_barrier : ℕ → Async → Async
queue_barrier n s = record s { queue = s.queue ++ barrier n s.accepted ∷ [] }

-- `commit`, over a ledger with `WriteEvents`, as the one that `Open` wraps has
unfoldable pub commit : Bool → Async → Async
commit succeeds s = elim s.batch [
  | [] ↦ s
  | e ∷ rest ↦ record s {
    batch = [];
    attempted = s.attempted ++ s.batch;
    stored = if succeeds then s.stored ++ s.batch else s.stored;
    failures = if succeeds then s.failures else s.failures + 1;
  }
]

abbrev acknowledge : ℕ → List Event → Async → Async
acknowledge n before s = record s { acked = (n, before) ∷ s.acked }

unfoldable pub accept : Bool → Queued → Async → Async
unfolding commit
accept succeeds (barrier n before) s = acknowledge n before (commit succeeds s)
accept succeeds (event e) s =
    let grown : Async = record s { batch = s.batch ++ e ∷ [] } in
    if leb async_batch_size (length grown.batch) then commit succeeds grown else grown

-- `reportDropped`
unfoldable pub report_dropped : Async → Async
report_dropped s = record s { reported = s.dropped }

-- the step relation of the requests, the callers of `Flush` and the writer
pub data Step (s : Async) : Async → Type 0 where
  write : (new_id : String) (e : Event) → Step s (write_event new_id e s)
  flush : (n : ℕ) → length s.queue < async_queue_size → Step s (queue_barrier n s)
  receive :
      (succeeds : Bool) (item : Queued) (rest : List Queued)
      → s.queue ≡ item ∷ rest
      → s.mode ≢ stopped
      → Step s (accept succeeds item (record s { queue = rest }))
  tick : (succeeds : Bool) → s.mode ≡ running → Step s (report_dropped (commit succeeds s))
  quit : s.mode ≡ running → Step s (record s { mode = draining })
  finish :
      (succeeds : Bool)
      → s.mode ≡ draining
      → s.queue ≡ []
      → Step s (record (report_dropped (commit succeeds s)) { mode = stopped })

pub data Reach : Async → Type 0 where
  start : Reach new_async
  next : {s t : Async} → Reach s → Step s t → Reach t
