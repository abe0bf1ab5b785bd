-- ===== src/Ledger/Async/Drained.antt =====
-- internal/ledger/async.go, `run`: what holds when the writer stops.
use crawlwall.Base.{ℕ, ◌≡◌, ◌⊎◌, List, [], All, In}
use crawlwall.Ledger.Event.{Event}
use crawlwall.Ledger.Async.{Async}
use crawlwall.Ledger.Async.Shutdown.{waiting}

-- A caller of `Flush` still waits in the queue, or has been answered.
IsKept : ℕ × List Event → Async → Type 0
IsKept ack s = In ack (waiting s.queue) ⊎ In ack s.acked

-- Nothing is left to do in `t`: the write of each accepted event was tried, in order, the queue and
-- the batch are empty, the dropped events are reported, and the calls of `Flush` that waited in `s`
-- are answered.
pub record IsDrained (s t : Async) : Type 0 where
  pub attempted : t.attempted ≡ t.accepted
  pub queue : t.queue ≡ []
  pub batch : t.batch ≡ []
  pub reported : t.reported ≡ t.dropped
  pub answered : All (λ ack. In ack t.acked) (waiting s.queue)
