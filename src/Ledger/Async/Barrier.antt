-- ===== src/Ledger/Async/Barrier.antt =====
-- internal/ledger/async.go: acknowledged calls of `Flush`, and the end of the writer.
use crawlwall.Base.{
  ℕ, String, Bool, ◌≡◌, refl, sym, ap, ◌∙◌, inl, inr, List, [], ◌∷◌, ◌++◌, ltb, length, Bool-cases,
  In, here, there,
}
use mathlib.Core.Path.{subst}
use mathlib.Core.List.{append_assoc, append-nil}
use crawlwall.Ledger.Event.{Event}
use crawlwall.Ledger.Async.{
  Queued, event, barrier, Async, async_queue_size, with_id, write_event, queue_barrier, commit,
  accept, report_dropped, Step, write, flush, receive, tick, quit, finish, Reach, start, next,
}
use crawlwall.Ledger.Async.Invariant.{List-cases, both_sides, InOrder, Reach-InOrder, events_of}

-- Each barrier of a queue carries the events that come before it, if `sofar` come before the queue.
abbrev Marked : List Event → List Queued → Type 0
Marked sofar [] = Unit
Marked sofar (event e ∷ q) = Marked (sofar ++ e ∷ []) q
Marked sofar (barrier n before ∷ q) = (before ≡ sofar) × Marked sofar q

Marked-append :
    (sofar all_events : List Event) (q : List Queued) (item : Queued)
    → Marked sofar q
    → sofar ++ events_of q ≡ all_events
    → Marked all_events (item ∷ [])
    → Marked sofar (q ++ item ∷ [])
Marked-append sofar all_events [] item h a last =
    subst (λ es. Marked es (item ∷ [])) (sym (sym (append-nil sofar) ∙ a)) last
Marked-append sofar all_events (event e ∷ q) item h a last =
    Marked-append (sofar ++ e ∷ []) all_events q item h
      (append_assoc sofar (e ∷ []) (events_of q) ∙ a) last
Marked-append sofar all_events (barrier n before ∷ q) item h a last =
    (h.0, Marked-append sofar all_events q item h.1 a last)

-- The list `before` is the start of `attempted`.
pub record IsTried (attempted : List Event) (ack : ℕ × List Event) : Type 0 where
  pub later : List Event
  pub split : attempted ≡ ack.1 ++ later

record Barriers (s : Async) : Type 0 where
  marked : Marked (s.attempted ++ s.batch) s.queue
  done : (ack : ℕ × List Event) → In ack s.acked → IsTried s.attempted ack

still-IsTried :
    (before after more : List Event) (ack : ℕ × List Event)
    → after ≡ before ++ more
    → IsTried before ack
    → IsTried after ack
still-IsTried before after more ack grown h = record {
  later = h.later ++ more;
  split = grown ∙ rw h.split (append_assoc ack.1 h.later more);
}

-- A commit tries the whole batch.
pub commit-tries :
    (succeeds : Bool) (s : Async)
    → ((commit succeeds s).attempted ≡ s.attempted ++ s.batch)
      × ((commit succeeds s).batch ≡ [])
      × ((commit succeeds s).queue ≡ s.queue)
      × ((commit succeeds s).acked ≡ s.acked)
unfolding commit
commit-tries succeeds s = elim (List-cases s.batch) [
  | inl none_left ↦ rw (none_left, commit) (sym (append-nil s.attempted), none_left, refl, refl)
  | inr (e, rest, some_left) ↦
      rw (some_left, commit) (ap (λ es. s.attempted ++ es) some_left, refl, refl, refl)
]

Barriers-commit : (succeeds : Bool) (s : Async) → Barriers s → Barriers (commit succeeds s)
Barriers-commit succeeds s h =
    let (tried, emptied, same_queue, same_acks) = commit-tries succeeds s in
    record {
      marked = rw (tried, emptied, same_queue, append-nil (s.attempted ++ s.batch)) h.marked;
      done = λ ack i.
          still-IsTried s.attempted _ s.batch ack tried
            (h.done ack (subst (λ acks. In ack acks) same_acks i));
    }

In-cons {ℓ κ} :
    {A : Type ℓ} (P : A → Type κ) (b : A) (xs : List A)
    → P b
    → ((a : A) → In a xs → P a)
    → (a : A) → In a (b ∷ xs)
    → P a
In-cons P b xs first others _ here = first
In-cons P b xs first others a (there i) = others a i

Barriers-accept :
    (succeeds : Bool) (item : Queued) (rest : List Queued) (s : Async)
    → s.queue ≡ item ∷ rest
    → Barriers s
    → Barriers (accept succeeds item (record s { queue = rest }))
unfolding accept
Barriers-accept succeeds (barrier n before) rest s q h =
    let at_front = subst (λ es. Marked (s.attempted ++ s.batch) es) q h.marked in
    let before_moved : Barriers (record s { queue = rest }) = record {
      marked = at_front.1;
      done = h.done;
    } in
    let c = Barriers-commit succeeds (record s { queue = rest }) before_moved in
    let (tried, emptied, same_queue, same_acks) =
      commit-tries succeeds (record s { queue = rest }) in
    record {
      marked = c.marked;
      done =
          In-cons (IsTried (commit succeeds (record s { queue = rest })).attempted) (n, before) _
            (record { later = []; split = tried ∙ sym at_front.0 ∙ sym (append-nil before) })
            c.done;
    }
Barriers-accept succeeds (event e) rest s q h =
    let moved : Barriers (record s { queue = rest; batch = s.batch ++ e ∷ [] }) = record {
      marked =
          rw (sym (append_assoc s.attempted s.batch (e ∷ [])))
            (subst (λ es. Marked (s.attempted ++ s.batch) es) q h.marked);
      done = h.done;
    } in
    both_sides Barriers _ (Barriers-commit succeeds _ moved) moved

Barriers-write :
    (new_id : String) (e : Event) (s : Async)
    → InOrder s
    → Barriers s
    → Barriers (write_event new_id e s)
unfolding write_event
Barriers-write new_id e s o h = elim (Bool-cases (ltb (length s.queue) async_queue_size)) [
  | inl room ↦ rw room (record {
    marked =
        Marked-append (s.attempted ++ s.batch) s.accepted s.queue (event (with_id new_id e))
          h.marked (append_assoc s.attempted s.batch (events_of s.queue) ∙ sym o) tt;
    done = h.done;
  })
  | inr none_left ↦ rw none_left (record { marked = h.marked; done = h.done })
]

Barriers-Step : {s t : Async} → Step s t → InOrder s → Barriers s → Barriers t
unfolding report_dropped queue_barrier
Barriers-Step {s} (write new_id e) o h = Barriers-write new_id e s o h
Barriers-Step {s} (flush n room) o h = record {
  marked =
      Marked-append (s.attempted ++ s.batch) s.accepted s.queue (barrier n s.accepted) h.marked
        (append_assoc s.attempted s.batch (events_of s.queue) ∙ sym o) (refl, tt);
  done = h.done;
}
Barriers-Step {s} (receive succeeds item rest q up) o h = Barriers-accept succeeds item rest s q h
Barriers-Step {s} (tick succeeds up) o h =
    let c = Barriers-commit succeeds s h in record { marked = c.marked; done = c.done }
Barriers-Step (quit up) o h = record { marked = h.marked; done = h.done }
Barriers-Step {s} (finish succeeds up q) o h =
    let c = Barriers-commit succeeds s h in record { marked = c.marked; done = c.done }

Reach-Barriers : {s : Async} → Reach s → Barriers s
Reach-Barriers start = record { marked = tt; done = λ ack i. elim i [ ] }
Reach-Barriers (next r step) = Barriers-Step step (Reach-InOrder r) (Reach-Barriers r)

-- Once the writer has acknowledged a `Flush`, the write of each event that was accepted before the
-- `Flush` has been tried, in order and before that of any later event.
pub acked-IsTried :
    {s : Async} (ack : ℕ × List Event) → Reach s → In ack s.acked → IsTried s.attempted ack
acked-IsTried ack r i = (Reach-Barriers r).done ack i

-- The commit that the writer makes when the queue is empty, as it does before it stops, leaves
-- the write of every event that was accepted so far tried, in order.
pub finish-tries_all :
    {s : Async} (succeeds : Bool)
    → Reach s
    → s.queue ≡ []
    → (report_dropped (commit succeeds s)).attempted ≡ s.accepted
unfolding report_dropped
finish-tries_all {s} succeeds r q =
    let (tried, emptied, same_queue, same_acks) = commit-tries succeeds s in
    tried ∙ sym (Reach-InOrder r ∙ rw q (ap (λ es. s.attempted ++ es) (append-nil s.batch)))
