-- ===== src/Ledger/Async/Invariant.antt =====
-- internal/ledger/async.go: the order of the events that were accepted.
use crawlwall.Base.{
  ℕ, String, Bool, true, false, ◌≡◌, refl, sym, ap, ◌∙◌, ◌⊎◌, inl, inr, List, [], ◌∷◌, ◌++◌,
  if◌then◌else◌,
}
use mathlib.Core.List.{append_assoc, append-nil}
use crawlwall.Ledger.Event.{Event}
use crawlwall.Ledger.Async.{
  Queued, event, barrier, Async, with_id, write_event, queue_barrier, commit, accept,
  report_dropped, Step, write, flush, receive, tick, quit, finish, Reach, start, next,
}

-- The events of a queue, in order.
abbrev pub events_of : List Queued → List Event
events_of [] = []
events_of (event e ∷ q) = e ∷ events_of q
events_of (barrier n before ∷ q) = events_of q

pub events_of-append : (q r : List Queued) → events_of (q ++ r) ≡ events_of q ++ events_of r
events_of-append [] r = refl
events_of-append (event e ∷ q) r = ap (λ es. e ∷ es) (events_of-append q r)
events_of-append (barrier n before ∷ q) r = events_of-append q r

-- Nothing that was accepted is lost or reordered: it was written, or waits in the batch, or in the
-- queue behind it.
abbrev pub InOrder : Async → Type 0
InOrder s = s.accepted ≡ s.attempted ++ (s.batch ++ events_of s.queue)

pub List-cases {ℓ} :
    {A : Type ℓ} (xs : List A) → (xs ≡ []) ⊎ ((x : A) × (rest : List A) × (xs ≡ x ∷ rest))
List-cases [] = inl refl
List-cases (x ∷ rest) = inr (x, rest, refl)

InOrder-commit : (succeeds : Bool) (s : Async) → InOrder s → InOrder (commit succeeds s)
unfolding commit
InOrder-commit succeeds s h = elim (List-cases s.batch) [
  | inl none_left ↦ rw (none_left, commit) (h ∙ rw none_left refl)
  | inr (e, rest, some_left) ↦
      rw (some_left, commit)
        (h ∙ rw some_left (sym (append_assoc s.attempted (e ∷ rest) (events_of s.queue))))
]

-- What holds on both sides of a test holds of the whole.
pub both_sides {ℓ κ} :
    {A : Type ℓ} (P : A → Type κ) (b : Bool) {x y : A} → P x → P y → P (if b then x else y)
both_sides P true p q = p
both_sides P false p q = q

-- An event that goes from the queue to the batch keeps its place.
InOrder-moved :
    (e : Event) (rest : List Queued) (s : Async)
    → s.queue ≡ event e ∷ rest
    → InOrder s
    → InOrder (record s { queue = rest; batch = s.batch ++ e ∷ [] })
InOrder-moved e rest s q h =
    h ∙ rw q (ap (λ es. s.attempted ++ es) (sym (append_assoc s.batch (e ∷ []) (events_of rest))))

InOrder-accept :
    (succeeds : Bool) (item : Queued) (rest : List Queued) (s : Async)
    → s.queue ≡ item ∷ rest
    → InOrder s
    → InOrder (accept succeeds item (record s { queue = rest }))
unfolding accept
InOrder-accept succeeds (barrier n before) rest s q h =
    InOrder-commit succeeds (record s { queue = rest }) (h ∙ rw q refl)
InOrder-accept succeeds (event e) rest s q h =
    both_sides InOrder _ (InOrder-commit succeeds _ (InOrder-moved e rest s q h))
      (InOrder-moved e rest s q h)

-- A queue that grows at its end.
InOrder-queued :
    (s : Async) (item : Queued) (added : List Event)
    → events_of (item ∷ []) ≡ added
    → InOrder s
    → s.accepted ++ added ≡ s.attempted ++ (s.batch ++ events_of (s.queue ++ item ∷ []))
InOrder-queued s item added a h =
    rw (h, events_of-append s.queue (item ∷ []), a)
      (append_assoc s.attempted (s.batch ++ events_of s.queue) added
        ∙ ap (λ es. s.attempted ++ es) (append_assoc s.batch (events_of s.queue) added))

InOrder-write :
    (new_id : String) (e : Event) (s : Async) → InOrder s → InOrder (write_event new_id e s)
unfolding write_event
InOrder-write new_id e s h =
    both_sides InOrder _ (InOrder-queued s (event (with_id new_id e)) _ refl h) h

InOrder-flush : (n : ℕ) (s : Async) → InOrder s → InOrder (queue_barrier n s)
unfolding queue_barrier
InOrder-flush n s h =
    sym (append-nil s.accepted) ∙ InOrder-queued s (barrier n s.accepted) [] refl h

InOrder-Step : {s t : Async} → Step s t → InOrder s → InOrder t
unfolding report_dropped
InOrder-Step {s} (write new_id e) h = InOrder-write new_id e s h
InOrder-Step {s} (flush n room) h = InOrder-flush n s h
InOrder-Step {s} (receive succeeds item rest q up) h = InOrder-accept succeeds item rest s q h
InOrder-Step {s} (tick succeeds up) h = InOrder-commit succeeds s h
InOrder-Step (quit up) h = h
InOrder-Step {s} (finish succeeds up q) h = InOrder-commit succeeds s h

-- In every reachable state the events that were accepted are, in this order, those whose write was
-- tried, those in the batch and those in the queue: none is lost, doubled or reordered.
pub Reach-InOrder : {s : Async} → Reach s → InOrder s
Reach-InOrder start = refl
Reach-InOrder (next r step) = InOrder-Step step (Reach-InOrder r)
