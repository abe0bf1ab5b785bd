-- ===== src/Ledger/Async/Shutdown.antt =====
-- internal/ledger/async.go, `run` and `Close`: the writer can always come to its end.
use crawlwall.Base.{
  ℕ, Bool, ◌≡◌, ◌≢◌, refl, sym, ap, ◌∙◌, ◌⊎◌, inl, inr, List, [], ◌∷◌, ◌++◌, length, leb, All,
  All-of_In, In, here, there,
}
use mathlib.Core.List.{append-nil}
use crawlwall.Ledger.Event.{Event}
use crawlwall.Ledger.Async.{
  Queued, event, barrier, Mode, running, draining, stopped, Async, async_batch_size, commit, accept,
  report_dropped, Step, receive, quit, finish, Reach, next,
}
use crawlwall.Ledger.Async.Invariant.{List-cases, both_sides, Reach-InOrder}
use crawlwall.Ledger.Async.Barrier.{commit-tries}

-- Any number of steps.
pub data Steps : Async → Async → Type 0 where
  stay : {s : Async} → Steps s s
  step : {s t u : Async} → Step s t → Steps t u → Steps s u

Steps-snoc : {s t u : Async} → Steps s t → Step t u → Steps s u
Steps-snoc stay last = step last stay
Steps-snoc (step first rest) last = step first (Steps-snoc rest last)

pub Steps-Reach : {s t : Async} → Reach s → Steps s t → Reach t
Steps-Reach r stay = r
Steps-Reach r (step first rest) = Steps-Reach (next r first) rest

-- The callers of `Flush` that wait in a queue.
abbrev pub waiting : List Queued → List (ℕ × List Event)
waiting [] = []
waiting (event e ∷ q) = waiting q
waiting (barrier n before ∷ q) = (n, before) ∷ waiting q

-- What a step of the writer leaves as it is: the mode, what was accepted, and answers once given.
pub record Keeps (s t : Async) : Type 0 where
  pub mode : t.mode ≡ s.mode
  pub accepted : t.accepted ≡ s.accepted
  pub acked : (ack : ℕ × List Event) → In ack s.acked → In ack t.acked

Keeps-refl : (s : Async) → Keeps s s
Keeps-refl s = record { mode = refl; accepted = refl; acked = λ ack i. i }

Keeps-trans : {s t u : Async} → Keeps s t → Keeps t u → Keeps s u
Keeps-trans h k = record {
  mode = k.mode ∙ h.mode;
  accepted = k.accepted ∙ h.accepted;
  acked = λ ack i. k.acked ack (h.acked ack i);
}

pub Keeps-commit : (succeeds : Bool) (s : Async) → Keeps s (commit succeeds s)
unfolding commit
Keeps-commit succeeds s = elim (List-cases s.batch) [
  | inl none_left ↦
      rw (none_left, commit) (record { mode = refl; accepted = refl; acked = λ ack i. i })
  | inr (e, rest, some_left) ↦
      rw (some_left, commit) (record { mode = refl; accepted = refl; acked = λ ack i. i })
]

queue-commit : (succeeds : Bool) (s : Async) → (commit succeeds s).queue ≡ s.queue
queue-commit succeeds s = (commit-tries succeeds s).2

queue-accept :
    (succeeds : Bool) (item : Queued) (s : Async) → (accept succeeds item s).queue ≡ s.queue
unfolding accept
queue-accept succeeds (barrier n before) s = queue-commit succeeds s
queue-accept succeeds (event e) s =
    both_sides (λ (t : Async). t.queue ≡ s.queue)
      (leb async_batch_size (length (s.batch ++ e ∷ [])))
      {x = commit succeeds (record s { batch = s.batch ++ e ∷ [] })}
      {y = record s { batch = s.batch ++ e ∷ [] }}
      (queue-commit succeeds (record s { batch = s.batch ++ e ∷ [] })) refl

pub Keeps-accept : (succeeds : Bool) (item : Queued) (s : Async) → Keeps s (accept succeeds item s)
unfolding accept
Keeps-accept succeeds (barrier n before) s =
    let c = Keeps-commit succeeds s in
    record { mode = c.mode; accepted = c.accepted; acked = λ ack i. there (c.acked ack i) }
Keeps-accept succeeds (event e) s =
    let grown : Async = record s { batch = s.batch ++ e ∷ [] } in
    let same : Keeps s grown = record { mode = refl; accepted = refl; acked = λ ack i. i } in
    both_sides (Keeps s) (leb async_batch_size (length grown.batch))
      (Keeps-trans same (Keeps-commit succeeds grown)) same

answers-barrier :
    (succeeds : Bool) (n : ℕ) (before : List Event) (s : Async)
    → In (n, before) (accept succeeds (barrier n before) s).acked
unfolding accept
answers-barrier succeeds n before s = here

-- Where receiving a whole queue leads: `t`, with an empty queue.
record Drained (q : List Queued) (s t : Async) : Type 0 where
  steps : Steps s t
  emptied : t.queue ≡ []
  keeps : Keeps s t
  answered : (ack : ℕ × List Event) → In ack (waiting q) → In ack t.acked

answered-more :
    (succeeds : Bool) (item : Queued) (rest : List Queued) (s t : Async)
    → Keeps (accept succeeds item s) t
    → ((ack : ℕ × List Event) → In ack (waiting rest) → In ack t.acked)
    → (ack : ℕ × List Event) → In ack (waiting (item ∷ rest))
    → In ack t.acked
answered-more succeeds (event e) rest s t keeps later ack i = later ack i
answered-more succeeds (barrier n before) rest s t keeps later _ here =
    keeps.acked (n, before) (answers-barrier succeeds n before s)
answered-more succeeds (barrier n before) rest s t keeps later ack (there i) = later ack i

drains :
    (succeeds : Bool) (q : List Queued) (s : Async)
    → s.queue ≡ q
    → s.mode ≢ stopped
    → (t : Async) × Drained q s t
drains succeeds [] s e up =
    (s, record { steps = stay; emptied = e; keeps = Keeps-refl s; answered = λ ack i. elim i [ ] })
drains succeeds (item ∷ rest) s e up =
    let shorter : Async = record s { queue = rest } in
    let one : Keeps shorter (accept succeeds item shorter) = Keeps-accept succeeds item shorter in
    let (t, d) =
      drains succeeds rest (accept succeeds item shorter) (queue-accept succeeds item shorter)
        (λ f. up (sym (one.mode) ∙ f)) in
    (
      t,
      record {
        steps = step (receive succeeds item rest e up) d.steps;
        emptied = d.emptied;
        keeps = record {
          mode = d.keeps.mode ∙ one.mode;
          accepted = d.keeps.accepted ∙ one.accepted;
          acked = λ ack i. d.keeps.acked ack (one.acked ack i);
        };
        answered = answered-more succeeds item rest shorter t d.keeps d.answered;
      },
    )

-- The writer has stopped, with the write of everything tried that was accepted, and each waiting
-- `Flush` answered.
pub record IsShutDown (s t : Async) : Type 0 where
  pub mode : t.mode ≡ stopped
  pub accepted : t.accepted ≡ s.accepted
  pub attempted : t.attempted ≡ s.accepted
  pub answered : All (λ ack. In ack t.acked) (waiting s.queue)

finishes :
    (succeeds : Bool) (s : Async)
    → Reach s
    → s.mode ≡ draining
    → (t : Async) × Steps s t × IsShutDown s t
unfolding report_dropped
finishes succeeds s r down =
    let (m, d) = drains succeeds s.queue s refl (λ f. draining≢stopped (sym down ∙ f)) in
    let end : Async = record (report_dropped (commit succeeds m)) { mode = stopped } in
    let last : Step m end = finish succeeds (d.keeps.mode ∙ down) d.emptied in
    let all : Steps s end = Steps-snoc d.steps last in
    let (tried, emptied, same_queue, same_acks) = commit-tries succeeds m in
    let same : (commit succeeds m).accepted ≡ s.accepted =
      (Keeps-commit succeeds m).accepted ∙ d.keeps.accepted in
    (
      end,
      all,
      record {
        mode = refl;
        accepted = same;
        attempted =
            tried
            ∙ sym (
                Reach-InOrder (Steps-Reach r d.steps)
                ∙ rw (d.emptied) (ap (λ es. m.attempted ++ es) (append-nil m.batch)))
            ∙ d.keeps.accepted;
        answered =
            All-of_In _ (waiting s.queue)
              (λ ack i. (Keeps-commit succeeds m).acked ack (d.answered ack i));
      },
    )
  where
    draining≢stopped : draining ≢ stopped
    draining≢stopped e = cc

-- From every reachable state in which the writer has not stopped, some steps lead to a state in which
-- it has, whether all the batch writes on the way succeed or all fail: nothing more was accepted,
-- the write of each accepted event has been tried, in order, and every `Flush` that was waiting in
-- the queue is acknowledged.
pub shutdown-reachable :
    {s : Async} (succeeds : Bool)
    → Reach s
    → s.mode ≢ stopped
    → (t : Async) × Steps s t × IsShutDown s t
shutdown-reachable {s} succeeds r up = elim (mode-cases s.mode) [
  | inr (inr e) ↦ absurd (up e)
  | inr (inl e) ↦ finishes succeeds s r e
  | inl e ↦
      let (t, steps, done) =
        finishes succeeds (record s { mode = draining }) (next r (quit e)) refl in
      (
        t,
        step (quit e) steps,
        record {
          mode = done.mode;
          accepted = done.accepted;
          attempted = done.attempted;
          answered = done.answered;
        },
      )
]
  where
    mode-cases : (m : Mode) → (m ≡ running) ⊎ (m ≡ draining) ⊎ (m ≡ stopped)
    mode-cases running = inl refl
    mode-cases draining = inr (inl refl)
    mode-cases stopped = inr (inr refl)
