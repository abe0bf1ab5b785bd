-- ===== src/Handler/Shadow.antt =====
-- module.go: the events of a mode that does not enforce, next to those of one that does.
use crawlwall.Base.{
  ℕ, String, ◌≡◌, refl, sym, ap, ◌∙◌, ◌⊎◌, inl, true, false, Option, none, some, ◌==◌,
  if◌then◌else◌, arith, eq_iff,
}
use mathlib.Core.Path.{subst}
use crawlwall.Base.Int.{ℤ, pos}
use crawlwall.Config.{Limit, action_block, action_rate_limit}
use crawlwall.Policy.{Decision}
use crawlwall.RateLimit.{Limiter, allow_at}
use crawlwall.Ledger.Event.{HttpRequest, Event, event_from_request}
use crawlwall.Handler.{Outside, Handler, Reading, Next, Reply, refused, passed}
use crawlwall.Handler.Serve.{
  action_rate_limit_exceeded, closed, status_or, write_to, with_receipt, write_ledger_and_receipt,
  event_of, serve_next, refuse, wants_robots, serve_http, decision_for,
}
use crawlwall.Handler.Receipts.{with_receipt-rest}
use crawlwall.Handler.Outcomes.{
  verified_of, decided, after_verify, first_event, over_event, after_limit, has_limit, Outcome,
  by_robots, by_verifier_failure, by_block, by_limit, by_shadow_limit, by_allowance, by_next,
  serve_http-Outcome,
}

-- The handler in another mode.
abbrev pub with_mode : {B : Type 0} → String → Handler B → Handler B
with_mode m h = record h { config = record h.config { site = record h.config.site { mode = m } } }

module _ {B : Type 0} (o : Outside B) (l₀ : Limiter B) (now : ℕ) (d : Decision) where
  -- The limiter and the action that a decision leads to.
  data Taken : Limiter B → String → Type 0 where
    unlimited :
        (a : String)
        → ((d.action.type == action_rate_limit) ≡ false) ⊎ (d.action.limit ≡ none)
        → a ≡ d.action.type
        → Taken l₀ a
    limited :
        (l : Limit) (a : String)
        → (d.action.type == action_rate_limit) ≡ true
        → d.action.limit ≡ some l
        → a ≡ (
            if (allow_at o.buckets l₀ l.resolved_key l.rpm now).1
            then d.action.type
            else action_rate_limit_exceeded)
        → Taken (allow_at o.buckets l₀ l.resolved_key l.rpm now).0 a

  Taken-alone : {k k' : Limiter B} {a a' : String} → Taken k a → Taken k' a' → (k ≡ k') × (a ≡ a')
  Taken-alone (unlimited a n e) (unlimited a' n' e') = (refl, e ∙ sym e')
  Taken-alone (unlimited a n s) (limited l a' y e s') = absurd (ground arith)
  Taken-alone (limited l a y e s) (unlimited a' n s') = absurd (ground arith)
  Taken-alone (limited l a y e s) (limited l' a' y' e' s') =
      let same : l ≡ l' = ground arith in
      (
        ap (λ k. (allow_at o.buckets l₀ k.resolved_key k.rpm now).0) same,
        s
            ∙ ap
                (λ (k : Limit).
                  if (allow_at o.buckets l₀ k.resolved_key k.rpm now).1
                  then d.action.type
                  else action_rate_limit_exceeded)
                same
            ∙ sym s',
      )

module _ {B : Type 0} (o : Outside B) (h : Handler B) (t : Reading) (r : HttpRequest) where
  -- What a run leaves: its event, its limiter and its verifiers.
  record Leaves (res : Handler B × Reply) : Type 0 where
    event : Event
    written : res.0.ledger ≡ write_to t.event_id event h.ledger
    taken : Taken o h.limiter t.limiter_now (decided o h t r) res.0.limiter event.action
    rule : event.rule_id ≡ (decided o h t r).rule_id
    verifier : res.0.verifier ≡ (verified_of o h t r).0

  Leaves-write :
      (k : Handler B) (e : Event) (reply : Reply)
      → k.ledger ≡ h.ledger
      → k.verifier ≡ (verified_of o h t r).0
      → Taken o h.limiter t.limiter_now (decided o h t r) k.limiter e.action
      → e.rule_id ≡ (decided o h t r).rule_id
      → Leaves (write_ledger_and_receipt o t e k, reply)
  unfolding write_ledger_and_receipt
  Leaves-write k e reply same known taken rule =
      let rest = with_receipt-rest o k.signer t.receipt_id e in
      record {
        event = with_receipt o k.signer t.receipt_id e;
        written = ap (write_to t.event_id (with_receipt o k.signer t.receipt_id e)) same;
        taken =
            subst (Taken o h.limiter t.limiter_now (decided o h t r) k.limiter)
              (sym (ap (λ f. f.action) rest)) taken;
        rule = ap (λ f. f.rule_id) rest ∙ rule;
        verifier = known;
      }

  first_event-action :
      ((first_event o h t r).action ≡ (decided o h t r).action.type)
      × ((first_event o h t r).rule_id ≡ (decided o h t r).rule_id)
  unfolding event_of event_from_request
  first_event-action = (refl, refl)

  not_limited : (a : String) → (a == action_block) ≡ true → (a == action_rate_limit) ≡ false
  not_limited a e =
      let is_block : a ≡ action_block = ground (arith, eq_iff a action_block) in rw is_block refl

  Leaves-next :
      (k : Handler B) (e : Event) (next : Next)
      → k.ledger ≡ h.ledger
      → k.verifier ≡ (verified_of o h t r).0
      → Taken o h.limiter t.limiter_now (decided o h t r) k.limiter e.action
      → e.rule_id ≡ (decided o h t r).rule_id
      → Leaves (serve_next o k t e next)
  unfolding serve_next
  Leaves-next k e next =
      Leaves-write k
        (record (closed e (status_or (pos 200) next.status) false t) { bytes_sent = next.size })
        (passed next)

  Leaves-refuse :
      (k : Handler B) (e : Event) (status : ℤ) (message : String) (retry : Option String)
      → k.ledger ≡ h.ledger
      → k.verifier ≡ (verified_of o h t r).0
      → Taken o h.limiter t.limiter_now (decided o h t r) k.limiter e.action
      → e.rule_id ≡ (decided o h t r).rule_id
      → Leaves (refuse o k t e status message retry)
  unfolding refuse
  Leaves-refuse k e status message retry =
      Leaves-write k (closed e status true t) (refused status message retry)

  Outcome-Leaves :
      {next : Next} {res : Handler B × Reply}
      → wants_robots r ≡ false
      → (verified_of o h t r).2 ≡ none
      → Outcome o h t r next res
      → Leaves res
  Outcome-Leaves other fine (by_robots body n w) = absurd (ground arith)
  Outcome-Leaves other fine (by_verifier_failure m f x b) = absurd (ground arith)
  Outcome-Leaves other fine (by_block b x) =
      Leaves-refuse (after_verify o h t r) _ _ _ _ refl refl
        (unlimited (first_event o h t r).action (inl (not_limited (decided o h t r).action.type b))
          first_event-action.0)
        first_event-action.1
  Outcome-Leaves other fine (by_limit l (has_limit b y e) x n) =
      Leaves-refuse (after_limit o h t r l) (over_event o h t r) _ _ _ refl refl
        (limited l action_rate_limit_exceeded y e (rw n refl)) first_event-action.1
  Outcome-Leaves {next} other fine (by_shadow_limit l (has_limit b y e) x n) =
      Leaves-next (after_limit o h t r l) (over_event o h t r) next refl refl
        (limited l action_rate_limit_exceeded y e (rw n refl)) first_event-action.1
  Outcome-Leaves {next} other fine (by_allowance l (has_limit b y e) n) =
      Leaves-next (after_limit o h t r l) (first_event o h t r) next refl refl
        (limited l (first_event o h t r).action y e (rw n first_event-action.0))
        first_event-action.1
  Outcome-Leaves {next} other fine (by_next b n) =
      Leaves-next (after_verify o h t r) (first_event o h t r) next refl refl
        (unlimited (first_event o h t r).action n first_event-action.0) first_event-action.1

  decided-mode : (m : String) → decided o (with_mode m h) t r ≡ decided o h t r
  unfolding decision_for
  decided-mode m = refl

  -- Two runs that leave the same traces.
  pub record SameTraces (res res' : Handler B × Reply) : Type 0 where
    pub event : Event
    pub event' : Event
    pub written : res.0.ledger ≡ write_to t.event_id event h.ledger
    pub written' : res'.0.ledger ≡ write_to t.event_id event' h.ledger
    pub action : event.action ≡ event'.action
    pub rule : event.rule_id ≡ event'.rule_id
    pub limiter : res.0.limiter ≡ res'.0.limiter
    pub verifier : res.0.verifier ≡ res'.0.verifier

module _ {B : Type 0} (o : Outside B) (h : Handler B) (t : Reading) (r : HttpRequest) where
  -- A handler that differs in its mode only, with the same compiled policy, records the same
  -- action under the same rule, and leaves the same limiter and the same verifiers: what shadow
  -- mode records is what enforcing would do. This is for a request that does not ask for
  -- robots.txt and whose verification makes no error.
  pub serve_http-mode :
      (m : String) (next : Next)
      → wants_robots r ≡ false
      → (verified_of o h t r).2 ≡ none
      → SameTraces o h t r (serve_http o h t r next) (serve_http o (with_mode m h) t r next)
  serve_http-mode m next other fine =
      let a = Outcome-Leaves o h t r other fine (serve_http-Outcome o h t r next) in
      let b =
        Outcome-Leaves o (with_mode m h) t r other fine
          (serve_http-Outcome o (with_mode m h) t r next) in
      let taken =
        subst
          (λ d.
            Taken o h.limiter t.limiter_now d (serve_http o (with_mode m h) t r next).0.limiter
              b.event.action)
          (decided-mode o h t r m) b.taken in
      let (limiter, action) =
        Taken-alone o h.limiter t.limiter_now (decided o h t r) a.taken taken in
      record {
        event = a.event;
        event' = b.event;
        written = a.written;
        written' = b.written;
        action = action;
        rule = a.rule ∙ sym (ap (λ d. d.rule_id) (decided-mode o h t r m)) ∙ sym b.rule;
        limiter = limiter;
        verifier = a.verifier ∙ sym b.verifier;
      }
