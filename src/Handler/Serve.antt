-- ===== src/Handler/Serve.antt =====
-- module.go: `ServeHTTP` and what it calls. A write that outlives its time limit is a matter of the
-- ledger; log lines are left out.
use crawlwall.Base.{
  ℕ, ◌+◌, ◌-◌, ◌/◌, String, Bool, true, false, not, ◌&&◌, ◌||◌, Option, none, some, ok, err, ◌==◌,
  if◌then◌else◌, ltb,
}
use crawlwall.Base.Int.{ℤ, pos, eq_ℤ, is_nonpos, pos_part}
use crawlwall.Base.Text.{byte_length}
use crawlwall.Config.{
  Action, Limit, action_allow, action_block, action_rate_limit, action_allow_metered,
  site_mode_enforce, fail_mode_block,
}
use crawlwall.Bot.{Identified}
use crawlwall.Bot.Identify.{identify}
use crawlwall.Policy.{Decision}
use crawlwall.Policy.Input.{Input, vars, resolve_path}
use crawlwall.Policy.Engine.{no_audit, evaluate, default_decision, evaluation_error_decision}
use crawlwall.RateLimit.{allow_at}
use crawlwall.Verify.{Verification, Ip}
use crawlwall.Verify.Service.{verify}
use crawlwall.Receipt.{Signer, sign_payload}
use crawlwall.Ledger.Event.{HttpRequest, Event, event_from_request, receipt_payload}
use crawlwall.Ledger.Async.{write_event}
use crawlwall.Handler.{
  Outside, Ledger, unset, noop, buffered, Handler, Reading, Next, Reply, refused, robots, passed,
}
use crawlwall.Handler.Request.{remote_ip_from_request, policy_input}

abbrev pub action_rate_limit_exceeded : String
action_rate_limit_exceeded = "rate_limit_exceeded"

-- the seconds of `retryAfterSeconds`
unfoldable pub retry_seconds : ℤ → ℕ
retry_seconds rpm =
    if not (is_nonpos rpm) && ltb (pos_part rpm) 60
    then (60 + pos_part rpm - 1) / pos_part rpm
    else 1

-- `WriteEvent` of the ledger that is set up
unfoldable pub write_to : String → Event → Ledger → Ledger
unfolding write_event
write_to new_id e unset = unset
write_to new_id e noop = noop
write_to new_id e (buffered s) = buffered (write_event new_id e s)

-- `time.Since(start).Milliseconds()`
abbrev elapsed : Reading → ℤ
elapsed t = pos ((t.end_time - t.start) / 1_000_000)

-- an event with its status, its enforcement and its duration
abbrev pub closed : Event → ℤ → Bool → Reading → Event
closed e status enforced t = record e {
  status = status;
  enforced = enforced;
  duration_ms = elapsed t;
}

abbrev pub status_or : ℤ → ℤ → ℤ
status_or fallback status = if eq_ℤ status (pos 0) then fallback else status

abbrev pub is_some : {A : Type 0} → Option A → Bool
is_some none = false
is_some (some x) = true

unfoldable pub wants_robots : HttpRequest → Bool
wants_robots r = r.path == "/robots.txt" && (r.method == "GET" || r.method == "HEAD")

abbrev pub enforces : {B : Type 0} → Handler B → Bool
enforces h = h.config.site.mode == site_mode_enforce

abbrev pub robots_decision : Decision
robots_decision = record {
  rule_id = "runtime.robots_txt";
  action = record {
    type = action_allow;
    status = pos 0;
    reason = "robots_txt";
    limit = none;
    price = none;
  };
  audit = no_audit;
}

module _ {B : Type 0} (o : Outside B) where
  unfoldable pub with_receipt : Signer → String → Event → Event
  unfolding sign_payload receipt_payload
  with_receipt s new_id e =
      if s.enabled && (e.action == action_allow_metered || e.receipt_requested)
      then elim (sign_payload o.crypto s new_id (receipt_payload o.formats e)) [
        | ok envelope ↦ record e {
          receipt_id = envelope.receipt_id;
          receipt_signature = envelope.signature;
        }
        | err failure ↦ e
      ]
      else e

  unfoldable pub write_ledger_and_receipt : Reading → Event → Handler B → Handler B
  unfolding with_receipt write_to
  write_ledger_and_receipt t e h = record h {
    ledger = write_to t.event_id (with_receipt h.signer t.receipt_id e) h.ledger;
  }

  unfoldable pub event_of :
      Handler B → Reading → HttpRequest → Ip → Identified → Verification → Decision → Event
  unfolding event_from_request
  event_of h t r ip bot v d =
      event_from_request t.event_id t.start r (o.world.resolver.ip_text ip) bot v d h.config.site.id

  unfoldable pub serve_robots :
      Handler B → Reading → HttpRequest → Ip → Identified → String → Handler B × Reply
  unfolding write_ledger_and_receipt event_of byte_length
  serve_robots h t r ip bot body =
      let v : Verification = record { verified = false; type = "none"; reason = "robots_txt" } in
      let e = closed (event_of h t r ip bot v robots_decision) (pos 200) false t in
      (
        write_ledger_and_receipt t (record e { bytes_sent = pos (byte_length body) }) h,
        robots (byte_length body) (if r.method == "HEAD" then "" else body),
      )

  -- the tail: the next handler answers
  unfoldable pub serve_next : Handler B → Reading → Event → Next → Handler B × Reply
  unfolding write_ledger_and_receipt
  serve_next h t e next = (
    write_ledger_and_receipt t
        (record (closed e (status_or (pos 200) next.status) false t) { bytes_sent = next.size }) h,
    passed next,
  )

  unfoldable pub refuse :
      Handler B → Reading → Event → ℤ → String → Option String → Handler B × Reply
  unfolding write_ledger_and_receipt
  refuse h t e status message retry =
      (write_ledger_and_receipt t (closed e status true t) h, refused status message retry)

  -- the case of a limit
  unfoldable pub serve_limited : Handler B → Reading → Event → Limit → Next → Handler B × Reply
  unfolding serve_next refuse retry_seconds
  serve_limited h t e l next =
      let (limiter', allowed) = allow_at o.buckets h.limiter l.resolved_key l.rpm t.limiter_now in
      let h' : Handler B = record h { limiter = limiter' } in
      let over : Event = record e {
        action = action_rate_limit_exceeded;
        action_reason = action_rate_limit_exceeded;
      } in
      if allowed
      then serve_next h' t e next
      else if enforces h
      then refuse h' t over (pos 429) "rate limited by crawlwall"
          (some (o.formats.decimal (pos (retry_seconds l.rpm))))
      else serve_next h' t over next

  -- the switch on the decision's action
  unfoldable pub serve_decided : Handler B → Reading → Event → Action → Next → Handler B × Reply
  unfolding serve_limited
  serve_decided h t e a next =
      if a.type == action_block && enforces h
      then refuse h t e (status_or (pos 403) a.status) a.reason none
      else if a.type == action_rate_limit
      then elim a.limit [ none ↦ serve_next h t e next | some l ↦ serve_limited h t e l next ]
      else serve_next h t e next

  abbrev decide : Handler B → Input → Decision
  decide h input = elim (evaluate h.policy input) [
    | ok d ↦ d
    | err failure ↦ evaluation_error_decision h.config.runtime.fail_mode
  ]

  -- the key of a limit, resolved for this request
  unfoldable pub with_resolved_key : Input → Decision → Decision
  unfolding resolve_path
  with_resolved_key input d =
      if d.action.type == action_rate_limit
      then elim d.action.limit [
        | none ↦ d
        | some l ↦ record d {
          action = record d.action {
            limit = some (record l { resolved_key = resolve_path o.render (vars input) l.key });
          };
        }
      ]
      else d

  unfoldable pub decision_for : Handler B → HttpRequest → Ip → Identified → Verification → Decision
  unfolding with_resolved_key policy_input evaluate evaluation_error_decision
  decision_for h r ip bot v =
      let input = policy_input o h.policy r ip bot v in with_resolved_key input (decide h input)

  unfoldable pub serve_verified :
      Handler B → Reading → HttpRequest → Ip → Identified → Verification → Next → Handler B × Reply
  unfolding decision_for event_of serve_decided
  serve_verified h t r ip bot v next =
      let d = decision_for h r ip bot v in
      serve_decided h t (event_of h t r ip bot v d) d.action next

  -- fail closed, when enforcing and the fail mode says so
  unfoldable pub serve_unverified :
      Handler B → Reading → HttpRequest → Ip → Identified → Verification → Handler B × Reply
  unfolding event_of refuse default_decision
  serve_unverified h t r ip bot v =
      let e = event_of h t r ip bot v (default_decision h.policy) in
      refuse h t
        (record e {
          action = action_block;
          action_reason = "verification_failed";
          rule_id = "runtime.verifier_error";
        })
        (pos 503) "crawlwall verifier unavailable" none

  unfoldable pub serve_handled :
      Handler B → Reading → HttpRequest → Ip → Identified → Next → Handler B × Reply
  unfolding serve_verified serve_unverified verify
  serve_handled h t r ip bot next =
      let (service', v, failure) =
        verify o.world h.verifier t.verify_clock (record { bot = bot; remote_ip = ip }) in
      let h' : Handler B = record h { verifier = service' } in
      if is_some failure && enforces h && h.config.runtime.fail_mode == fail_mode_block
      then serve_unverified h' t r ip bot v
      else serve_verified h' t r ip bot v next

  -- robots.txt first, if it is served here
  unfoldable pub serve_routed :
      Option String → Handler B → Reading → HttpRequest → Ip → Identified → Next → Handler B × Reply
  unfolding serve_robots serve_handled wants_robots
  serve_routed none h t r ip bot next = serve_handled h t r ip bot next
  serve_routed (some body) h t r ip bot next =
      if wants_robots r then serve_robots h t r ip bot body else serve_handled h t r ip bot next

  -- `ServeHTTP`
  unfoldable pub serve_http : Handler B → Reading → HttpRequest → Next → Handler B × Reply
  unfolding serve_routed remote_ip_from_request identify
  serve_http h t r next =
      serve_routed h.robots_txt h t r (remote_ip_from_request o r)
        (identify o.to_lower h.bots r.user_agent) next
