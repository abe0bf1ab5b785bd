-- ===== src/Handler/Outcomes.antt =====
-- module.go: the ways in which `ServeHTTP` can go, each with what holds when it is taken.
use crawlwall.Base.{
  String, ◌≡◌, refl, ◌⊎◌, inl, inr, Bool, true, false, ◌&&◌, Option, none, some, ◌==◌, arith,
  Bool-cases, Option-cases,
}
use crawlwall.Base.Int.{pos}
use crawlwall.Config.{Limit, action_block, action_rate_limit, fail_mode_block}
use crawlwall.Bot.{Identified}
use crawlwall.Bot.Identify.{identify}
use crawlwall.Policy.{Decision}
use crawlwall.RateLimit.{Limiter, allow_at}
use crawlwall.Verify.{Verification, Ip}
use crawlwall.Verify.Service.{Service, verify}
use crawlwall.Ledger.Event.{HttpRequest, Event}
use crawlwall.Handler.{Outside, Handler, Reading, Next, Reply}
use crawlwall.Handler.Request.{remote_ip_from_request}
use crawlwall.Handler.Serve.{
  action_rate_limit_exceeded, status_or, retry_seconds, event_of, serve_robots, serve_next, refuse,
  enforces, serve_limited, serve_decided, decision_for, serve_verified, serve_unverified,
  wants_robots, serve_handled, serve_routed, serve_http, is_some,
}

module _ {B : Type 0} (o : Outside B) (h : Handler B) (t : Reading) (r : HttpRequest) where
  abbrev pub ip_of : Ip
  ip_of = remote_ip_from_request o r

  abbrev pub bot_of : Identified
  bot_of = identify o.to_lower h.bots r.user_agent

  abbrev pub verified_of : Service × Verification × Option String
  verified_of =
      verify o.world h.verifier t.verify_clock (record { bot = bot_of; remote_ip = ip_of })

  -- the handler after verification
  abbrev pub after_verify : Handler B
  after_verify = record h { verifier = verified_of.0 }

  abbrev pub decided : Decision
  decided = decision_for o after_verify r ip_of bot_of verified_of.1

  abbrev pub first_event : Event
  first_event = event_of o after_verify t r ip_of bot_of verified_of.1 decided

  abbrev pub over_event : Event
  over_event = record first_event {
    action = action_rate_limit_exceeded;
    action_reason = action_rate_limit_exceeded;
  }

  abbrev pub limited_by : Limit → Limiter B × Bool
  limited_by l = allow_at o.buckets h.limiter l.resolved_key l.rpm t.limiter_now

  abbrev pub after_limit : Limit → Handler B
  after_limit l = record after_verify { limiter = (limited_by l).0 }

  -- The limit that this request is held to.
  pub data HasLimit : Limit → Type 0 where
    has_limit :
        {l : Limit}
        → (decided.action.type == action_block && enforces h) ≡ false
        → (decided.action.type == action_rate_limit) ≡ true
        → decided.action.limit ≡ some l
        → HasLimit l

  pub data Outcome (next : Next) : Handler B × Reply → Type 0 where
    by_robots :
        (body : String)
        → h.robots_txt ≡ some body
        → wants_robots r ≡ true
        → Outcome next (serve_robots o h t r ip_of bot_of body)
    by_verifier_failure :
        (m : String)
        → verified_of.2 ≡ some m
        → enforces h ≡ true
        → (h.config.runtime.fail_mode == fail_mode_block) ≡ true
        → Outcome next (serve_unverified o after_verify t r ip_of bot_of verified_of.1)
    by_block :
        (decided.action.type == action_block) ≡ true
        → enforces h ≡ true
        → Outcome next (
            refuse o after_verify t first_event
              (status_or (pos 403) decided.action.status)
              decided.action.reason
              none)
    by_limit :
        (l : Limit)
        → HasLimit l
        → enforces h ≡ true
        → (limited_by l).1 ≡ false
        → Outcome next (
            refuse o
              (after_limit l)
              t
              over_event
              (pos 429)
              "rate limited by crawlwall"
              (some (o.formats.decimal (pos (retry_seconds l.rpm)))))
    by_shadow_limit :
        (l : Limit)
        → HasLimit l
        → enforces h ≡ false
        → (limited_by l).1 ≡ false
        → Outcome next (serve_next o (after_limit l) t over_event next)
    by_allowance :
        (l : Limit)
        → HasLimit l
        → (limited_by l).1 ≡ true
        → Outcome next (serve_next o (after_limit l) t first_event next)
    by_next :
        (decided.action.type == action_block && enforces h) ≡ false
        → ((decided.action.type == action_rate_limit) ≡ false) ⊎ (decided.action.limit ≡ none)
        → Outcome next (serve_next o after_verify t first_event next)

  limited-Outcome :
      (next : Next) (l : Limit)
      → HasLimit l
      → Outcome next (serve_limited o after_verify t first_event l next)
  unfolding serve_limited
  limited-Outcome next l has = elim (Bool-cases (limited_by l).1) [
    | inl e ↦ rw e (by_allowance l has e)
    | inr e ↦ elim (Bool-cases (enforces h)) [
      | inl x ↦ rw (e, x) (by_limit l has x e)
      | inr x ↦ rw (e, x) (by_shadow_limit l has x e)
    ]
  ]

  decided-Outcome :
      (next : Next) → Outcome next (serve_decided o after_verify t first_event decided.action next)
  unfolding serve_decided
  decided-Outcome next = elim (Bool-cases (decided.action.type == action_block && enforces h)) [
    | inl e ↦ rw e (by_block (ground arith) (ground arith))
    | inr e ↦ elim (Bool-cases (decided.action.type == action_rate_limit)) [
      | inr k ↦ rw (e, k) (by_next e (inl k))
      | inl k ↦ elim (Option-cases decided.action.limit) [
        | inl n ↦ rw (e, k, n) (by_next e (inr n))
        | inr (l, n) ↦ rw (e, k, n) (limited-Outcome next l (has_limit e k n))
      ]
    ]
  ]

  handled-Outcome : (next : Next) → Outcome next (serve_handled o h t r ip_of bot_of next)
  unfolding serve_handled serve_verified
  handled-Outcome next =
      elim (Bool-cases
        (is_some verified_of.2 && enforces h && h.config.runtime.fail_mode == fail_mode_block)) [
          | inl e ↦ elim (Option-cases verified_of.2) [
            | inl n ↦ absurd (ground arith)
            | inr (m, n) ↦ rw e (by_verifier_failure m n (ground arith) (ground arith))
          ]
          | inr e ↦ rw e (decided-Outcome next)
        ]

  routed-Outcome :
      (next : Next) (body : Option String)
      → h.robots_txt ≡ body
      → Outcome next (serve_routed o body h t r ip_of bot_of next)
  unfolding serve_routed
  routed-Outcome next none n = handled-Outcome next
  routed-Outcome next (some body) n = elim (Bool-cases (wants_robots r)) [
    | inl w ↦ rw w (by_robots body n w)
    | inr w ↦ rw w (handled-Outcome next)
  ]

  -- Each run of the handler is one of seven: robots.txt, a refusal because verification failed, a
  -- blocking decision or a limit, or the next handler's answer, which comes last.
  pub serve_http-Outcome : (next : Next) → Outcome next (serve_http o h t r next)
  unfolding serve_http
  serve_http-Outcome next = routed-Outcome next h.robots_txt refl
