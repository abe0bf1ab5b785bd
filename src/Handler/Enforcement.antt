-- ===== src/Handler/Enforcement.antt =====
-- module.go: refused requests, and how long a limited client waits.
use crawlwall.Base.{
  ℕ, ◌+◌, ◌-◌, ◌*◌, ◌≤◌, ◌<◌, String, ◌≡◌, refl, ◌⊎◌, inl, inr, true, false, Option, some, ◌==◌,
  arith, ltb, Bool-cases,
}
use native.Mathlib.Nat.{lt-div-mul-add, div-mul-le_self}
use mathlib.Core.Path.{subst}
use crawlwall.Base.Int.{ℤ, pos, negsuc, is_nonpos, pos_part}
use crawlwall.Config.{Limit, action_block, fail_mode_block}
use crawlwall.Ledger.Event.{HttpRequest}
use crawlwall.Handler.{Outside, Handler, Reading, Next, Reply, refused, robots, passed}
use crawlwall.Handler.Serve.{
  status_or, retry_seconds, serve_robots, serve_next, refuse, serve_unverified, enforces,
  wants_robots, serve_http,
}
use crawlwall.Handler.Outcomes.{
  verified_of, decided, limited_by, HasLimit, Outcome, by_robots, by_verifier_failure, by_block,
  by_limit, by_shadow_limit, by_allowance, by_next, serve_http-Outcome,
}

-- For a positive limit per minute, the wait in seconds is at least the time to the next token,
-- and is one second or less than a second above it.
pub retry_seconds-bounds :
    (rpm : ℤ)
    → is_nonpos rpm ≡ false
    → (60 ≤ retry_seconds rpm * pos_part rpm)
      × ((retry_seconds rpm ≡ 1) ⊎ (retry_seconds rpm * pos_part rpm < 60 + pos_part rpm))
unfolding retry_seconds
retry_seconds-bounds (negsuc n) h = cc
retry_seconds-bounds (pos n) h =
    let positive : 0 < n = ground arith in
    elim (Bool-cases (ltb n 60)) [
      | inl below ↦
          rw (h, below)
            (
              omega (arith, lt-div-mul-add positive),
              inr (omega (arith, div-mul-le_self (60 + n - 1) n)),
            )
      | inr above ↦ rw (h, above) (ground arith, inl refl)
    ]

module _ {B : Type 0} (o : Outside B) (h : Handler B) (t : Reading) (r : HttpRequest) where
  -- Why a request is refused, and with which status.
  pub data Cause : ℤ → Type 0 where
    unverifiable :
        (m : String)
        → (verified_of o h t r).2 ≡ some m
        → (h.config.runtime.fail_mode == fail_mode_block) ≡ true
        → Cause (pos 503)
    blocked :
        ((decided o h t r).action.type == action_block) ≡ true
        → Cause (status_or (pos 403) (decided o h t r).action.status)
    over_limit :
        (l : Limit) → HasLimit o h t r l → (limited_by o h t r l).1 ≡ false → Cause (pos 429)

  -- The client gets robots.txt, the next handler's answer, or a refusal that has a cause.
  data Answered (next : Next) : Reply → Type 0 where
    by_file :
        (body : String) (n : ℕ) (sent : String)
        → h.robots_txt ≡ some body
        → wants_robots r ≡ true
        → Answered next (robots n sent)
    by_handler : Answered next (passed next)
    by_refusal :
        (status : ℤ) (message : String) (retry : Option String)
        → enforces h ≡ true
        → Cause status
        → Answered next (refused status message retry)

  Outcome-Answered :
      {next : Next} {res : Handler B × Reply} → Outcome o h t r next res → Answered next res.1
  unfolding serve_robots serve_next refuse serve_unverified
  Outcome-Answered (by_robots body n w) = by_file body _ _ n w
  Outcome-Answered (by_verifier_failure m f x b) = by_refusal _ _ _ x (unverifiable m f b)
  Outcome-Answered (by_block b x) = by_refusal _ _ _ x (blocked b)
  Outcome-Answered (by_limit l has x n) = by_refusal _ _ _ x (over_limit l has n)
  Outcome-Answered (by_shadow_limit l has x n) = by_handler
  Outcome-Answered (by_allowance l has y) = by_handler
  Outcome-Answered (by_next b l) = by_handler

  refused-Cause :
      {next : Next} {reply : Reply} (status : ℤ) (message : String) (retry : Option String)
      → Answered next reply
      → reply ≡ refused status message retry
      → (enforces h ≡ true) × Cause status
  refused-Cause status message retry (by_file body n sent k w) e = absurd (cc)
  refused-Cause status message retry by_handler e = absurd (cc)
  refused-Cause status message retry (by_refusal status' message' retry' x c) e =
      let same : status' ≡ status = ground arith in (x, subst Cause same c)

  -- A request is refused only in the mode `enforce`, and for one of three causes: verification
  -- failed and the fail mode is `block` (503), the decision blocks (its status, or 403), or the
  -- decision's limit is exhausted (429).
  pub serve_http-Cause :
      (next : Next) (status : ℤ) (message : String) (retry : Option String)
      → (serve_http o h t r next).1 ≡ refused status message retry
      → (enforces h ≡ true) × Cause status
  serve_http-Cause next status message retry e =
      refused-Cause status message retry (Outcome-Answered (serve_http-Outcome o h t r next)) e

  Answered-passes :
      {next : Next} {reply : Reply}
      → enforces h ≡ false
      → wants_robots r ≡ false
      → Answered next reply
      → reply ≡ passed next
  Answered-passes off other (by_file body n sent k w) = absurd (ground arith)
  Answered-passes off other by_handler = refl
  Answered-passes off other (by_refusal status message retry x c) = absurd (ground arith)

  -- Outside of the mode `enforce`, whatever the policy says and whatever fails, a request that does
  -- not ask for robots.txt gets the next handler's answer.
  pub serve_http-passes :
      (next : Next)
      → enforces h ≡ false
      → wants_robots r ≡ false
      → (serve_http o h t r next).1 ≡ passed next
  serve_http-passes next off other =
      Answered-passes off other (Outcome-Answered (serve_http-Outcome o h t r next))
