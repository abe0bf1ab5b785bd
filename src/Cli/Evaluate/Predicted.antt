-- ===== src/Cli/Evaluate/Predicted.antt =====
-- cmd/crawlwall/main.go, `predictedStatus`, against the handler of module.go.
use crawlwall.Base.{
  String, ◌≡◌, refl, sym, ap, ◌∙◌, ◌⊎◌, inl, inr, true, false, ◌&&◌, Option, none, some, ◌==◌,
  eq_iff, arith, Bool-cases,
}
use crawlwall.Base.Int.{pos}
use crawlwall.Config.{Action, Limit, action_block, action_rate_limit}
use crawlwall.RateLimit.{allow_at}
use crawlwall.Ledger.Event.{Event}
use crawlwall.Handler.{Outside, Handler, Reading, Next, Reply, refused, passed}
use crawlwall.Handler.Serve.{enforces, status_or, serve_next, refuse, serve_limited, serve_decided}
use crawlwall.Cli.Evaluate.{predicted_status}

limited-status : (a : Action) → (a.type == action_rate_limit) ≡ true → predicted_status a ≡ pos 429
unfolding predicted_status
limited-status a e =
    let same : a.type ≡ action_rate_limit = ground (arith, eq_iff a.type action_rate_limit) in
    rw same refl

blocked-status :
    (a : Action)
    → (a.type == action_block) ≡ true
    → predicted_status a ≡ status_or (pos 403) a.status
unfolding predicted_status
blocked-status a e = rw e refl

module _ {B : Type 0} (o : Outside B) where
  -- Refused with the predicted status, or let through by a handler that need not block.
  abbrev pub AsPredicted : Handler B → Action → Next → Reply → Type 0
  AsPredicted h a next reply =
      ((message : String) × (retry : Option String) × (reply
          ≡ refused (predicted_status a) message retry))
      ⊎ ((reply ≡ passed next) × ((a.type == action_block && enforces h) ≡ false))

  -- Over a limit or not, the reply is a refusal with 429 or the next handler's.
  abbrev LimitedReply : Next → Reply → Type 0
  LimitedReply next reply =
      ((message : String) × (retry : Option String) × (reply ≡ refused (pos 429) message retry))
      ⊎ (reply ≡ passed next)

  serve_limited-LimitedReply :
      (h : Handler B) (t : Reading) (e : Event) (l : Limit) (next : Next)
      → LimitedReply next ((serve_limited o h t e l next).1)
  unfolding serve_limited serve_next refuse
  serve_limited-LimitedReply h t e l next =
      elim (Bool-cases ((allow_at o.buckets h.limiter l.resolved_key l.rpm t.limiter_now).1)) [
        | inl e ↦ rw e (inr refl)
        | inr e ↦ rw e (elim (Bool-cases (enforces h)) [
          | inl f ↦ rw f (inl (_, _, refl))
          | inr f ↦ rw f (inr refl)
        ])
      ]

  abbrev limit_reply : Handler B → Reading → Event → Next → Option Limit → Handler B × Reply
  limit_reply h t e next limit = elim limit [
    | none ↦ serve_next o h t e next
    | some l ↦ serve_limited o h t e l next
  ]

  by_limit :
      (h : Handler B) (t : Reading) (e : Event) (next : Next) (limit : Option Limit)
      → LimitedReply next ((limit_reply h t e next limit).1)
  unfolding serve_next
  by_limit h t e next none = inr refl
  by_limit h t e next (some l) = serve_limited-LimitedReply h t e l next

  -- An action that reaches the handler's switch is answered in one of two ways: with an error of
  -- the status that `policy eval` predicts for it, or by the next handler. The second never happens
  -- to a block in a handler that enforces.
  pub serve_decided-AsPredicted :
      (h : Handler B) (t : Reading) (e : Event) (a : Action) (next : Next)
      → AsPredicted h a next ((serve_decided o h t e a next).1)
  unfolding serve_decided serve_next refuse
  serve_decided-AsPredicted h t e a next =
      elim (Bool-cases (a.type == action_block && enforces h)) [
        | inl block ↦
            let same : predicted_status a ≡ status_or (pos 403) a.status =
              blocked-status a (ground arith) in
            rw block (inl (a.reason, none, ap (λ s. refused s a.reason none) (sym same)))
        | inr n ↦ elim (Bool-cases (a.type == action_rate_limit)) [
          | inr m ↦ rw (n, m) (inr (refl, refl))
          | inl limited ↦
              rw (n, limited)
                (elim (by_limit h t e next a.limit) [
                  | inr e ↦ inr (e, refl)
                  | inl (message, retry, e) ↦ inl (
                    message,
                    retry,
                    e ∙ ap (λ s. refused s message retry) (sym (limited-status a limited)),
                  )
                ])
        ]
      ]
