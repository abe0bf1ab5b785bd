-- ===== src/Handler/Recorded.antt =====
-- module.go: the event that a request leaves in the ledger.
use crawlwall.Base.{String, ◌≡◌, refl, true, false, ◌⊎◌}
use crawlwall.Base.Int.{ℤ, pos}
use crawlwall.Bot.{Identified}
use crawlwall.Policy.{Decision}
use crawlwall.Verify.{Verification, Ip}
use crawlwall.Verify.Service.{Service}
use crawlwall.Ledger.Event.{HttpRequest, Event, event_from_request}
use crawlwall.Handler.{Outside, Handler, Reading, Reply, refused, robots, passed}
use crawlwall.Handler.Serve.{action_rate_limit_exceeded, write_to, event_of}
use crawlwall.Handler.Status.{client_status, IsUnwrittenError}
use crawlwall.Handler.Outcomes.{ip_of, bot_of, decided, first_event, over_event}

-- What an event says of the reply.
abbrev pub Agrees : (String → ℤ) → Reply → Event → Type 0
Agrees on_error (refused status message retry) e = (e.status ≡ status) × (e.enforced ≡ true)
Agrees on_error (robots n body) e =
    (e.status ≡ pos 200) × (e.enforced ≡ false) × (e.bytes_sent ≡ pos n)
Agrees on_error (passed next) e =
    ((e.status ≡ client_status on_error next) ⊎ (IsUnwrittenError next × (e.status ≡ pos 200)))
    × (e.enforced ≡ false)
    × (e.bytes_sent ≡ next.size)

-- What an event says of the request.
pub record IsOf {B : Type 0} (h : Handler B) (t : Reading) (r : HttpRequest) (e : Event)
    : Type 0 where
  pub event_id : e.event_id ≡ t.event_id
  pub ts : e.ts ≡ t.start
  pub site_id : e.site_id ≡ h.config.site.id
  pub host : e.host ≡ r.host
  pub method : e.method ≡ r.method
  pub path : e.path ≡ r.path
  pub user_agent : e.user_agent ≡ r.user_agent

-- One event was written.
pub record Recorded {B : Type 0} (on_error : String → ℤ) (h : Handler B) (t : Reading)
    (r : HttpRequest) (res : Handler B × Reply) : Type 0 where
  pub event : Event
  pub written : res.0.ledger ≡ write_to t.event_id event h.ledger
  pub agrees : Agrees on_error res.1 event
  pub is_of : IsOf h t r event

module _ {B : Type 0} (on_error : String → ℤ) (o : Outside B) (h : Handler B) (t : Reading)
    (r : HttpRequest) where
  -- An event keeps its request when its action changes.
  IsOf-action :
      (e : Event) (action reason rule_id : String)
      → IsOf h t r e
      → IsOf h t r (record e { action = action; action_reason = reason; rule_id = rule_id })
  IsOf-action e action reason rule_id i = record {
    event_id = i.event_id;
    ts = i.ts;
    site_id = i.site_id;
    host = i.host;
    method = i.method;
    path = i.path;
    user_agent = i.user_agent;
  }

  IsOf-event_of :
      (s : Service) (ip : Ip) (bot : Identified) (v : Verification) (d : Decision)
      → IsOf h t r (event_of o (record h { verifier = s }) t r ip bot v d)
  unfolding event_of event_from_request
  IsOf-event_of s ip bot v d = record {
    event_id = refl;
    ts = refl;
    site_id = refl;
    host = refl;
    method = refl;
    path = refl;
    user_agent = refl;
  }

  abbrev over : IsOf h t r (over_event o h t r)
  over =
      IsOf-action (first_event o h t r) action_rate_limit_exceeded action_rate_limit_exceeded
        (first_event o h t r).rule_id
        (IsOf-event_of _ (ip_of o h t r) (bot_of o h t r) _ (decided o h t r))

  abbrev first : IsOf h t r (first_event o h t r)
  first = IsOf-event_of _ (ip_of o h t r) (bot_of o h t r) _ (decided o h t r)
