-- ===== src/Ledger/Event.antt =====
-- internal/ledger/ledger.go: an event, what it is made of, and its receipt's payload. The event id
-- (random bytes in hex), the texts of numbers and times, and `IP.String` come from outside.
use Prim.Native.String.{◌++◌}
use crawlwall.Base.{
  ℕ, String, Bool, false, not, ◌&&◌, List, Option, none, some, ◌==◌, if◌then◌else◌,
}
use crawlwall.Base.Int.{ℤ, pos, eq_ℤ}
use crawlwall.Base.Dict.{Dict}
use crawlwall.Config.{Float, Price, action_block}
use crawlwall.Bot.{Identified}
use crawlwall.Policy.{Decision}
use crawlwall.Verify.{Verification}
use crawlwall.Receipt.{Payload, MeteringPayload}

-- What is read of an HTTP request; `client_ip` is the variable that Caddy sets.
pub record HttpRequest : Type 0 where
  pub host : String
  pub method : String
  pub path : String
  pub query : String
  pub user_agent : String
  pub headers : Dict (List String)
  pub client_ip : Option String
  pub remote_addr : String

pub record Event : Type 0 where
  pub id : ℤ
  pub event_id : String
  pub ts : ℕ
  pub site_id : String
  pub host : String
  pub method : String
  pub path : String
  pub query : String
  pub remote_ip : String
  pub user_agent : String
  pub bot_id : String
  pub bot_name : String
  pub bot_class : String
  pub bot_claimed : Bool
  pub bot_verified : Bool
  pub verify_type : String
  pub verify_reason : String
  pub rule_id : String
  pub action : String
  pub action_reason : String
  pub status : ℤ
  pub bytes_sent : ℤ
  pub duration_ms : ℤ
  pub price_amount : Option Float
  pub price_currency : Option String
  pub price_unit : Option String
  pub receipt_id : String
  pub receipt_signature : String
  pub receipt_requested : Bool
  pub enforced : Bool

abbrev map_price : {A : Type 0} → (Price → A) → Option Price → Option A
map_price f none = none
map_price f (some p) = some (f p)

unfoldable pub event_from_request :
    String → ℕ → HttpRequest → String → Identified → Verification → Decision → String → Event
event_from_request new_id start r remote_ip bot v d site_id = record {
  id = pos 0;
  event_id = new_id;
  ts = start;
  site_id = site_id;
  host = r.host;
  method = r.method;
  path = r.path;
  query = r.query;
  remote_ip = remote_ip;
  user_agent = r.user_agent;
  bot_id = bot.id;
  bot_name = bot.name;
  bot_class = bot.class;
  bot_claimed = bot.claimed;
  bot_verified = v.verified;
  verify_type = v.type;
  verify_reason = v.reason;
  rule_id = d.rule_id;
  action = d.action.type;
  action_reason = d.action.reason;
  status =
      if d.action.type == action_block && not (eq_ℤ d.action.status (pos 0))
      then d.action.status
      else pos 0;
  bytes_sent = pos 0;
  duration_ms = pos 0;
  price_amount = map_price (λ p. p.amount) d.action.price;
  price_currency = map_price (λ p. p.currency) d.action.price;
  price_unit = map_price (λ p. p.unit) d.action.price;
  receipt_id = "";
  receipt_signature = "";
  receipt_requested = d.audit.receipt;
  enforced = false;
}

pub record Formats : Type 0 where
  pub decimal : ℤ → String
  pub rfc3339 : ℕ → String

abbrev metering : Option Float → Option String → Option String → Option MeteringPayload
metering (some a) (some c) (some u) = some (record { amount = a; currency = c; unit = u })
metering _ _ _ = none

unfoldable pub receipt_payload : Formats → Event → Payload
receipt_payload f e = record {
  version = "crawlwall.receipt/v1";
  event_id =
      if e.event_id == "" && not (eq_ℤ e.id (pos 0))
      then "legacy-" ++ f.decimal e.id
      else e.event_id;
  site_id = e.site_id;
  time = f.rfc3339 e.ts;
  bot = record { id = e.bot_id; class = e.bot_class; verified = e.bot_verified };
  request = record { host = e.host; method = e.method; path = e.path };
  policy = record { rule_id = e.rule_id; action = e.action };
  metering = metering e.price_amount e.price_currency e.price_unit;
}
