-- ===== src/Ledger/Rows.antt =====
-- internal/ledger/sql.go: what is bound for an event (`insertArgs`), what is read of a row (`scanEvent`),
-- the receipt of an exported line (`ExportJSONL`), and a row of the report (`scanReportRow`). The
-- database is outside. A row has the types that package sql is asked to convert its columns to.
pub mod Stored
use crawlwall.Base.{
  ℕ, String, Bool, true, false, not, Option, none, some, List, [], ◌∷◌, ◌==◌, if◌then◌else◌, Result,
  ok, err, ◌>>=◌,
}
use crawlwall.Base.Int.{ℤ, pos, eq_ℤ}
use crawlwall.Config.{Float}
use crawlwall.Receipt.{Envelope}
use crawlwall.Ledger.Event.{Formats, Event, receipt_payload}
use crawlwall.Ledger.Dialect.{Dialect}
use crawlwall.Ledger.Dialect.Columns.{Column, Parsers, time_arg, parse_timestamp, as_int64}

-- the arguments of the insert statement
pub record Args : Type 0 where
  pub event_id : String
  pub ts : Column
  pub site_id : String
  pub host : String
  pub method : String
  pub path : String
  pub query : String
  pub remote_ip : String
  pub user_agent : String
  pub bot_id : String
  pub bot_name : String
  pub bot_class : String
  pub bot_claimed : Bool
  pub bot_verified : Bool
  pub verify_type : String
  pub verify_reason : String
  pub rule_id : String
  pub action : String
  pub action_reason : String
  pub status : ℤ
  pub bytes_sent : ℤ
  pub duration_ms : ℤ
  pub price_amount : Option Float
  pub price_currency : Option String
  pub price_unit : Option String
  pub receipt_id : String
  pub receipt_signature : String
  pub enforced : Bool

-- a row of the select statement; a column that may be null is an option
pub record Row : Type 0 where
  pub id : ℤ
  pub event_id : String
  pub ts : Column
  pub site_id : String
  pub host : String
  pub method : String
  pub path : String
  pub query : String
  pub remote_ip : String
  pub user_agent : String
  pub bot_id : String
  pub bot_name : String
  pub bot_class : String
  pub bot_claimed : Bool
  pub bot_verified : Bool
  pub verify_type : String
  pub verify_reason : String
  pub rule_id : String
  pub action : String
  pub action_reason : String
  pub status : ℤ
  pub bytes_sent : ℤ
  pub duration_ms : ℤ
  pub price_amount : Option Float
  pub price_currency : Option String
  pub price_unit : Option String
  pub receipt_id : Option String
  pub receipt_signature : Option String
  pub enforced : Bool

unfoldable pub insert_args : (ℕ → String) → Dialect → String → Event → Args
unfolding time_arg
insert_args rfc3339 d new_id e = record {
  event_id = if e.event_id == "" then new_id else e.event_id;
  ts = time_arg rfc3339 d e.ts;
  site_id = e.site_id;
  host = e.host;
  method = e.method;
  path = e.path;
  query = e.query;
  remote_ip = e.remote_ip;
  user_agent = e.user_agent;
  bot_id = e.bot_id;
  bot_name = e.bot_name;
  bot_class = e.bot_class;
  bot_claimed = e.bot_claimed;
  bot_verified = e.bot_verified;
  verify_type = e.verify_type;
  verify_reason = e.verify_reason;
  rule_id = e.rule_id;
  action = e.action;
  action_reason = e.action_reason;
  status = e.status;
  bytes_sent = e.bytes_sent;
  duration_ms = e.duration_ms;
  price_amount = e.price_amount;
  price_currency = e.price_currency;
  price_unit = e.price_unit;
  receipt_id = e.receipt_id;
  receipt_signature = e.receipt_signature;
  enforced = e.enforced;
}

-- the `String` of a sql.NullString
abbrev pub or_empty : Option String → String
or_empty none = ""
or_empty (some s) = s

abbrev pub event_at : Row → ℕ → Event
event_at r ts = record {
  id = r.id;
  event_id = r.event_id;
  ts = ts;
  site_id = r.site_id;
  host = r.host;
  method = r.method;
  path = r.path;
  query = r.query;
  remote_ip = r.remote_ip;
  user_agent = r.user_agent;
  bot_id = r.bot_id;
  bot_name = r.bot_name;
  bot_class = r.bot_class;
  bot_claimed = r.bot_claimed;
  bot_verified = r.bot_verified;
  verify_type = r.verify_type;
  verify_reason = r.verify_reason;
  rule_id = r.rule_id;
  action = r.action;
  action_reason = r.action_reason;
  status = r.status;
  bytes_sent = r.bytes_sent;
  duration_ms = r.duration_ms;
  price_amount = r.price_amount;
  price_currency = r.price_currency;
  price_unit = r.price_unit;
  receipt_id = or_empty r.receipt_id;
  receipt_signature = or_empty r.receipt_signature;
  receipt_requested = false;
  enforced = r.enforced;
}

-- `parse` is `time.Parse` at RFC 3339
unfoldable pub scan_event : (String → Result String ℕ) → Row → Result String Event
unfolding parse_timestamp
scan_event parse r = parse_timestamp parse r.ts >>= λ ts. ok (event_at r ts)

-- the receipt of an exported event
unfoldable pub export_receipt : Formats → Event → Option Envelope
unfolding receipt_payload
export_receipt f e =
    if not (e.receipt_signature == "")
    then some (record {
      receipt_id = e.receipt_id;
      payload = receipt_payload f e;
      signature = e.receipt_signature;
    })
    else none

-- the columns of a row of the report, and `ReportRow`
pub record Aggregates : Type 0 where
  pub bot_id : String
  pub bot_name : String
  pub class : String
  pub verified : Column
  pub requests : Column
  pub allowed : Column
  pub blocked : Column
  pub would_block : Column
  pub metered : Column

pub record ReportRow : Type 0 where
  pub bot_id : String
  pub bot_name : String
  pub class : String
  pub verified : Bool
  pub requests : ℤ
  pub allowed : ℤ
  pub blocked : ℤ
  pub would_block : ℤ
  pub metered : ℤ

unfoldable pub scan_report_row : Parsers → Aggregates → Result String ReportRow
unfolding as_int64
scan_report_row p a = do
  requests ← as_int64 p a.requests
  allowed ← as_int64 p a.allowed
  blocked ← as_int64 p a.blocked
  would_block ← as_int64 p a.would_block
  metered ← as_int64 p a.metered
  flag ← as_int64 p a.verified
  ok (record {
    bot_id = a.bot_id;
    bot_name = a.bot_name;
    class = a.class;
    verified = not (eq_ℤ flag (pos 0));
    requests = requests;
    allowed = allowed;
    blocked = blocked;
    would_block = would_block;
    metered = metered;
  })
