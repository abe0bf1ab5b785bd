-- ===== src/Tests/Ledger.antt =====
-- Runs of the asynchronous ledger.
use crawlwall.Base.{
  ℕ, String, none, some, Result, ok, err, ◌==◌, nat_eq, leb, if◌then◌else◌, ◌≡◌, refl, true, false,
  [], ◌∷◌, arith, here,
}
use crawlwall.Ledger.Event.{Event}
use crawlwall.Ledger.Async.{
  event, barrier, draining, stopped, Async, new_async, with_id, write_event, queue_barrier, commit,
  accept, report_dropped, write, flush, receive, Reach, start, next,
}
use crawlwall.Ledger.Async.Invariant.{InOrder, Reach-InOrder}
use crawlwall.Ledger.Async.Bounds.{Counted, Reach-Counted}
use crawlwall.Ledger.Async.Barrier.{IsTried, acked-IsTried}
use crawlwall.Base.Int.{pos}
use crawlwall.Base.Text.{split_on}
use crawlwall.Ledger.Event.{Formats}
use crawlwall.Ledger.Dialect.{Dialect, postgres_dialect, sqlite_dialect, rebind, open_dialect}
use crawlwall.Ledger.Dialect.Columns.{text, time_arg}
use crawlwall.Ledger.Dialect.Rebound.{numbered_join, rebind-join}
use crawlwall.Ledger.Rows.{Row, insert_args, scan_event, export_receipt}
use crawlwall.Ledger.Rows.Stored.{scan_event-insert_args}
use crawlwall.Tests.Data.{sample_event}

abbrev first_event : Event
first_event = with_id "e1" sample_event

-- one event is written, and then a flush is asked for
abbrev queued_one : Async
queued_one = queue_barrier 7 (write_event "e1" sample_event new_async)

abbrev received_one : Async
received_one =
    accept true (event first_event)
      (record queued_one { queue = barrier 7 (first_event ∷ []) ∷ [] })

abbrev flushed : Async
flushed = accept true (barrier 7 (first_event ∷ [])) (record received_one { queue = [] })

queued-Reach : Reach queued_one
unfolding write_event
queued-Reach = next (next start (write "e1" sample_event)) (flush 7 (omega arith))

received-Reach : Reach received_one
unfolding write_event queue_barrier
received-Reach = next queued-Reach (receive true (event first_event) _ refl (cc))

flushed-Reach : Reach flushed
unfolding write_event queue_barrier accept commit
flushed-Reach = next received-Reach (receive true (barrier 7 (first_event ∷ [])) [] refl (cc))

flushed_stored : flushed.stored ≡ first_event ∷ []
unfolding write_event queue_barrier accept commit
flushed_stored = refl

Reach-InOrder_example : InOrder flushed
Reach-InOrder_example = Reach-InOrder flushed-Reach

Reach-Counted_example : Counted flushed
Reach-Counted_example = Reach-Counted flushed-Reach

acked-IsTried_example : IsTried flushed.attempted (7, first_event ∷ [])
unfolding write_event queue_barrier accept commit
acked-IsTried_example = acked-IsTried (7, first_event ∷ []) flushed-Reach here

abbrev quitting : Async
quitting = record queued_one { mode = draining }

abbrev drained : Async
drained = record flushed { mode = draining }

abbrev at_end : Async
at_end = record (report_dropped (commit true drained)) { mode = stopped }

abbrev postgres : Dialect
postgres = postgres_dialect "postgres://db"

abbrev digits : ℕ → String
digits n = if nat_eq n 1 then "1" else if nat_eq n 2 then "2" else "3"

rebind_sample : rebind digits postgres "a = ? AND b > ?" ≡ "a = $1 AND b > $2"
unfolding rebind postgres_dialect
rebind_sample = refl

open_dialect_sample :
    open_dialect (λ s. err s) (λ query. "") "sqlite://a.db" ≡ ok (sqlite_dialect "a.db")
unfolding open_dialect
open_dialect_sample = refl

rebind-join_example :
    rebind digits postgres "a = ? AND b > ?"
    ≡ (if true then numbered_join digits 1 (split_on b'?' "a = ? AND b > ?") else "a = ? AND b > ?")
unfolding numbered_join postgres_dialect
rebind-join_example = rebind-join digits postgres "a = ? AND b > ?"

abbrev receipted_event : Event
receipted_event = record sample_event {
  event_id = "e1";
  receipt_id = "r1";
  receipt_signature = "signed";
}

-- The texts have whole seconds: here, thousands.
abbrev texts : Formats
texts = record { decimal = λ n. "2"; rfc3339 = λ t. if leb 1000 t then "1s" else "0s" }

abbrev read_back : String → Result String ℕ
read_back s = if s == "1s" then ok 1000 else err s

abbrev stored_row : Row
stored_row = record {
  id = pos 5;
  event_id = "e1";
  ts = text "1s";
  site_id = "site";
  host = "site.example";
  method = "GET";
  path = "/";
  query = "";
  remote_ip = "192.0.2.1";
  user_agent = "CrawlBot/1.0";
  bot_id = "crawler";
  bot_name = "Crawler";
  bot_class = "search";
  bot_claimed = true;
  bot_verified = false;
  verify_type = "reverse_dns";
  verify_reason = "";
  rule_id = "limit";
  action = "allow_metered";
  action_reason = "";
  status = pos 200;
  bytes_sent = pos 10;
  duration_ms = pos 1;
  price_amount = none;
  price_currency = none;
  price_unit = none;
  receipt_id = some "r1";
  receipt_signature = some "signed";
  enforced = false;
}

scan_event-insert_args_example :
    (back : Event) × (scan_event read_back stored_row ≡ ok back)
    × (export_receipt texts back ≡ export_receipt texts (record receipted_event { ts = 1700 }))
unfolding insert_args time_arg sqlite_dialect
scan_event-insert_args_example =
    scan_event-insert_args texts read_back (sqlite_dialect "a.db") "e2"
      (record receipted_event { ts = 1700 }) stored_row refl refl
      (record { read = 1000; parses = refl; same = refl })
      (record {
        event_id = refl;
        ts = refl;
        site_id = refl;
        host = refl;
        method = refl;
        path = refl;
        bot_id = refl;
        bot_class = refl;
        bot_verified = refl;
        rule_id = refl;
        action = refl;
        price_amount = refl;
        price_currency = refl;
        price_unit = refl;
        receipt_id = refl;
        receipt_signature = refl;
      })
