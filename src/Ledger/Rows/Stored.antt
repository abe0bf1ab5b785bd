-- ===== src/Ledger/Rows/Stored.antt =====
-- internal/ledger/sql.go: a receipt on its way through the database.
use crawlwall.Base.{ℕ, String, ◌≡◌, refl, ◌∙◌, true, false, some, ◌==◌, Result, ok}
use crawlwall.Ledger.Event.{Formats, Event, receipt_payload}
use crawlwall.Ledger.Dialect.{Dialect}
use crawlwall.Ledger.Dialect.Columns.{time_arg, parse_timestamp}
use crawlwall.Ledger.Rows.{Args, Row, insert_args, event_at, scan_event, export_receipt}

-- The columns of a row that a receipt is made of come back as they were bound.
pub record Returns (a : Args) (r : Row) : Type 0 where
  pub event_id : r.event_id ≡ a.event_id
  pub ts : r.ts ≡ a.ts
  pub site_id : r.site_id ≡ a.site_id
  pub host : r.host ≡ a.host
  pub method : r.method ≡ a.method
  pub path : r.path ≡ a.path
  pub bot_id : r.bot_id ≡ a.bot_id
  pub bot_class : r.bot_class ≡ a.bot_class
  pub bot_verified : r.bot_verified ≡ a.bot_verified
  pub rule_id : r.rule_id ≡ a.rule_id
  pub action : r.action ≡ a.action
  pub price_amount : r.price_amount ≡ a.price_amount
  pub price_currency : r.price_currency ≡ a.price_currency
  pub price_unit : r.price_unit ≡ a.price_unit
  pub receipt_id : r.receipt_id ≡ some a.receipt_id
  pub receipt_signature : r.receipt_signature ≡ some a.receipt_signature

-- A time that was formatted parses to one that has the same format.
pub record Reparses (f : Formats) (parse : String → Result String ℕ) (t : ℕ) : Type 0 where
  pub read : ℕ
  pub parses : parse (f.rfc3339 t) ≡ ok read
  pub same : f.rfc3339 read ≡ f.rfc3339 t

module _ (f : Formats) (parse : String → Result String ℕ) (d : Dialect) where
  -- Where the timestamps are stored as texts (SQLite), an event that has an id and was written is
  -- read back without an error, and the exported line has the receipt that was signed, or none if
  -- the event was not signed: whatever its row's number is, and although the time that is read back
  -- is that of the text.
  pub scan_event-insert_args :
      (new_id : String) (e : Event) (r : Row)
      → d.timestamps_as_text ≡ true
      → (e.event_id == "") ≡ false
      → Reparses f parse e.ts
      → Returns (insert_args f.rfc3339 d new_id e) r
      → (back : Event) × (scan_event parse r ≡ ok back)
        × (export_receipt f back ≡ export_receipt f e)
  unfolding scan_event parse_timestamp insert_args time_arg export_receipt receipt_payload
  scan_event-insert_args new_id e r as_text has_id t same =
      let kept_id : r.event_id ≡ e.event_id = same.event_id ∙ rw has_id refl in
      (
        event_at r t.read,
        rw (same.ts, as_text, t.parses) refl,
        rw
            (
              same.receipt_signature, same.receipt_id, kept_id, has_id, same.site_id, t.same,
              same.bot_id, same.bot_class, same.bot_verified, same.host, same.method, same.path,
              same.rule_id, same.action, same.price_amount, same.price_currency, same.price_unit,
            )
            refl,
      )
