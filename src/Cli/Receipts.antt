-- ===== src/Cli/Receipts.antt =====
-- cmd/crawlwall/main.go: `verifyReceipts`, and internal/ledger/ledger.go: `ParseExportLine`. The
-- decoder of package json is outside. The scanner gives its lines and, at the end, an error or none.
pub mod Checked
use crawlwall.Base.{
  ℕ, suc, String, Bool, true, false, not, Option, none, some, List, [], ◌∷◌, ◌==◌, if◌then◌else◌,
  Result, ok, err,
}
use crawlwall.Base.Text.{trim_space}
use crawlwall.Receipt.{Envelope, Crypto, ReceiptError, verify_envelope}
use crawlwall.Ledger.Event.{Formats, Event, receipt_payload}

pub record ExportRecord : Type 0 where
  -- `none` is the zero event, which a bare receipt leaves
  pub event : Option Event
  pub receipt : Option Envelope

pub record Json : Type 0 where
  -- `json.Unmarshal` into an export record, and into an envelope
  pub export_record : String → Result String (Event × Option Envelope)
  pub envelope : String → Result String Envelope

pub data VerifyError : Type 0 where
  decode_failed : String → VerifyError
  bad_receipt : ℕ → ReceiptError → VerifyError
  scan_failed : String → VerifyError

-- the counts, and the error if there is one
pub record Tally : Type 0 where
  pub total : ℕ
  pub verified : ℕ
  pub skipped : ℕ
  pub failure : Option VerifyError

module _ (json : Json) where
  abbrev as_envelope : String → Result String ExportRecord
  as_envelope line = elim (json.envelope line) [
    | ok e ↦ ok (record { event = none; receipt = some e })
    | err m ↦ err m
  ]

  unfoldable pub parse_export_line : String → Result String ExportRecord
  parse_export_line line = elim (json.export_record line) [
    | err m ↦ as_envelope line
    | ok found ↦
        if not (found.0.site_id == "")
        then ok (record { event = some found.0; receipt = found.1 })
        else as_envelope line
  ]

  module _ (crypto : Crypto) (f : Formats) where
    -- the envelope of an event that was signed
    unfoldable pub signed_envelope : Event → Option Envelope
    signed_envelope e =
        if not (e.receipt_signature == "")
        then some (record {
          receipt_id = e.receipt_id;
          payload = receipt_payload f e;
          signature = e.receipt_signature;
        })
        else none

    abbrev envelope_in : Option Envelope → Option Event → Option Envelope
    envelope_in (some e) event = some e
    envelope_in none (some event) = signed_envelope event
    envelope_in none none = none

    -- the `switch`: the receipt of a record, if it has one
    unfoldable pub record_envelope : ExportRecord → Option Envelope
    unfolding signed_envelope
    record_envelope r = envelope_in r.receipt r.event

    -- What is left to do with the lines, after so many of each kind.
    unfoldable pub verify_from : String → Option String → ℕ → ℕ → ℕ → List String → Tally
    unfolding parse_export_line record_envelope
    verify_from public_key at_end total verified skipped [] = record {
      total = total;
      verified = verified;
      skipped = skipped;
      failure = elim at_end [ none ↦ none | some m ↦ some (scan_failed m) ];
    }
    verify_from public_key at_end total verified skipped (text ∷ rest) =
        let line = trim_space text in
        elim (line == "") [
          | true ↦ verify_from public_key at_end total verified skipped rest
          | false ↦ elim (parse_export_line line) [
            | err m ↦ record {
              total = total;
              verified = verified;
              skipped = skipped;
              failure = some (decode_failed m);
            }
            | ok r ↦ elim (record_envelope r) [
              | none ↦ verify_from public_key at_end total verified (suc skipped) rest
              | some e ↦ elim (verify_envelope crypto public_key e) [
                | err x ↦ record {
                  total = suc total;
                  verified = verified;
                  skipped = skipped;
                  failure = some (bad_receipt (suc total) x);
                }
                | ok _ ↦ verify_from public_key at_end (suc total) (suc verified) skipped rest
              ]
            ]
          ]
        ]

    unfoldable pub verify_receipts : String → Option String → List String → Tally
    unfolding verify_from
    verify_receipts public_key at_end lines = verify_from public_key at_end 0 0 0 lines
