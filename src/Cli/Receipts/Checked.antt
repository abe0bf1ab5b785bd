-- ===== src/Cli/Receipts/Checked.antt =====
-- cmd/crawlwall/main.go, `verifyReceipts`: what a count of verified receipts means.
use crawlwall.Base.{
  ℕ, suc, String, ◌≡◌, refl, ap, inl, inr, true, Option, none, some, List, [], ◌∷◌, ◌++◌, ◌==◌, ok,
  err, All, Bool-cases, Option-cases, Result-cases,
}
use crawlwall.Base.Text.{trim_space}
use crawlwall.Receipt.{Envelope, Crypto, ReceiptError, verify_envelope}
use crawlwall.Ledger.Event.{Formats}
use crawlwall.Cli.Receipts.{
  ExportRecord, Json, VerifyError, decode_failed, bad_receipt, scan_failed, Tally,
  parse_export_line, record_envelope, verify_from, verify_receipts,
}

module _ (json : Json) (crypto : Crypto) (f : Formats) (key : String) where
  abbrev pub IsBlank : String → Type 0
  IsBlank text = (trim_space text == "") ≡ true

  -- A line that does not stop the check: it is blank, or it parses, and its receipt verifies if it
  -- has one.
  pub data Good (text : String) : Type 0 where
    blank : IsBlank text → Good text
    no_receipt :
        (r : ExportRecord)
        → parse_export_line json (trim_space text) ≡ ok r
        → record_envelope json crypto f r ≡ none
        → Good text
    receipt :
        (r : ExportRecord) (e : Envelope)
        → parse_export_line json (trim_space text) ≡ ok r
        → record_envelope json crypto f r ≡ some e
        → verify_envelope crypto key e ≡ ok tt
        → Good text

  -- A line that stops it, with the error and the count of receipts before it.
  pub data Bad (text : String) (verified total : ℕ) : VerifyError → Type 0 where
    undecoded :
        (m : String)
        → parse_export_line json (trim_space text) ≡ err m
        → total ≡ verified
        → Bad text verified total (decode_failed m)
    unverified :
        (r : ExportRecord) (e : Envelope) (x : ReceiptError)
        → parse_export_line json (trim_space text) ≡ ok r
        → record_envelope json crypto f r ≡ some e
        → verify_envelope crypto key e ≡ err x
        → total ≡ suc verified
        → Bad text verified total (bad_receipt total x)

  pub data Verdict (at_end : Option String) (lines : List String) (t : Tally) : Type 0 where
    all_good :
        All Good lines
        → at_end ≡ none
        → t.total ≡ t.verified
        → t.failure ≡ none
        → Verdict at_end lines t
    cut_off :
        (m : String)
        → All Good lines
        → at_end ≡ some m
        → t.total ≡ t.verified
        → t.failure ≡ some (scan_failed m)
        → Verdict at_end lines t
    stopped :
        (before after : List String) (text : String) (x : VerifyError)
        → lines ≡ before ++ text ∷ after
        → All Good before
        → Bad text t.verified t.total x
        → t.failure ≡ some x
        → Verdict at_end lines t

  Verdict-more :
      (at_end : Option String) (text : String) (lines : List String) (t : Tally)
      → Good text
      → Verdict at_end lines t
      → Verdict at_end (text ∷ lines) t
  Verdict-more at_end text lines t g (all_good all e c x) = all_good (g, all) e c x
  Verdict-more at_end text lines t g (cut_off m all e c x) = cut_off m (g, all) e c x
  Verdict-more at_end text lines t g (stopped before after bad x split all b y) =
      stopped (text ∷ before) after bad x (ap (λ ls. text ∷ ls) split) (g, all) b y

  verify_from-Verdict :
      (at_end : Option String) (n skipped : ℕ) (lines : List String)
      → Verdict at_end lines (verify_from json crypto f key at_end n n skipped lines)
  unfolding verify_from
  verify_from-Verdict none n skipped [] = all_good tt refl refl refl
  verify_from-Verdict (some m) n skipped [] = cut_off m tt refl refl refl
  verify_from-Verdict at_end n skipped (text ∷ rest) = elim (Bool-cases (trim_space text == "")) [
    | inl e ↦
        rw (e, verify_from)
          (Verdict-more at_end text rest _ (blank e) (verify_from-Verdict at_end n skipped rest))
    | inr e ↦ elim (Result-cases (parse_export_line json (trim_space text))) [
      | inr (m, p) ↦
          rw (e, p, verify_from)
            (stopped [] rest text (decode_failed m) refl tt (undecoded m p refl) refl)
      | inl (r, p) ↦ elim (Option-cases (record_envelope json crypto f r)) [
        | inl q ↦
            rw (e, p, q, verify_from)
              (Verdict-more at_end text rest _ (no_receipt r p q)
                (verify_from-Verdict at_end n (suc skipped) rest))
        | inr (envelope, q) ↦ elim (Result-cases (verify_envelope crypto key envelope)) [
          | inl (_, v) ↦
              rw (e, p, q, v, verify_from)
                (Verdict-more at_end text rest _ (receipt r envelope p q v)
                  (verify_from-Verdict at_end (suc n) skipped rest))
          | inr (x, v) ↦
              rw (e, p, q, v, verify_from)
                (stopped [] rest text (bad_receipt (suc n) x) refl tt
                  (unverified r envelope x p q v refl) refl)
        ]
      ]
    ]
  ]

  -- How `receipts verify` ends. It ends without an error when every line is good: blank, or a record
  -- that has no receipt, or one whose receipt verifies. It ends with the scanner's error when every
  -- line that was read is good. Otherwise it stops at the first line that is not, with the error of
  -- that line. All receipts that were counted have verified, but the one it stops at.
  pub verify_receipts-Verdict :
      (at_end : Option String) (lines : List String)
      → Verdict at_end lines (verify_receipts json crypto f key at_end lines)
  unfolding verify_receipts
  verify_receipts-Verdict at_end lines = verify_from-Verdict at_end 0 0 lines
