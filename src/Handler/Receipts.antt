-- ===== src/Handler/Receipts.antt =====
-- module.go: the receipt that the handler puts on an event.
use crawlwall.Base.{
  String, ◌≡◌, refl, inl, inr, Bool, true, false, ◌&&◌, ◌||◌, Result, ok, ◌==◌, Bool-cases,
  Result-cases,
}
use crawlwall.Base.Int.{ℤ}
use crawlwall.Config.{action_allow_metered}
use crawlwall.Receipt.{Envelope, Signer, ReceiptError, sign_payload, verify_envelope}
use crawlwall.Receipt.RoundTrip.{IsSound, verify_envelope-sign_payload}
use crawlwall.Ledger.Event.{Event, Formats, receipt_payload}
use crawlwall.Handler.{Outside}
use crawlwall.Handler.Serve.{with_receipt}

-- The envelope that an event of the ledger stands for.
abbrev pub envelope_of : Formats → Event → Envelope
envelope_of f e = record {
  receipt_id = e.receipt_id;
  payload = receipt_payload f e;
  signature = e.receipt_signature;
}

abbrev pub wants_receipt : Signer → Event → Bool
wants_receipt s e = s.enabled && (e.action == action_allow_metered || e.receipt_requested)

module _ {B : Type 0} (o : Outside B) (s : Signer) (new_id : String) (e : Event) where
  abbrev outcome : Result ReceiptError Envelope
  outcome = sign_payload o.crypto s new_id (receipt_payload o.formats e)

  abbrev pub receipted : Event
  receipted = with_receipt o s new_id e

  -- A receipt changes nothing else of an event.
  pub with_receipt-rest : receipted ≡ record e {
    receipt_id = receipted.receipt_id;
    receipt_signature = receipted.receipt_signature;
  }
  unfolding with_receipt
  with_receipt-rest = elim (Bool-cases (wants_receipt s e)) [
    | inr n ↦ rw n refl
    | inl w ↦ elim (Result-cases outcome) [
      | inl (envelope, k) ↦ rw (w, k) refl
      | inr (failure, k) ↦ rw (w, k) refl
    ]
  ]

  -- The ledger's database gives the event its number, which does not change a payload with an id.
  receipt_payload-stored :
      (n : ℤ) (id signature : String)
      → (e.event_id == "") ≡ false
      → receipt_payload o.formats
          (record e { id = n; receipt_id = id; receipt_signature = signature })
        ≡ receipt_payload o.formats e
  unfolding receipt_payload
  receipt_payload-stored n id signature given = rw given refl

  -- With a sound pair of keys, when an event with an id asks for a receipt and signing it
  -- succeeds, the receipt that is put on the event verifies against the payload that is built
  -- again from the event, whatever number the database gave the event.
  pub stored_receipt-verifies :
      (n : ℤ) (envelope : Envelope)
      → IsSound o.crypto s.private_key s.public_key
      → wants_receipt s e ≡ true
      → (e.event_id == "") ≡ false
      → sign_payload o.crypto s new_id (receipt_payload o.formats e) ≡ ok envelope
      → verify_envelope o.crypto s.public_key
          (envelope_of o.formats (record (with_receipt o s new_id e) { id = n }))
        ≡ ok tt
  unfolding with_receipt
  stored_receipt-verifies n envelope sound wanted given signs =
      let (verifies, payload, id) =
        verify_envelope-sign_payload o.crypto s new_id (receipt_payload o.formats e) envelope sound
          signs in
      rw (wanted, signs)
        (rw (receipt_payload-stored n envelope.receipt_id envelope.signature given)
          (rw payload at verifies))
