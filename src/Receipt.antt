-- ===== src/Receipt.antt =====
-- internal/receipt: canonical.go, and signing and verifying in signer.go. JSON, Ed25519, base64 and
-- the random receipt id are outside: the record `Crypto` holds them. Keys and bytes are texts here.
pub mod RoundTrip
use crawlwall.Base.{
  if◌then◌else◌, String, Bool, true, false, not, Option, none, some, Result, ok, err, ◌>>=◌, ◌>>◌,
  reject,
}
use crawlwall.Config.{Float, ReceiptsConfig}

pub record BotPayload : Type 0 where
  pub id : String
  pub class : String
  pub verified : Bool

pub record RequestPayload : Type 0 where
  pub host : String
  pub method : String
  pub path : String

pub record PolicyPayload : Type 0 where
  pub rule_id : String
  pub action : String

pub record MeteringPayload : Type 0 where
  pub amount : Float
  pub currency : String
  pub unit : String

pub record Payload : Type 0 where
  pub version : String
  pub event_id : String
  pub site_id : String
  pub time : String
  pub bot : BotPayload
  pub request : RequestPayload
  pub policy : PolicyPayload
  pub metering : Option MeteringPayload

pub record Envelope : Type 0 where
  pub receipt_id : String
  pub payload : Payload
  pub signature : String

pub record Crypto : Type 0 where
  -- `json.Marshal` of the receipt id and the payload
  pub marshal : String → Payload → Result String String
  pub sign : String → String → String
  pub verify : String → String → String → Bool
  pub encode_base64 : String → String
  pub decode_base64 : String → Option String

pub record Signer : Type 0 where
  pub enabled : Bool
  pub private_key : String
  pub public_key : String

-- `NewSigner`; `load_keys` is `LoadPrivateKeyFile`
unfoldable pub new_signer :
    (String → Result String (String × String)) → ReceiptsConfig → Result String Signer
new_signer load_keys cfg =
    if not cfg.enabled
    then ok (record { enabled = false; private_key = ""; public_key = "" })
    else (load_keys cfg.signer.key_file >>= λ keys.
        ok (record { enabled = true; private_key = keys.0; public_key = keys.1 }))

pub data ReceiptError : Type 0 where
  disabled bad_signature_encoding invalid_signature : ReceiptError
  marshal_failed : String → ReceiptError

abbrev wrap : Result String String → Result ReceiptError String
wrap (ok s) = ok s
wrap (err m) = err (marshal_failed m)

abbrev decoded : Option String → Result ReceiptError String
decoded none = err bad_signature_encoding
decoded (some s) = ok s

module _ (crypto : Crypto) where
  unfoldable pub canonical_envelope_bytes : Envelope → Result ReceiptError String
  canonical_envelope_bytes e = wrap (crypto.marshal e.receipt_id e.payload)

  unfoldable pub sign_payload : Signer → String → Payload → Result ReceiptError Envelope
  unfolding canonical_envelope_bytes
  sign_payload s new_id payload = do
    reject (not s.enabled) disabled
    let unsigned : Envelope = record { receipt_id = new_id; payload = payload; signature = "" }
    bytes ← canonical_envelope_bytes unsigned
    ok (record unsigned { signature = crypto.encode_base64 (crypto.sign s.private_key bytes) })

  unfoldable pub verify_envelope : String → Envelope → Result ReceiptError (Unit {0})
  unfolding canonical_envelope_bytes
  verify_envelope public_key e = do
    bytes ← canonical_envelope_bytes e
    signature ← decoded (crypto.decode_base64 e.signature)
    reject (not (crypto.verify public_key bytes signature)) invalid_signature
