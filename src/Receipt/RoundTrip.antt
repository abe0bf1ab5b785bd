-- ===== src/Receipt/RoundTrip.antt =====
-- internal/receipt/signer.go: signing, then verifying.
use crawlwall.Base.{String, ◌≡◌, ap, ◌∙◌, true, some, ok, arith, Result-cases, inl, inr}
use crawlwall.Receipt.{
  Payload, Envelope, Crypto, Signer, canonical_envelope_bytes, sign_payload, verify_envelope,
}

-- What base64 and Ed25519 promise: decoding undoes encoding, and the public key of a private key
-- accepts its signatures.
pub record IsSound (crypto : Crypto) (private_key public_key : String) : Type 0 where
  pub base64 : (s : String) → crypto.decode_base64 (crypto.encode_base64 s) ≡ some s
  pub signed :
      (bytes : String) → crypto.verify public_key bytes (crypto.sign private_key bytes) ≡ true

-- What a signer makes verifies when the key accepts it.
verify_envelope-signed :
    (crypto : Crypto) (public_key bytes : String) (e : Envelope) (signature : String)
    → crypto.marshal e.receipt_id e.payload ≡ ok bytes
    → crypto.decode_base64 e.signature ≡ some signature
    → crypto.verify public_key bytes signature ≡ true
    → verify_envelope crypto public_key e ≡ ok tt
unfolding verify_envelope canonical_envelope_bytes
verify_envelope-signed crypto public_key bytes e signature m d v = ground arith

-- What signing returns is the payload, with a signature of its canonical bytes.
sign_payload-shape :
    (crypto : Crypto) (s : Signer) (new_id : String) (payload : Payload) (e : Envelope)
    → sign_payload crypto s new_id payload ≡ ok e
    → (bytes : String) × (crypto.marshal e.receipt_id e.payload ≡ ok bytes)
      × (e.signature ≡ crypto.encode_base64 (crypto.sign s.private_key bytes))
      × (e.payload ≡ payload)
      × (e.receipt_id ≡ new_id)
unfolding sign_payload canonical_envelope_bytes
sign_payload-shape crypto s new_id payload e h =
    elim (Result-cases (crypto.marshal new_id payload)) [
      | inl (bytes, m) ↦ (bytes, ground arith, ground arith, ground arith, ground arith)
      | inr (m', m) ↦ absurd (ground arith)
    ]

-- With a sound pair of keys, whatever the signer signs is accepted under the public key, and what
-- it signs is the payload and the receipt id that it was given.
pub verify_envelope-sign_payload :
    (crypto : Crypto) (s : Signer) (new_id : String) (payload : Payload) (e : Envelope)
    → IsSound crypto s.private_key s.public_key
    → sign_payload crypto s new_id payload ≡ ok e
    → (verify_envelope crypto s.public_key e ≡ ok tt)
      × (e.payload ≡ payload)
      × (e.receipt_id ≡ new_id)
verify_envelope-sign_payload crypto s new_id payload e sound h =
    let (bytes, m, signature, same_payload, same_id) =
      sign_payload-shape crypto s new_id payload e h in
    (
      verify_envelope-signed crypto s.public_key bytes e (crypto.sign s.private_key bytes) m
          (ap crypto.decode_base64 signature ∙ sound.base64 (crypto.sign s.private_key bytes))
          (sound.signed bytes),
      same_payload,
      same_id,
    )
