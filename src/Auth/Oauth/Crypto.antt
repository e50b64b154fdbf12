-- ===== src/Auth/Oauth/Crypto.antt =====
-- internal/oauth/crypto.go and the tokens of internal/oauth/state.go. AES-GCM, HMAC-SHA-256 and base64
-- are parameters on bytes; the random bytes are arguments, `none` where the generator fails. The
-- errors are `none`.
pub mod RoundTrip
use go_modulith_template.Prelude.{
  ◌≡◌, ◌≢◌, ◌∙◌, refl, sym, ap, subst, inl, inr, ℕ, ◌+◌, ◌≤◌, Bool, true, false, Option, none, some,
  List, [], ◌∷◌, ◌++◌, length, take, drop, take_left-append, drop_left-append, take-drop,
  length-take, length-append, ltb, nat_eq, nat_eq_iff, ◌==◌, Bytes, bytes_beq, bytes_beq_iff,
  eq_bytes, if◌then◌else◌, Bool-cases, Option-cases, arith,
}

-- Decoding is the inverse of encoding, which gives no empty text but for the empty text.
pub record Base64 : Type 0 where
  pub encode : Bytes → Bytes
  pub decode : Bytes → Option Bytes
  pub decode-encode : (b : Bytes) → decode (encode b) ≡ some b
  pub encode_empty : (b : Bytes) → encode b ≡ [] → b ≡ []

-- `seal nonce text` is the ciphertext with its tag; `open` refuses what was not sealed.
pub record Gcm : Type 0 where
  pub nonce_size : ℕ
  pub seal : Bytes → Bytes → Bytes
  pub open_sealed : Bytes → Bytes → Option Bytes
  pub open-seal : (nonce text : Bytes) → open_sealed nonce (seal nonce text) ≡ some text

module _ (base64 : Base64) where
  module _ (gcm : Gcm) where
    unfoldable pub encrypt : Option Bytes → Bytes → Option Bytes
    encrypt nonce text = if text == [] then some [] else elim nonce [
      | none ↦ none
      | some nonce ↦ some (base64.encode (nonce ++ gcm.seal nonce text))
    ]

    abbrev pub open_data : Bytes → Option Bytes
    open_data combined =
        if ltb (length combined) gcm.nonce_size
        then none
        else gcm.open_sealed (take gcm.nonce_size combined) (drop gcm.nonce_size combined)

    unfoldable pub decrypt : Bytes → Option Bytes
    decrypt cipher =
        if cipher == []
        then some []
        else elim (base64.decode cipher) [ none ↦ none | some combined ↦ open_data combined ]

  -- The encryptor of development.
  unfoldable pub no_op_encrypt : Bytes → Option Bytes
  no_op_encrypt text = if text == [] then some [] else some (base64.encode text)

  unfoldable pub no_op_decrypt : Bytes → Option Bytes
  no_op_decrypt cipher = if cipher == [] then some [] else base64.decode cipher

-- HMAC with the key of the manager.
pub record Hmac : Type 0 where
  pub mac : Bytes → Bytes
  pub length_mac : (b : Bytes) → length (mac b) ≡ 32

module _ (base64 : Base64) (hmac : Hmac) where
  unfoldable pub generate_state : Option Bytes → Option Bytes
  generate_state random = elim random [
    | none ↦ none
    | some bytes ↦ some (base64.encode (bytes ++ hmac.mac bytes))
  ]

  abbrev pub is_signed : Bytes → Bool
  is_signed combined =
      if nat_eq (length combined) 64 then drop 32 combined == hmac.mac (take 32 combined) else false

  unfoldable pub validate_state : Bytes → Bool
  validate_state state = elim (base64.decode state) [
    | none ↦ false
    | some combined ↦ is_signed combined
  ]
