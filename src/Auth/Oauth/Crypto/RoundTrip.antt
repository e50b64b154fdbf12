-- ===== src/Auth/Oauth/Crypto/RoundTrip.antt =====
-- What is encrypted is decrypted, and the signed states are those that the manager makes.
use go_modulith_template.Prelude.{
  ◌≡◌, ◌≢◌, ◌∙◌, ◌↔◌, refl, sym, ap, subst, inl, inr, ◌<◌, true, false, some, [], ◌∷◌, ◌++◌, length,
  take, drop, take_left-append, drop_left-append, take-drop, length-take, length-append, ltb,
  nat_eq, nat_eq_iff, ◌==◌, Bytes, bytes_beq_iff, eq_bytes, Bool-cases, Option-cases, arith,
}
use go_modulith_template.Auth.Oauth.Crypto.{
  Base64, Gcm, encrypt, open_data, decrypt, no_op_encrypt, no_op_decrypt, Hmac, generate_state,
  is_signed, validate_state,
}

bytes_same : (b : Bytes) → (b == b) ≡ true
bytes_same b = (bytes_beq_iff b b).1 refl

module _ (base64 : Base64) where
  not_empty : (b : Bytes) → b ≢ [] → (base64.encode b == []) ≡ false
  not_empty b h = elim (Bool-cases (base64.encode b == [])) [
    | inl e ↦ absurd (h (base64.encode_empty b ((bytes_beq_iff (base64.encode b) []).0 e)))
    | inr e ↦ e
  ]

  open_data_sealed :
      (gcm : Gcm) (nonce text : Bytes)
      → length nonce ≡ gcm.nonce_size
      → open_data base64 gcm (nonce ++ gcm.seal nonce text) ≡ some text
  open_data_sealed gcm nonce text size =
      let long : ltb (length (nonce ++ gcm.seal nonce text)) gcm.nonce_size ≡ false =
        ground (arith, length-append nonce (gcm.seal nonce text), size) in
      rw long (
        subst
          (λ n.
            gcm.open_sealed (take n (nonce ++ gcm.seal nonce text))
              (drop n (nonce ++ gcm.seal nonce text))
            ≡ some text)
          size
          (rw
            (
              take_left-append nonce (gcm.seal nonce text),
              drop_left-append nonce (gcm.seal nonce text),
            )
            (gcm.open-seal nonce text)))

  -- A token that is encrypted with a nonce of the right size decrypts to itself, the empty one too.
  pub decrypt-encrypt :
      (gcm : Gcm) (nonce text : Bytes)
      → length nonce ≡ gcm.nonce_size
      → 0 < gcm.nonce_size
      → (cipher : Bytes) × (encrypt base64 gcm (some nonce) text ≡ some cipher)
        × (decrypt base64 gcm cipher ≡ some text)
  unfolding encrypt decrypt
  decrypt-encrypt gcm nonce [] size some_nonce = ([], refl, refl)
  decrypt-encrypt gcm nonce (x ∷ text) size some_nonce =
      let combined = nonce ++ gcm.seal nonce (x ∷ text) in
      let kept : combined ≢ [] = λ e.
        ground
          (arith, ap length e, length-append nonce (gcm.seal nonce (x ∷ text)), size, some_nonce) in
      (
        base64.encode combined,
        refl,
        rw (not_empty combined kept, base64.decode-encode combined)
            (open_data_sealed gcm nonce (x ∷ text) size),
      )

  no_op_decrypt-no_op_encrypt :
      (text : Bytes)
      → (cipher : Bytes) × (no_op_encrypt base64 text ≡ some cipher)
        × (no_op_decrypt base64 cipher ≡ some text)
  unfolding no_op_encrypt no_op_decrypt
  no_op_decrypt-no_op_encrypt [] = ([], refl, refl)
  no_op_decrypt-no_op_encrypt (x ∷ text) =
      let kept : (x ∷ text) ≢ [] = λ e. ground (arith, e) in
      (
        base64.encode (x ∷ text),
        refl,
        rw (not_empty (x ∷ text) kept) (base64.decode-encode (x ∷ text)),
      )

  -- A signed text: 32 bytes with their code.
  abbrev pub IsSigned : Hmac → Bytes → Type 0
  IsSigned hmac combined =
      (random : Bytes) × (length random ≡ 32) × (combined ≡ random ++ hmac.mac random)

  is_signed_sound :
      (hmac : Hmac) (combined : Bytes)
      → is_signed base64 hmac combined ≡ true
      → IsSigned hmac combined
  is_signed_sound hmac combined = elim (Bool-cases (nat_eq (length combined) 64)) [
    | inr e ↦ rw e (λ h. absurd (ground (arith, h)))
    | inl e ↦ rw e (λ h.
        let size = (nat_eq_iff (length combined) 64).0 e in
        let same = (bytes_beq_iff (drop 32 combined) (hmac.mac (take 32 combined))).0 h in
        (
          take 32 combined,
          length-take 32 combined (omega (arith, size)),
          sym (take-drop 32 combined) ∙ ap (λ s. take 32 combined ++ s) same,
        ))
  ]

  is_signed_complete :
      (hmac : Hmac) (random : Bytes)
      → length random ≡ 32
      → is_signed base64 hmac (random ++ hmac.mac random) ≡ true
  is_signed_complete hmac random size =
      let long : nat_eq (length (random ++ hmac.mac random)) 64 ≡ true =
        ground (arith, length-append random (hmac.mac random), size, hmac.length_mac random) in
      rw long (
        subst
          (λ n.
            (drop n (random ++ hmac.mac random) == hmac.mac (take n (random ++ hmac.mac random)))
            ≡ true)
          size
          (rw (take_left-append random (hmac.mac random), drop_left-append random (hmac.mac random))
            (bytes_same (hmac.mac random))))

  -- A state is valid exactly when it decodes to 32 bytes followed by their code, which is how
  -- `GenerateState` makes one.
  pub validate_state_iff :
      (hmac : Hmac) (state : Bytes)
      → (validate_state base64 hmac state ≡ true)
        ↔ ((combined : Bytes) × (base64.decode state ≡ some combined) × IsSigned hmac combined)
  unfolding validate_state
  validate_state_iff hmac state = elim (Option-cases (base64.decode state)) [
    | inl e ↦
        rw (e, validate_state)
          ((λ h. absurd (ground (arith, h))), (λ (c, h, _). absurd (ground (arith, h))))
    | inr (combined, e) ↦
        rw (e, validate_state)
          (
            (λ h. (combined, refl, is_signed_sound hmac combined h)),
            (λ (c, h, (random, size, is)).
                let same : combined ≡ c = cc h in
                subst (λ b. is_signed base64 hmac b ≡ true) (sym (same ∙ is))
                  (is_signed_complete hmac random size)),
          )
  ]

  validate_state-generate_state :
      (hmac : Hmac) (random : Bytes)
      → length random ≡ 32
      → (state : Bytes) × (generate_state base64 hmac (some random) ≡ some state)
        × (validate_state base64 hmac state ≡ true)
  unfolding generate_state
  validate_state-generate_state hmac random size = (
    base64.encode (random ++ hmac.mac random),
    refl,
    (validate_state_iff hmac (base64.encode (random ++ hmac.mac random))).1 (
      random ++ hmac.mac random,
      base64.decode-encode (random ++ hmac.mac random),
      (random, size, refl),
    ),
  )
