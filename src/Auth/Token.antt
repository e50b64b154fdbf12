-- ===== src/Auth/Token.antt =====
-- internal/authtoken/jose.go: tokens over the JOSE library, which is a parameter. Times are
-- nanoseconds; the claims hold seconds of the Unix clock, 0 for a token without an expiry.
use Prim.Native.String.{◌++◌}
use go_modulith_template.Prelude.{ℕ, ◌+◌, ◌/◌, String, Bool, Option, none, some, if◌then◌else◌}

abbrev pub second : ℕ
second = 1000000000

pub record Claims : Type 0 where
  pub subject : String
  pub role : String
  pub expires_at : ℕ
  pub not_before : ℕ
  pub id : String

-- `sign` serializes with the private key, `parse` checks the signature, `valid` is
-- `claims.Validate` at a time, and `decimal` prints a number.
pub record Jose : Type 0 where
  pub sign : Claims → Option String
  pub parse : String → Option Claims
  pub valid : ℕ → Claims → Bool
  pub decimal : ℕ → String

-- The token and its id.
unfoldable pub create_token : Jose → ℕ → String → String → ℕ → Option (String × String)
create_token jose now user_id role duration =
    let jti = jose.decimal now ++ ("-" ++ user_id) in
    let claims : Claims = record {
      subject = user_id;
      role = role;
      expires_at = (now + duration) / second;
      not_before = now / second;
      id = jti;
    } in
    elim (jose.sign claims) [ none ↦ none | some raw ↦ some (raw, jti) ]

unfoldable pub verify_token : Jose → ℕ → String → Option Claims
verify_token jose now raw = elim (jose.parse raw) [
  | none ↦ none
  | some claims ↦ if jose.valid now claims then some claims else none
]
