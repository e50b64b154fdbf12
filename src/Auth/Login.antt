-- ===== src/Auth/Login.antt =====
-- Login by a magic code and registration, in modules/auth/internal/service/service.go. Exactly one of
-- `email` and `phone` is set where the validation interceptor ran; the handlers do not rely on it. The
-- cookies of the answer, audit, metrics, tracing and logging are left out.
pub mod Stored
pub mod Requested
pub mod Verified
pub mod Spent
pub mod Rows
pub mod Registered
pub mod Tests
use go_modulith_template.Prelude.{
  ℕ, ◌+◌, ◌*◌, String, Bool, true, false, not, ◌&&◌, Option, none, some, List, [], ◌∷◌, ◌==◌,
  eq_string, if◌then◌else◌,
}
use go_modulith_template.Auth.Token.{second, create_token}
use go_modulith_template.Auth.Tables.{User, MagicCode, World, Done, done, Query, with_tx, ◌>>◌}
use go_modulith_template.Auth.Queries.Sessions.{create_session}
use go_modulith_template.Auth.Queries.Users.{
  create_user, get_user_by_id, get_user_by_email, get_user_by_phone, update_user_profile,
  get_user_role, or_user, assign_role, create_magic_code, get_valid_magic_code_by_email,
  get_valid_magic_code_by_phone, invalidate_magic_codes,
}
use go_modulith_template.Auth.Sessions.{
  Code, invalid_argument, unauthenticated, not_found, already_exists, internal, Reply, reply,
  refuse, Pair,
}
use go_modulith_template.Auth.Service.{
  json_text, json_time, Payload, Service, Moment, store_payload, Answer, and_then, answered,
  ProtoUser, fetched,
}

-- By the email, or by the phone where there is no email.
unfoldable pub lookup_user : String → String → Query (Option User)
lookup_user email phone = if email == "" then get_user_by_phone phone else get_user_by_email email

-- An error of the database counts as no user.
abbrev pub is_found : Option (Option User) → Bool
is_found none = false
is_found (some none) = false
is_found (some (some _)) = true

unfoldable pub check_user_exists : String → String → World → Bool × World
check_user_exists email phone w =
    let found = lookup_user email phone w in (is_found found.0, found.1)

abbrev pub code_sent : Answer
code_sent = record {
  success = true;
  message = "If an account exists with this email, you will receive a verification code";
}

abbrev pub checked_code : Option (Option MagicCode) × World → Reply Done × World
checked_code (none, w) = (refuse internal, w)
checked_code (some none, w) = (refuse unauthenticated, w)
checked_code (some (some _), w) = (reply done, w)

abbrev pub found_user : Option (Option User) × World → Reply User × World
found_user (none, w) = (refuse internal, w)
found_user (some none, w) = (refuse not_found, w)
found_user (some (some u), w) = (reply u, w)

unfoldable pub get_or_create_user : String → String → World → Reply User × World
get_or_create_user email phone w = found_user (lookup_user email phone w)

-- The names and documents of a registration.
pub record Details : Type 0 where
  pub display_name : String
  pub nationality : String
  pub document_type : String
  pub document_number : String

module _ (svc : Service) where
  abbrev pub code_payload : String → String → String → String → Payload
  code_payload email phone code locale =
      ("email", json_text email)
      ∷ ("phone", json_text phone)
      ∷ ("code", json_text code)
      ∷ ("locale", json_text locale)
      ∷ []

  unfoldable pub request_login_tx : Moment → String → String → String → String → Query Done
  request_login_tx m code locale email phone =
      create_magic_code code email phone (m.now + 15 * 60 * second)
      >> store_payload svc m "notifier.magic_code_requested" (code_payload email phone code locale)

  -- `code` is what `generateRandomCode` returns, `locale` what is detected.
  unfoldable pub request_login :
      Moment → Option String → String → String → String → World → Reply Answer × World
  request_login m code locale email phone w =
      let exists = check_user_exists email phone w in
      elim exists.0 [
        | false ↦ (reply code_sent, exists.1)
        | true ↦ elim code [
          | none ↦ (refuse internal, exists.1)
          | some code ↦
              answered code_sent (with_tx (request_login_tx m code locale email phone) exists.1)
        ]
      ]

  unfoldable pub verify_login_request : ℕ → String → String → String → World → Reply Done × World
  verify_login_request now email phone code w =
      if email == "" && phone == ""
      then (refuse invalid_argument, w)
      else if code == "000000" && svc.env == "dev"
      then (reply done, w)
      else if email == ""
      then checked_code (get_valid_magic_code_by_phone now phone code w)
      else checked_code (get_valid_magic_code_by_email now email code w)

  abbrev pub login_payload : Moment → User → String → String → Payload
  login_payload m u email phone =
      ("user_id", json_text u.id)
      ∷ ("email", json_text email)
      ∷ ("phone", json_text phone)
      ∷ ("login_method", json_text "magic_code")
      ∷ ("timestamp", json_time m.now)
      ∷ []

  unfoldable pub complete_login_tx : Moment → User → String → String → Query Done
  complete_login_tx m u email phone =
      invalidate_magic_codes email phone
      >> store_payload svc m "auth.user.logged_in" (login_payload m u email phone)

  -- Neither a failure to read the role nor one to create the session is more than logged.
  unfoldable pub generate_login_response : Moment → User → World → Reply Pair × World
  generate_login_response m u w =
      let role = get_user_role u.id w in
      elim (create_token svc.jose m.access_at u.id (or_user role.0) (3600 * second)) [
        | none ↦ (refuse internal, role.1)
        | some (access, _) ↦
            elim (create_token svc.jose m.refresh_at u.id (or_user role.0) (24 * 3600 * second)) [
              | none ↦ (refuse internal, role.1)
              | some (refresh, jti) ↦ (
                reply (record { access_token = access; refresh_token = refresh }),
                (create_session
                    (record {
                      id = jti;
                      user_id = u.id;
                      refresh_token_hash = svc.hash_token refresh;
                      last_active_at = m.now;
                      expires_at = m.now + 24 * 3600 * second;
                      revoked_at = none;
                    })
                    role.1).1,
              )
            ]
      ]

  -- The result of the transaction is only logged.
  unfoldable pub complete_login : Moment → String → String → String → World → Reply Pair × World
  complete_login m email phone code w =
      and_then (verify_login_request m.now email phone code w) (λ _ w.
        and_then (get_or_create_user email phone w)
          (λ u w. generate_login_response m u (with_tx (complete_login_tx m u email phone) w).1))

  abbrev pub registered_payload : String → String → String → Details → Payload
  registered_payload id email phone d =
      ("user_id", json_text id)
      ∷ ("email", json_text email)
      ∷ ("phone", json_text phone)
      ∷ ("display_name", json_text d.display_name)
      ∷ ("nationality", json_text d.nationality)
      ∷ ("document_type", json_text d.document_type)
      ∷ ("document_number", json_text d.document_number)
      ∷ []

  unfoldable pub register_tx : Moment → String → String → String → Details → Query Done
  register_tx m id email phone d =
      create_user id email phone
      >> update_user_profile id d.display_name "" ""
      >> assign_role svc.lower id "user"
      >> store_payload svc m "auth.user.registered" (registered_payload id email phone d)

  -- `id` is what `typeid.WithPrefix` returns.
  unfoldable pub register :
      Moment → Option String → String → String → Details → World → Reply ProtoUser × World
  register m id email phone d w =
      let exists = check_user_exists email phone w in
      if exists.0 then (refuse already_exists, exists.1) else elim id [
        | none ↦ (refuse internal, exists.1)
        | some id ↦
            let stored = with_tx (register_tx m id email phone d) exists.1 in
            elim stored.0 [
              | none ↦ (refuse internal, stored.1)
              | some _ ↦ fetched (get_user_by_id id stored.1)
            ]
      ]
