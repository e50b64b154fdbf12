-- ===== src/Auth/Login/Tests.antt =====
-- The properties of login at a table with one user and one code.
use go_modulith_template.Prelude.{
  ◌≡◌, ◌⊎◌, refl, String, true, false, none, some, [], ◌∷◌, In, any, eq_string, string_ne,
}
use go_modulith_template.Auth.Token.{create_token}
use go_modulith_template.Auth.Tables.{calm, User, Role, Db, World, with_tx, tx_control, statement}
use go_modulith_template.Auth.Queries.Sessions.{create_session}
use go_modulith_template.Auth.Queries.Users.{
  new_user, conflicts, get_user_by_email, get_user_role, get_valid_magic_code_by_email,
  invalidate_magic_codes, store_event,
}
use go_modulith_template.Auth.Sessions.{reply, refuse, internal, Pair}
use go_modulith_template.Auth.Sessions.Rotation.{IsRefused}
use go_modulith_template.Auth.Service.{Service, Moment, store_payload, user_to_proto}
use go_modulith_template.Auth.Login.{
  code_sent, code_payload, lookup_user, get_or_create_user, verify_login_request, complete_login_tx,
  generate_login_response, complete_login, request_login, Details, registered_payload, register,
}
use go_modulith_template.Auth.Login.Requested.{requested, request_login_atomic, request_login-calm}
use go_modulith_template.Auth.Login.Verified.{
  contact_is, IsValidCode, IsBypass, IsPairFor, complete_login_verified,
}
use go_modulith_template.Auth.Login.Spent.{complete_login_once}
use go_modulith_template.Auth.Login.Rows.{IsRoleNamed, row_of}
use go_modulith_template.Auth.Login.Registered.{registered, register_atomic}
use go_modulith_template.Auth.Tests.{trusting, hash, tables}
use go_modulith_template.Outbox.{store}

abbrev service : Service
service = record {
  jose = trusting;
  hash_token = hash;
  marshal = λ _. some "{}";
  lower = λ s. s;
  env = "prod";
  has_outbox = true;
  has_queue = true;
}

abbrev moment : Moment
moment = record { now = 5; stored_at = 5; event_id = "outbox_5"; access_at = 6; refresh_at = 7 }

abbrev with_user : Db
with_user = record tables {
  users = record (new_user "a" "a@x" "") { email_verified = true } ∷ [];
  roles = record { id = "r"; name = "user"; deleted = false } ∷ [];
  magic_codes =
      record { code = "123456"; user_email = some "a@x"; user_phone = none; expires_at = 9 } ∷ [];
}

abbrev pair : Pair
pair = record { access_token = "1-a"; refresh_token = "1-a" }

logged_in : (complete_login service moment "a@x" "" "123456" (calm with_user)).0 ≡ reply pair
unfolding complete_login verify_login_request get_valid_magic_code_by_email statement
    get_or_create_user lookup_user get_user_by_email generate_login_response get_user_role
    create_token with_tx tx_control complete_login_tx invalidate_magic_codes store_payload
    store_event store create_session
logged_in = refl

complete_login_verified_example :
    (IsBypass service "123456" ⊎ IsValidCode 5 "a@x" "" "123456" with_user.magic_codes)
    × ((u : User) × In u with_user.users
        × (contact_is "a@x" "" u.email u.phone ≡ true)
        × IsPairFor service moment u pair)
complete_login_verified_example =
    complete_login_verified service moment "a@x" "" "123456" (calm with_user) pair logged_in

complete_login_once_example :
    IsRefused
      (complete_login service moment "a@x" "" "123456" (record {
        db = (complete_login service moment "a@x" "" "123456" (calm with_user)).1.db;
        faults = false ∷ true ∷ [];
      })).0
complete_login_once_example =
    complete_login_once service moment moment "a@x" "" "123456" "123456" with_user
      (false ∷ true ∷ []) pair refl (λ _. ("{}", refl)) refl logged_in
      (λ bypass. string_ne "123456" "000000" refl bypass.0)

request_login_atomic_example :
    let w : World = record { db = with_user; faults = false ∷ false ∷ false ∷ true ∷ [] } in
    let x = request_login service moment (some "654321") "en" "a@x" "" w in
    (x.1.db ≡ with_user)
    ⊎ ((c : String) × (text : String) × (some "654321" ≡ some c)
        × (service.marshal (code_payload service "a@x" "" c "en") ≡ some text)
        × (x.0 ≡ reply code_sent)
        × (x.1.db ≡ requested service moment c "a@x" "" text with_user))
request_login_atomic_example =
    request_login_atomic service moment (some "654321") "en" "a@x" ""
      (record { db = with_user; faults = false ∷ false ∷ false ∷ true ∷ [] }) refl

request_login-calm_example :
    (request_login service moment (some "654321") "en" "a@x" "" (calm with_user)).0
    ≡ reply code_sent
request_login-calm_example =
    request_login-calm service moment "654321" "en" "a@x" "" "{}" with_user refl refl refl

abbrev details : Details
details = record {
  display_name = "Bea";
  nationality = "x";
  document_type = "y";
  document_number = "z";
}

register_atomic_example :
    let x = register service moment (some "b") "b@x" "" details (calm with_user) in
    (IsRefused x.0 × (x.1.db ≡ with_user))
    ⊎ ((i : String) × (r : Role) × (text : String) × (some "b" ≡ some i)
        × (any (conflicts (new_user i "b@x" "")) with_user.users ≡ false)
        × IsRoleNamed service.lower "user" with_user r
        × (service.marshal (registered_payload service i "b@x" "" details) ≡ some text)
        × ((x.0 ≡ reply (user_to_proto (row_of i "b@x" "" "Bea"))) ⊎ (x.0 ≡ refuse internal))
        × (x.1.db ≡ registered service moment i "b@x" "" details r text with_user))
register_atomic_example =
    register_atomic service moment (some "b") "b@x" "" details (calm with_user) refl
