-- ===== src/Auth/Profile.antt =====
-- The profile, its contacts and its linked accounts, in modules/auth/internal/service/service.go.
-- `user` is the user that the interceptor authenticated. Audit, tracing and logging are left out.
pub mod Unlink
pub mod LastMethod
pub mod Tests
use go_modulith_template.Prelude.{
  ℕ, ◌+◌, ◌*◌, String, Bool, true, false, not, ◌&&◌, Option, none, some, List, [], ◌∷◌, map, leb,
  ◌==◌, eq_string, if◌then◌else◌,
}
use go_modulith_template.Auth.Token.{second}
use go_modulith_template.Auth.Tables.{
  User, ExternalAccount, World, Done, done, Query, with_tx, ◌>>◌,
}
use go_modulith_template.Auth.Queries.Users.{
  get_user_by_id, update_user_profile, mark_email_verified,
}
use go_modulith_template.Auth.Queries.Accounts.{
  create_pending_contact_change, get_external_accounts_by_user_id,
  count_external_accounts_by_user_id, delete_external_account_by_provider,
}
use go_modulith_template.Auth.Sessions.{
  Code, invalid_argument, unauthenticated, not_found, failed_precondition, unimplemented, internal,
  Reply, reply, refuse, or_internal,
}
use go_modulith_template.Auth.Service.{
  json_text, Payload, Service, Moment, store_payload, Answer, or_empty, and_then, answered,
  ProtoUser, user_to_proto, fetched,
}

abbrev pub get_user_id_from_context : Option String → World → Reply String × World
get_user_id_from_context none w = (refuse unauthenticated, w)
get_user_id_from_context (some user) w = (reply user, w)

abbrev pub profile_of : Option (Option User) × World → Reply ProtoUser × World
profile_of (none, w) = (refuse internal, w)
profile_of (some none, w) = (refuse not_found, w)
profile_of (some (some u), w) = (reply (user_to_proto u), w)

unfoldable pub get_profile : Option String → World → Reply ProtoUser × World
get_profile user w =
    and_then (get_user_id_from_context user w) (λ id w. profile_of (get_user_by_id id w))

unfoldable pub update_profile :
    Option String → String → String → String → World → Reply ProtoUser × World
update_profile user name avatar timezone w = and_then (get_user_id_from_context user w) (λ id w.
    let updated = update_user_profile id name avatar timezone w in
    elim updated.0 [
      | none ↦ (refuse internal, updated.1)
      | some _ ↦ fetched (get_user_by_id id updated.1)
    ])

-- The dummy verification, a second later; only the error of the UPDATE comes back.
unfoldable pub handle_email_verification_requested : String → Query Done
handle_email_verification_requested id = mark_email_verified id

-- A task for the queue.
pub record Task : Type 0 where
  pub name : String
  pub payload : String

abbrev pub row_or_internal : Option (Option User) × World → Reply User × World
row_or_internal (none, w) = (refuse internal, w)
row_or_internal (some none, w) = (refuse internal, w)
row_or_internal (some (some u), w) = (reply u, w)

module _ (svc : Service) where
  abbrev pub verification_payload : User → Payload
  verification_payload u =
      ("user_id", json_text u.id)
      ∷ ("email", json_text (elim u.email [ none ↦ "" | some e ↦ e ]))
      ∷ []

  -- An error of `Enqueue` is only logged; the answer has the task that goes to it.
  abbrev pub verification_of : User → Answer × Option Task
  verification_of u =
      if u.email_verified
      then (record { success = true; message = "Email already verified" }, none)
      else (
        record { success = true; message = "Verification email sent" },
        if svc.has_queue
            then (elim (svc.marshal (verification_payload u)) [
              | none ↦ none
              | some text ↦
                  some (record { name = "auth.email_verification_requested"; payload = text })
            ])
            else none,
      )

  unfoldable pub request_email_verification :
      Option String → World → Reply (Answer × Option Task) × World
  request_email_verification user w = and_then (get_user_id_from_context user w) (λ id w.
      and_then (row_or_internal (get_user_by_id id w)) (λ u w. (reply (verification_of u), w)))

  -- `kind` is "email" or "phone".
  unfoldable pub change_tx : Moment → String → String → String → String → String → Query Done
  change_tx m kind user value code id =
      create_pending_contact_change (record {
        id = id;
        user_id = user;
        change_type = kind;
        new_value = value;
        verification_code = code;
        expires_at = m.now + 15 * 60 * second;
      })
      >> store_payload svc m "notifier.magic_code_requested"
          ((kind, json_text value) ∷ ("code", json_text code) ∷ [])

  -- What `ChangeEmail` and `ChangePhone` have in common; `code` and `id` are what the generators return.
  unfoldable pub change_contact :
      Moment
      → String
      → String
      → Option String
      → String
      → Option String
      → Option String
      → World
      → Reply Answer × World
  change_contact m kind message user value code id w =
      and_then (get_user_id_from_context user w) (λ user w.
        if value == "" then (refuse invalid_argument, w) else elim code [
          | none ↦ (refuse internal, w)
          | some code ↦ elim id [
            | none ↦ (refuse internal, w)
            | some id ↦
                answered (record { success = true; message = message })
                  (with_tx (change_tx m kind user value code id) w)
          ]
        ])

  unfoldable pub change_email :
      Moment → Option String → String → Option String → Option String → World → Reply Answer × World
  unfolding change_contact
  change_email m = change_contact m "email" "Verification code sent to new email"

  unfoldable pub change_phone :
      Moment → Option String → String → Option String → Option String → World → Reply Answer × World
  unfolding change_contact
  change_phone m = change_contact m "phone" "Verification code sent to new phone"

-- `column.Valid && column.String != ""`.
abbrev pub has_text : Option String → Bool
has_text none = false
has_text (some s) = not (s == "")

abbrev pub unlinked : Answer
unlinked = record { success = true; message = "External account unlinked successfully" }

-- From the count on. The branch of `ErrNoRows` is not there: the DELETE does not return it.
abbrev pub unlink_counted : String → String → User → Option ℕ × World → Reply Answer × World
unlink_counted id provider u (none, w) = (refuse internal, w)
unlink_counted id provider u (some n, w) =
    if not (has_text u.email) && not (has_text u.phone) && leb n 1
    then (refuse failed_precondition, w)
    else answered unlinked (delete_external_account_by_provider id provider w)

unfoldable pub unlink_external_account : Option String → String → World → Reply Answer × World
unlink_external_account user provider w = and_then (get_user_id_from_context user w) (λ id w.
    if provider == ""
    then (refuse invalid_argument, w)
    else and_then (row_or_internal (get_user_by_id id w))
        (λ u w. unlink_counted id provider u (count_external_accounts_by_user_id id w)))

-- The message of an account: its tokens stay behind.
pub record LinkedAccount : Type 0 where
  pub id : String
  pub provider : String
  pub provider_user_id : String
  pub email : String
  pub name : String
  pub avatar_url : String
  pub linked_at : ℕ

abbrev pub linked_account : ExternalAccount → LinkedAccount
linked_account a = record {
  id = a.id;
  provider = a.provider;
  provider_user_id = a.provider_user_id;
  email = or_empty a.email;
  name = or_empty a.name;
  avatar_url = or_empty a.avatar_url;
  linked_at = a.created_at;
}

abbrev pub linked_accounts :
    Option (List ExternalAccount) × World → Reply (List LinkedAccount) × World
linked_accounts (none, w) = (refuse internal, w)
linked_accounts (some accounts, w) = (reply (map linked_account accounts), w)

unfoldable pub list_linked_accounts : Option String → World → Reply (List LinkedAccount) × World
list_linked_accounts user w =
    and_then (get_user_id_from_context user w)
      (λ id w. linked_accounts (get_external_accounts_by_user_id id w))
