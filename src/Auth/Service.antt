-- ===== src/Auth/Service.antt =====
-- What the handlers of modules/auth/internal/service/service.go share: what `NewAuthService` is
-- given, the JSON objects that go to the outbox, and the step to the next call unless there was an error.
use go_modulith_template.Prelude.{
  ℕ, String, Bool, Option, none, some, List, eq_string, if◌then◌else◌,
}
use go_modulith_template.Auth.Token.{Jose}
use go_modulith_template.Auth.Tables.{User, World, Done, Query, nothing}
use go_modulith_template.Auth.Queries.Users.{store_event}
use go_modulith_template.Auth.Sessions.{Reply, reply, refuse, internal}

pub data Json : Type 0 where
  json_text : String → Json
  json_time : ℕ → Json

abbrev pub Payload : Type 0
Payload = List (String × Json)

-- `marshal` is `json.Marshal`, `hash_token` the SHA-256 in hexadecimal, `lower` the function of SQL.
pub record Service : Type 0 where
  pub jose : Jose
  pub hash_token : String → String
  pub marshal : Payload → Option String
  pub lower : String → String
  pub env : String
  pub has_outbox : Bool
  pub has_queue : Bool

-- What one request reads of the clock: at the request, at the INSERT of its event and at its two
-- tokens. `event_id` is the id that `Store` makes of the clock.
pub record Moment : Type 0 where
  pub now : ℕ
  pub stored_at : ℕ
  pub event_id : String
  pub access_at : ℕ
  pub refresh_at : ℕ

-- `if s.outboxRepo != nil` with `Store` in the transaction.
unfoldable pub store_payload : Service → Moment → String → Payload → Query Done
store_payload svc m name payload =
    if svc.has_outbox
    then (elim (svc.marshal payload) [
      | none ↦ λ w. (none, w)
      | some text ↦ store_event m.stored_at m.event_id name text
    ])
    else nothing

-- The `Success` and the `Message` of an answer.
pub record Answer : Type 0 where
  pub success : Bool
  pub message : String

-- `if err != nil { return nil, err }`.
abbrev pub and_then :
    {A B : Type 0} → Reply A × World → (A → World → Reply B × World) → Reply B × World
and_then (refuse code, w) f = (refuse code, w)
and_then (reply a, w) f = f a w

abbrev pub answered : {A : Type 0} → Answer → Option A × World → Reply Answer × World
answered a (none, w) = (refuse internal, w)
answered a (some _, w) = (reply a, w)

-- The message of a user, an empty text for NULL; its times are left out.
pub record ProtoUser : Type 0 where
  pub id : String
  pub email : String
  pub phone : String
  pub display_name : String
  pub avatar_url : String
  pub timezone : String
  pub email_verified : Bool
  pub phone_verified : Bool

abbrev pub or_empty : Option String → String
or_empty none = ""
or_empty (some s) = s

unfoldable pub user_to_proto : User → ProtoUser
user_to_proto u = record {
  id = u.id;
  email = or_empty u.email;
  phone = or_empty u.phone;
  display_name = or_empty u.display_name;
  avatar_url = or_empty u.avatar_url;
  timezone = or_empty u.timezone;
  email_verified = u.email_verified;
  phone_verified = u.phone_verified;
}

-- The user that was just written: any error is an internal one.
abbrev pub fetched : Option (Option User) × World → Reply ProtoUser × World
fetched (none, w) = (refuse internal, w)
fetched (some none, w) = (refuse internal, w)
fetched (some (some u), w) = (reply (user_to_proto u), w)
