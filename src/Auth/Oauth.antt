-- ===== src/Auth/Oauth.antt =====
-- Login and linking by an OAuth provider: modules/auth/internal/service/oauth.go and the handler and
-- the state tokens of internal/oauth. The provider's library (goth), the cipher, HMAC and base64 are
-- parameters; redirects are the outcome that they carry. The raw data of a profile and
-- the first and last names, which nothing reads, are left out.
pub mod Owners
pub mod Kept
pub mod Quiet
pub mod Granting
pub mod State
pub mod Crypto
pub mod Tests
use go_modulith_template.Prelude.{
  ℕ, ◌+◌, ◌*◌, String, Bool, true, false, not, ◌&&◌, Option, none, some, ◌==◌, eq_string,
  if◌then◌else◌,
}
use go_modulith_template.Auth.Token.{second, Jose, create_token}
use go_modulith_template.Auth.Tables.{
  User, ExternalAccount, OauthState, World, Done, done, Query, nullable, ◌>>◌,
}
use go_modulith_template.Auth.Queries.Users.{get_user_by_email}
use go_modulith_template.Auth.Queries.Accounts.{
  create_external_account, get_external_account, update_external_account_tokens,
  update_external_account_profile, create_oauth_state, get_oauth_state, delete_oauth_state,
}

pub record UserInfo : Type 0 where
  pub provider : String
  pub provider_user_id : String
  pub email : String
  pub name : String
  pub avatar_url : String
  pub access_token : String
  pub refresh_token : String
  pub expires_at : Option ℕ

-- `StateAction` is a text.
abbrev pub action_login : String
action_login = "login"

abbrev pub action_link : String
action_link = "link"

pub record StateData : Type 0 where
  pub state : String
  pub provider : String
  pub redirect_url : String
  pub user_id : String
  pub action : String
  pub expires_at : ℕ

-- `Result`; its `ExpiresIn` and `IsNewUser` are constants.
pub record Granted : Type 0 where
  pub access_token : String
  pub refresh_token : String
  pub user_id : String

-- What the errors say.
pub data OauthError : Type 0 where
  check_failed link_failed token_failed account_not_found linked_to_another : OauthError

pub data Outcome : Type 0 where
  granted : Granted → Outcome
  failed : OauthError → Outcome

-- What `NewOAuthService` is given: `encrypt` is that of the `TokenEncryptor`.
pub record OauthService : Type 0 where
  pub jose : Jose
  pub encrypt : String → Option String
  pub auto_link_email : Bool

-- What a callback reads of the clock and of the generator of ids.
pub record Moment : Type 0 where
  pub now : ℕ
  pub account_id : Option String
  pub access_at : ℕ
  pub refresh_at : ℕ

module _ (svc : OauthService) where
  -- The tokens, each encrypted.
  abbrev pub encrypt_tokens : UserInfo → Option (String × String)
  encrypt_tokens info = elim (svc.encrypt info.access_token) [
    | none ↦ none
    | some access ↦ elim (svc.encrypt info.refresh_token) [
      | none ↦ none
      | some refresh ↦ some (access, refresh)
    ]
  ]

  abbrev pub account_of : Moment → String → String → UserInfo → String × String → ExternalAccount
  account_of m id user info (access, refresh) = record {
    id = id;
    user_id = user;
    provider = info.provider;
    provider_user_id = info.provider_user_id;
    email = nullable info.email;
    name = nullable info.name;
    avatar_url = nullable info.avatar_url;
    access_token = nullable access;
    refresh_token = nullable refresh;
    token_expires_at = info.expires_at;
    created_at = m.now;
  }

  unfoldable pub create_account : Moment → String → UserInfo → Query Done
  create_account m user info w = elim m.account_id [
    | none ↦ (none, w)
    | some id ↦ elim (encrypt_tokens info) [
      | none ↦ (none, w)
      | some tokens ↦ create_external_account (account_of m id user info tokens) w
    ]
  ]

  unfoldable pub update_account : UserInfo → Query Done
  update_account info w = elim (encrypt_tokens info) [
    | none ↦ (none, w)
    | some (access, refresh) ↦
        (update_external_account_tokens info.provider info.provider_user_id access refresh
              info.expires_at
            >> update_external_account_profile info.provider info.provider_user_id info.name
                info.avatar_url info.email)
          w
  ]

  unfoldable pub generate_tokens_for_user : Moment → String → Outcome
  generate_tokens_for_user m user =
      elim (create_token svc.jose m.access_at user "user" (3600 * second)) [
        | none ↦ failed token_failed
        | some (access, _) ↦
            elim (create_token svc.jose m.refresh_at user "user" (24 * 3600 * second)) [
              | none ↦ failed token_failed
              | some (refresh, _) ↦
                  granted
                    (record { access_token = access; refresh_token = refresh; user_id = user })
            ]
      ]

  -- The link that a login by email makes, or that a user asks for.
  abbrev pub granted_if : Moment → String → Option Done × World → Outcome × World
  granted_if m user (none, w) = (failed link_failed, w)
  granted_if m user (some _, w) = (generate_tokens_for_user m user, w)

  abbrev pub link_found : Moment → UserInfo → Option (Option User) × World → Outcome × World
  link_found m info (none, w) = (failed check_failed, w)
  link_found m info (some none, w) = (failed account_not_found, w)
  link_found m info (some (some u), w) = granted_if m u.id (create_account m u.id info w)

  -- The result of the update is only logged.
  abbrev pub login_found :
      Moment → UserInfo → Option (Option ExternalAccount) × World → Outcome × World
  login_found m info (none, w) = (failed check_failed, w)
  login_found m info (some (some a), w) =
      (generate_tokens_for_user m a.user_id, (update_account info w).1)
  login_found m info (some none, w) =
      if svc.auto_link_email && not (info.email == "")
      then link_found m info (get_user_by_email info.email w)
      else (failed account_not_found, w)

  unfoldable pub handle_login : Moment → UserInfo → World → Outcome × World
  handle_login m info w =
      login_found m info (get_external_account info.provider info.provider_user_id w)

  abbrev pub linking_found :
      Moment → UserInfo → String → Option (Option ExternalAccount) × World → Outcome × World
  linking_found m info user (none, w) = (failed check_failed, w)
  linking_found m info user (some none, w) = granted_if m user (create_account m user info w)
  linking_found m info user (some (some a), w) =
      if a.user_id == user
      then granted_if m user (update_account info w)
      else (failed linked_to_another, w)

  unfoldable pub handle_account_linking : Moment → UserInfo → String → World → Outcome × World
  handle_account_linking m info user w =
      linking_found m info user (get_external_account info.provider info.provider_user_id w)

  unfoldable pub handle_oauth_callback : Moment → UserInfo → StateData → World → Outcome × World
  handle_oauth_callback m info state w =
      if state.action == action_link
      then handle_account_linking m info state.user_id w
      else handle_login m info w
