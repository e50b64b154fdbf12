-- ===== src/Auth/Oauth/Tests.antt =====
-- The properties of OAuth at a table with one user, one account and one state, with a cipher that adds nothing.
use go_modulith_template.Prelude.{
  ◌≡◌, ◌≢◌, ◌⊎◌, ◌↔◌, refl, ℕ, ◌<◌, zero, suc, true, false, Option, none, some, [], ◌∷◌, In, Bytes,
  eq_string, arith,
}
use go_modulith_template.Auth.Token.{create_token}
use go_modulith_template.Auth.Tables.{calm, ExternalAccount, OauthState, Db, World, statement}
use go_modulith_template.Auth.Queries.Users.{new_user}
use go_modulith_template.Auth.Queries.Accounts.{
  get_external_account, get_oauth_state, delete_oauth_state, update_external_account_tokens,
  update_external_account_profile,
}
use go_modulith_template.Auth.Oauth.{
  UserInfo, StateData, Granted, OauthService, Moment, update_account, generate_tokens_for_user,
  handle_login, handle_oauth_callback,
}
use go_modulith_template.Auth.Oauth.Owners.{KeepsOwners}
use go_modulith_template.Auth.Oauth.Kept.{handle_oauth_callback_keeps}
use go_modulith_template.Auth.Oauth.Granting.{HasAccount, HasEmail, IsGrantFor}
use go_modulith_template.Auth.Oauth.State.{
  data_of, get_state, delete_state, save_state, bad_state, success, callback,
}
use go_modulith_template.Auth.Oauth.State.Once.{get_state-save_state, callback_once}
use go_modulith_template.Auth.Oauth.State.Admitted.{callback_admitted}
use go_modulith_template.Auth.Oauth.Crypto.{Base64, Gcm, Hmac, encrypt, decrypt, validate_state}
use go_modulith_template.Auth.Oauth.Crypto.RoundTrip.{IsSigned, decrypt-encrypt, validate_state_iff}
use go_modulith_template.Auth.Tests.{trusting, tables}

abbrev service : OauthService
service = record { jose = trusting; encrypt = λ s. some s; auto_link_email = true }

abbrev moment : Moment
moment = record { now = 5; account_id = some "e2"; access_at = 6; refresh_at = 7 }

abbrev info : UserInfo
info = record {
  provider = "google";
  provider_user_id = "g1";
  email = "a@x";
  name = "A";
  avatar_url = "";
  access_token = "t";
  refresh_token = "";
  expires_at = none;
}

abbrev account : ExternalAccount
account = record {
  id = "e1";
  user_id = "a";
  provider = "google";
  provider_user_id = "g1";
  email = none;
  name = none;
  avatar_url = none;
  access_token = none;
  refresh_token = none;
  token_expires_at = none;
  created_at = 1;
}

abbrev state_row : OauthState
state_row = record {
  state = "st";
  provider = "google";
  redirect_url = none;
  user_id = none;
  action = "login";
  expires_at = 9;
}

abbrev linked : Db
linked = record tables {
  users = new_user "a" "a@x" "" ∷ [];
  accounts = account ∷ [];
  states = state_row ∷ [];
}

abbrev fresh : StateData
fresh = record {
  state = "new";
  provider = "google";
  redirect_url = "";
  user_id = "a";
  action = "link";
  expires_at = 9001;
}

abbrev grant : Granted
grant = record { access_token = "1-a"; refresh_token = "1-a"; user_id = "a" }

handle_oauth_callback_keeps_example :
    let w : World = record { db = linked; faults = false ∷ true ∷ [] } in
    KeepsOwners info linked (handle_oauth_callback service moment info fresh w).1.db
handle_oauth_callback_keeps_example =
    handle_oauth_callback_keeps service moment info fresh
      (record { db = linked; faults = false ∷ true ∷ [] })

logged_in :
    (callback service (λ _. true) moment (λ _. some info) "st" (calm linked)).0 ≡ success grant
unfolding callback get_state get_oauth_state statement handle_oauth_callback handle_login
    get_external_account update_account generate_tokens_for_user create_token delete_state
    delete_oauth_state update_external_account_tokens update_external_account_profile
logged_in = refl

callback_admitted_example :
    (true ≡ true)
    × ((s : OauthState) × (i : UserInfo) × In s linked.states
        × (s.state ≡ "st")
        × (moment.now < s.expires_at)
        × (some info ≡ some i)
        × IsGrantFor service moment "a" grant
        × (((s.action ≡ "link") × ("a" ≡ (data_of s).user_id))
            ⊎ ((s.action ≢ "link")
                × (HasAccount i "a" linked ⊎ ((true ≡ true) × HasEmail i "a" linked)))))
callback_admitted_example =
    callback_admitted service (λ _. true) moment (λ _. some info) "st" (calm linked) grant logged_in

callback_once_example :
    (callback service
      (λ _. true)
      moment
      (λ _. some info)
      "st"
      (record {
        db = (callback service (λ _. true) moment (λ _. some info) "st" (calm linked)).1.db;
        faults = true ∷ [];
      })).0
    ≡ bad_state
callback_once_example =
    callback_once service (λ _. true) moment moment (λ _. some info) (λ _. some info) "st" linked
      (true ∷ []) (rw logged_in (λ h. ground (arith, h)))

get_state-save_state_example :
    (get_state 5 "new" (save_state fresh (calm linked)).1).0
    ≡ some (record fresh { expires_at = 9000 })
get_state-save_state_example = get_state-save_state 5 fresh linked refl (omega arith)

-- An encoding that marks a text that is not empty.
abbrev marked : Bytes → Bytes
marked [] = []
marked (x ∷ b) = 0 ∷ x ∷ b

abbrev unmarked : Bytes → Option Bytes
unmarked [] = some []
unmarked (_ ∷ b) = some b

unmarked-marked : (b : Bytes) → unmarked (marked b) ≡ some b
unmarked-marked [] = refl
unmarked-marked (x ∷ b) = refl

marked_empty : (b : Bytes) → marked b ≡ [] → b ≡ []
marked_empty [] h = refl
marked_empty (x ∷ b) h = absurd (ground (arith, h))

abbrev base : Base64
base = record {
  encode = marked;
  decode = unmarked;
  decode-encode = unmarked-marked;
  encode_empty = marked_empty;
}

abbrev plain : Gcm
plain = record {
  nonce_size = 2;
  seal = λ _ text. text;
  open_sealed = λ _ text. some text;
  open-seal = λ _ text. refl;
}

decrypt-encrypt_example :
    (cipher : Bytes) × (encrypt base plain (some (7 ∷ 8 ∷ [])) (1 ∷ []) ≡ some cipher)
    × (decrypt base plain cipher ≡ some (1 ∷ []))
decrypt-encrypt_example = decrypt-encrypt base plain (7 ∷ 8 ∷ []) (1 ∷ []) refl (omega arith)

abbrev zeros : ℕ → Bytes
zeros zero = []
zeros (suc n) = 0 ∷ zeros n

abbrev constant : Hmac
constant = record { mac = λ _. zeros 32; length_mac = λ _. refl }

validate_state_iff_example : (validate_state base constant (0 ∷ zeros 64) ≡ true) ↔ (
    (combined : Bytes) × (base.decode (0 ∷ zeros 64) ≡ some combined)
    × IsSigned base constant combined)
validate_state_iff_example = validate_state_iff base constant (0 ∷ zeros 64)
