-- ===== src/Auth/Oauth/State.antt =====
-- The state store of modules/auth/internal/service/oauth.go over the repository, and the flow of
-- internal/oauth/handler.go. What the request carries, the library of the provider and the check of
-- the signature are parameters; the answer is told by its kind.
pub mod Once
pub mod Admitted
use go_modulith_template.Prelude.{
  ◌≡◌, ◌∙◌, refl, sym, ap, subst, inl, inr, ℕ, ◌+◌, ◌*◌, ◌/◌, ◌<◌, String, Bool, true, false, not,
  ◌&&◌, Option, none, some, List, [], ◌∷◌, ◌++◌, any, find, ltb, ◌==◌, eq_string, if◌then◌else◌,
  Bool-cases, arith,
}
use text.Mathlib.TextEquality.{eq_iff}
use go_modulith_template.Auth.Token.{second}
use go_modulith_template.Auth.Tables.{
  calm, OauthState, Db, World, Done, done, Query, statement, nullable,
}
use go_modulith_template.Auth.Queries.Accounts.{
  insert_state, create_oauth_state, get_oauth_state, delete_oauth_state,
}
use go_modulith_template.Auth.Service.{or_empty}
use go_modulith_template.Auth.Oauth.{
  UserInfo, StateData, action_login, action_link, OauthService, Moment, Granted, OauthError,
  Outcome, granted, failed, handle_oauth_callback,
}

-- The precision of TIMESTAMPTZ: nanoseconds below a microsecond are cut off on the way to the column.
abbrev pub to_microseconds : ℕ → ℕ
to_microseconds t = t / 1000 * 1000

-- The row as the table keeps it.
abbrev pub row_of : StateData → OauthState
row_of d = record {
  state = d.state;
  provider = d.provider;
  redirect_url = nullable d.redirect_url;
  user_id = nullable d.user_id;
  action = d.action;
  expires_at = to_microseconds d.expires_at;
}

unfoldable pub save_state : StateData → Query Done
save_state d = create_oauth_state (row_of d)

-- What is read is the row's time, which `row_of` has cut to microseconds.
abbrev pub data_of : OauthState → StateData
data_of s = record {
  state = s.state;
  provider = s.provider;
  redirect_url = or_empty s.redirect_url;
  user_id = or_empty s.user_id;
  action = s.action;
  expires_at = s.expires_at;
}

abbrev pub loaded : Option (Option OauthState) × World → Option StateData × World
loaded (none, w) = (none, w)
loaded (some none, w) = (none, w)
loaded (some (some s), w) = (some (data_of s), w)

-- No row is an error as well.
unfoldable pub get_state : ℕ → String → Query StateData
get_state now state w = loaded (get_oauth_state now state w)

unfoldable pub delete_state : String → Query Done
delete_state state = delete_oauth_state state

-- 10 minutes.
unfoldable pub create_state_data :
    ℕ → Option String → String → String → String → String → Option StateData
create_state_data now state provider redirect user action = elim state [
  | none ↦ none
  | some state ↦ some (record {
    state = state;
    provider = provider;
    redirect_url = redirect;
    user_id = user;
    action = action;
    expires_at = now + 10 * 60 * second;
  })
]

pub data Started : Type 0 where
  start_refused start_error : Started
  to_provider : String → Started

-- `context_user` is the value of the key "user_id" in the context, an empty text where there is none.
unfoldable pub begin_auth :
    (String → Bool) → ℕ → Option String → String → String → String → World → Started × World
begin_auth enabled now state provider redirect context_user w =
    if provider == ""
    then (start_refused, w)
    else if not (enabled provider)
    then (start_refused, w)
    else (elim (create_state_data now state provider redirect context_user
        (if context_user == "" then action_login else action_link)) [
          | none ↦ (start_error, w)
          | some d ↦
              let saved = save_state d w in
              (elim saved.0 [ none ↦ start_error | some _ ↦ to_provider d.state ], saved.1)
        ])

-- The answer of the callback.
pub data Returned : Type 0 where
  bad_state oauth_failed : Returned
  auth_failed : OauthError → Returned
  success : Granted → Returned

abbrev pub returned : Outcome → Returned
returned (failed e) = auth_failed e
returned (granted g) = success g

-- The state is deleted when the request is done; a failure is only logged.
abbrev pub called :
    OauthService
    → Moment
    → (StateData → Option UserInfo)
    → String
    → Option StateData × World
    → Returned × World
called svc m complete state (none, w) = (bad_state, w)
called svc m complete state (some d, w) = elim (complete d) [
  | none ↦ (oauth_failed, (delete_state state w).1)
  | some info ↦
      let x = handle_oauth_callback svc m info d w in (returned x.0, (delete_state state x.1).1)
]

-- `valid` is `ValidateState`, `complete` is `gothic.CompleteUserAuth` for the provider of the state.
unfoldable pub callback :
    OauthService
    → (String → Bool)
    → Moment
    → (StateData → Option UserInfo)
    → String
    → World
    → Returned × World
callback svc valid m complete state w =
    if state == ""
    then (bad_state, w)
    else if not (valid state)
    then (bad_state, w)
    else called svc m complete state (get_state m.now state w)
