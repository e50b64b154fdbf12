-- ===== src/Auth/Oauth/Quiet.antt =====
-- A callback on a database without faults leaves none.
use go_modulith_template.Prelude.{
  ◌≡◌, inl, inr, String, not, ◌&&◌, Option, none, some, [], ◌==◌, eq_string, Bool-cases,
  Option-cases,
}
use go_modulith_template.Auth.Tables.{User, ExternalAccount, World, Done}
use go_modulith_template.Auth.Tables.Steps.{statement_quiet, bind_quiet}
use go_modulith_template.Auth.Queries.Users.{get_user_by_email}
use go_modulith_template.Auth.Queries.Accounts.{
  create_external_account, get_external_account, update_external_account_tokens,
  update_external_account_profile,
}
use go_modulith_template.Auth.Oauth.{
  UserInfo, StateData, action_link, OauthService, Moment, encrypt_tokens, create_account,
  update_account, granted_if, link_found, login_found, handle_login, linking_found,
  handle_account_linking, handle_oauth_callback,
}

module _ (svc : OauthService) where
  update_account_quiet :
      (info : UserInfo) (w : World) → w.faults ≡ [] → (update_account svc info w).1.faults ≡ []
  unfolding update_account update_external_account_tokens update_external_account_profile
  update_account_quiet info w h = elim (Option-cases (encrypt_tokens svc info)) [
    | inl e ↦ rw (e, update_account) h
    | inr ((access, refresh), e) ↦
        rw (e, update_account)
          (bind_quiet
            (update_external_account_tokens info.provider info.provider_user_id access refresh
              info.expires_at)
            (λ _.
              update_external_account_profile info.provider info.provider_user_id info.name
                info.avatar_url info.email)
            w (statement_quiet _ w h) (λ _. statement_quiet _ _ (statement_quiet _ w h)))
  ]

  create_account_quiet :
      (m : Moment) (user : String) (info : UserInfo) (w : World)
      → w.faults ≡ []
      → (create_account svc m user info w).1.faults ≡ []
  unfolding create_account create_external_account
  create_account_quiet m user info w h = elim (Option-cases m.account_id) [
    | inl e ↦ rw (e, create_account) h
    | inr (id, e) ↦ elim (Option-cases (encrypt_tokens svc info)) [
      | inl f ↦ rw (e, f, create_account) h
      | inr (tokens, f) ↦ rw (e, f, create_account) (statement_quiet _ w h)
    ]
  ]

  granted_if_quiet :
      (m : Moment) (user : String) (x : Option Done × World)
      → x.1.faults ≡ []
      → (granted_if svc m user x).1.faults ≡ []
  granted_if_quiet m user (none, w) h = h
  granted_if_quiet m user (some a, w) h = h

  link_found_quiet :
      (m : Moment) (info : UserInfo) (x : Option (Option User) × World)
      → x.1.faults ≡ []
      → (link_found svc m info x).1.faults ≡ []
  link_found_quiet m info (none, w) h = h
  link_found_quiet m info (some none, w) h = h
  link_found_quiet m info (some (some u), w) h =
      granted_if_quiet m u.id _ (create_account_quiet m u.id info w h)

  login_found_quiet :
      (m : Moment) (info : UserInfo) (x : Option (Option ExternalAccount) × World)
      → x.1.faults ≡ []
      → (login_found svc m info x).1.faults ≡ []
  login_found_quiet m info (none, w) h = h
  login_found_quiet m info (some (some a), w) h = update_account_quiet info w h
  login_found_quiet m info (some none, w) h =
      elim (Bool-cases (svc.auto_link_email && not (info.email == ""))) [
        | inl e ↦ rw e (link_found_quiet m info _ (by_email w h))
        | inr e ↦ rw e h
      ]
    where
      by_email : (w : World) → w.faults ≡ [] → (get_user_by_email info.email w).1.faults ≡ []
      by_email w h = unfold get_user_by_email in statement_quiet _ w h

  linking_found_quiet :
      (m : Moment) (info : UserInfo) (user : String) (x : Option (Option ExternalAccount) × World)
      → x.1.faults ≡ []
      → (linking_found svc m info user x).1.faults ≡ []
  linking_found_quiet m info user (none, w) h = h
  linking_found_quiet m info user (some none, w) h =
      granted_if_quiet m user _ (create_account_quiet m user info w h)
  linking_found_quiet m info user (some (some a), w) h = elim (Bool-cases (a.user_id == user)) [
    | inl e ↦ rw e (granted_if_quiet m user _ (update_account_quiet info w h))
    | inr e ↦ rw e h
  ]

  pub handle_oauth_callback_quiet :
      (m : Moment) (info : UserInfo) (state : StateData) (w : World)
      → w.faults ≡ []
      → (handle_oauth_callback svc m info state w).1.faults ≡ []
  unfolding handle_oauth_callback handle_login handle_account_linking get_external_account
  handle_oauth_callback_quiet m info state w h = elim (Bool-cases (state.action == action_link)) [
    | inl e ↦
        rw (e, handle_oauth_callback)
          (linking_found_quiet m info state.user_id _ (statement_quiet _ w h))
    | inr e ↦ rw (e, handle_oauth_callback) (login_found_quiet m info _ (statement_quiet _ w h))
  ]
