-- ===== src/Auth/Oauth/Kept.antt =====
-- A callback keeps the owners of the external accounts.
use go_modulith_template.Prelude.{
  ◌≡◌, refl, subst, inl, inr, String, not, ◌&&◌, Option, none, some, find, ◌==◌, eq_string,
  Bool-cases, Option-cases,
}
use go_modulith_template.Auth.Tables.{User, ExternalAccount, World, Done, Query}
use go_modulith_template.Auth.Tables.Steps.{read_same}
use go_modulith_template.Auth.Queries.Users.{get_user_by_email}
use go_modulith_template.Auth.Queries.Accounts.{
  is_account, get_external_account, update_external_account_tokens, update_external_account_profile,
}
use go_modulith_template.Auth.Oauth.{
  UserInfo, StateData, action_link, OauthService, Moment, encrypt_tokens, account_of,
  create_account, update_account, granted_if, link_found, login_found, handle_login, linking_found,
  handle_account_linking, handle_oauth_callback,
}
use go_modulith_template.Auth.Oauth.Owners.{
  owner_of, owners, KeepsOwners, both_owners, tokens_owners, profile_owners,
  create_external_account-owners,
}

pub found_same :
    (info : UserInfo) (w : World)
    → (get_external_account info.provider info.provider_user_id w).1.db ≡ w.db
unfolding get_external_account
found_same info w =
    read_same (λ db. find (is_account info.provider info.provider_user_id) db.accounts) w

module _ (svc : OauthService) where
  owners-update_account :
      (info : UserInfo) (w : World) → owners (update_account svc info w).1.db ≡ owners w.db
  unfolding update_account
  owners-update_account info w = elim (Option-cases (encrypt_tokens svc info)) [
    | inl e ↦ rw (e, update_account) refl
    | inr ((access, refresh), e) ↦
        rw (e, update_account)
          (both_owners
            (update_external_account_tokens info.provider info.provider_user_id access refresh
              info.expires_at)
            (update_external_account_profile info.provider info.provider_user_id info.name
              info.avatar_url info.email)
            w
            (λ w.
              tokens_owners info.provider info.provider_user_id access refresh info.expires_at w)
            (λ w.
              profile_owners info.provider info.provider_user_id info.name info.avatar_url
                info.email w))
  ]

  create_account_owners :
      (m : Moment) (user : String) (info : UserInfo) (w : World)
      → KeepsOwners info w.db (create_account svc m user info w).1.db
  unfolding create_account
  create_account_owners m user info w = elim (Option-cases m.account_id) [
    | inl e ↦ rw (e, create_account) (inl refl)
    | inr (id, e) ↦ elim (Option-cases (encrypt_tokens svc info)) [
      | inl f ↦ rw (e, f, create_account) (inl refl)
      | inr (tokens, f) ↦
          rw (e, f, create_account)
            (elim (create_external_account-owners (account_of svc m id user info tokens) w) [
              | inl same ↦ inl same
              | inr (fresh, more) ↦
                  inr (owner_of (account_of svc m id user info tokens), refl, refl, fresh, more)
            ])
    ]
  ]

  granted_if_world :
      (m : Moment) (user : String) (x : Option Done × World) → (granted_if svc m user x).1 ≡ x.1
  granted_if_world m user (none, w) = refl
  granted_if_world m user (some a, w) = refl

  linked_keeps :
      (m : Moment) (user : String) (info : UserInfo) (w : World)
      → KeepsOwners info w.db (granted_if svc m user (create_account svc m user info w)).1.db
  linked_keeps m user info w =
      rw (granted_if_world m user (create_account svc m user info w))
        (create_account_owners m user info w)

  link_found_keeps :
      (m : Moment) (info : UserInfo) (x : Option (Option User) × World)
      → KeepsOwners info x.1.db (link_found svc m info x).1.db
  link_found_keeps m info (none, w) = inl refl
  link_found_keeps m info (some none, w) = inl refl
  link_found_keeps m info (some (some u), w) = linked_keeps m u.id info w

  login_found_keeps :
      (m : Moment) (info : UserInfo) (x : Option (Option ExternalAccount) × World)
      → KeepsOwners info x.1.db (login_found svc m info x).1.db
  login_found_keeps m info (none, w) = inl refl
  login_found_keeps m info (some (some a), w) = inl (owners-update_account info w)
  login_found_keeps m info (some none, w) =
      elim (Bool-cases (svc.auto_link_email && not (info.email == ""))) [
        | inl e ↦ rw e (
            subst
              (λ db.
                KeepsOwners info db (link_found svc m info (get_user_by_email info.email w)).1.db)
              (by_email w) (link_found_keeps m info (get_user_by_email info.email w)))
        | inr e ↦ rw e (inl refl)
      ]
    where
      by_email : (w : World) → (get_user_by_email info.email w).1.db ≡ w.db
      by_email w = unfold get_user_by_email in read_same _ w

  linking_found_keeps :
      (m : Moment) (info : UserInfo) (user : String) (x : Option (Option ExternalAccount) × World)
      → KeepsOwners info x.1.db (linking_found svc m info user x).1.db
  linking_found_keeps m info user (none, w) = inl refl
  linking_found_keeps m info user (some none, w) = linked_keeps m user info w
  linking_found_keeps m info user (some (some a), w) = elim (Bool-cases (a.user_id == user)) [
    | inl e ↦ rw (e, granted_if_world) (inl (owners-update_account info w))
    | inr e ↦ rw e (inl refl)
  ]

  -- A callback, whatever it is for and whatever faults occur, moves no external account to another
  -- user and removes none; it adds at most one, that of the provider's user, when it is not there yet.
  pub handle_oauth_callback_keeps :
      (m : Moment) (info : UserInfo) (state : StateData) (w : World)
      → KeepsOwners info w.db (handle_oauth_callback svc m info state w).1.db
  unfolding handle_oauth_callback handle_login handle_account_linking
  handle_oauth_callback_keeps m info state w = elim (Bool-cases (state.action == action_link)) [
    | inl e ↦
        rw (e, handle_oauth_callback)
          (subst
            (λ db. KeepsOwners info db (handle_account_linking svc m info state.user_id w).1.db)
            (found_same info w) (linking_found_keeps m info state.user_id (found info w)))
    | inr e ↦
        rw (e, handle_oauth_callback)
          (subst (λ db. KeepsOwners info db (handle_login svc m info w).1.db) (found_same info w)
            (login_found_keeps m info (found info w)))
  ]
    where
      found : UserInfo → Query (Option ExternalAccount)
      found info = get_external_account info.provider info.provider_user_id
