-- ===== src/Auth/Oauth/Granting.antt =====
-- Whom a callback gives tokens.
use go_modulith_template.Prelude.{
  ◌≡◌, ◌≢◌, refl, sym, subst, inl, inr, ◌⊎◌, ◌*◌, String, true, not, ◌&&◌, Option, none, some, In,
  find_sound, ◌==◌, eq_string, Bool-cases, Option-cases, arith,
}
use text.Mathlib.TextEquality.{eq_iff}
use go_modulith_template.Auth.Token.{second, create_token}
use go_modulith_template.Auth.Tables.{User, ExternalAccount, Db, World, Done, column_is}
use go_modulith_template.Auth.Tables.Steps.{read_some}
use go_modulith_template.Auth.Queries.Users.{get_user_by_email}
use go_modulith_template.Auth.Queries.Accounts.{is_account, get_external_account}
use go_modulith_template.Auth.Oauth.{
  UserInfo, StateData, action_link, Granted, OauthService, Moment, granted, failed, create_account,
  generate_tokens_for_user, granted_if, link_found, login_found, handle_login, linking_found,
  handle_account_linking, handle_oauth_callback,
}
use go_modulith_template.Auth.Oauth.Kept.{found_same}

failed-ne-granted : {e : _} {g : Granted} → ¬ (failed e ≡ granted g)
failed-ne-granted h = ground (arith, h)

-- The user has an account with the provider's user.
abbrev pub HasAccount : UserInfo → String → Db → Type 0
HasAccount info user db =
    (a : ExternalAccount) × In a db.accounts
    × (a.provider ≡ info.provider)
    × (a.provider_user_id ≡ info.provider_user_id)
    × (a.user_id ≡ user)

-- The user has the email that the provider names.
abbrev pub HasEmail : UserInfo → String → Db → Type 0
HasEmail info user db =
    (u : User) × In u db.users
    × (info.email ≢ "")
    × (column_is u.email info.email ≡ true)
    × (u.id ≡ user)

module _ (svc : OauthService) where
  -- Tokens for the user, with the role "user".
  abbrev pub IsGrantFor : Moment → String → Granted → Type 0
  IsGrantFor m user g =
      (g.user_id ≡ user)
      × ((jti refresh_jti : String) × (create_token svc.jose m.access_at user "user" (3600 * second)
            ≡ some (g.access_token, jti))
          × (create_token svc.jose m.refresh_at user "user" (24 * 3600 * second)
              ≡ some (g.refresh_token, refresh_jti)))

  generate_tokens_granted :
      (m : Moment) (user : String) (g : Granted)
      → generate_tokens_for_user svc m user ≡ granted g
      → IsGrantFor m user g
  unfolding generate_tokens_for_user
  generate_tokens_granted m user g =
      elim (Option-cases (create_token svc.jose m.access_at user "user" (3600 * second))) [
        | inl e ↦ rw (e, generate_tokens_for_user) (λ h. absurd (failed-ne-granted h))
        | inr ((access, jti), e) ↦
            elim (Option-cases
              (create_token svc.jose m.refresh_at user "user" (24 * 3600 * second))) [
                | inl f ↦ rw (e, f, generate_tokens_for_user) (λ h. absurd (failed-ne-granted h))
                | inr ((refresh, id), f) ↦
                    rw (e, f, generate_tokens_for_user) (λ h. (cc h, (jti, id, cc h, cc h)))
              ]
      ]

  granted_if_granted :
      (m : Moment) (user : String) (x : Option Done × World) (g : Granted)
      → (granted_if svc m user x).0 ≡ granted g
      → IsGrantFor m user g
  granted_if_granted m user (none, w) g h = absurd (failed-ne-granted h)
  granted_if_granted m user (some a, w) g h = generate_tokens_granted m user g h

  link_found_granted :
      (m : Moment) (info : UserInfo) (x : Option (Option User) × World) (g : Granted)
      → (link_found svc m info x).0 ≡ granted g
      → (u : User) × (x.0 ≡ some (some u)) × IsGrantFor m u.id g
  link_found_granted m info (none, w) g h = absurd (failed-ne-granted h)
  link_found_granted m info (some none, w) g h = absurd (failed-ne-granted h)
  link_found_granted m info (some (some u), w) g h =
      (u, refl, granted_if_granted m u.id (create_account svc m u.id info w) g h)

  login_found_granted :
      (m : Moment) (info : UserInfo) (x : Option (Option ExternalAccount) × World) (g : Granted)
      → (login_found svc m info x).0 ≡ granted g
      → ((a : ExternalAccount) × (x.0 ≡ some (some a)) × IsGrantFor m a.user_id g)
        ⊎ ((u : User) × (svc.auto_link_email ≡ true)
            × (info.email ≢ "")
            × ((get_user_by_email info.email x.1).0 ≡ some (some u))
            × IsGrantFor m u.id g)
  login_found_granted m info (none, w) g = λ h. absurd (failed-ne-granted h)
  login_found_granted m info (some (some a), w) g =
      λ h. inl (a, refl, generate_tokens_granted m a.user_id g h)
  login_found_granted m info (some none, w) g =
      elim (Bool-cases (svc.auto_link_email && not (info.email == ""))) [
        | inl e ↦ rw e (λ h.
            let (u, found, grant) =
              link_found_granted m info (get_user_by_email info.email w) g h in
            inr (u, ground (arith, e), ground (arith, e, eq_iff info.email ""), found, grant))
        | inr e ↦ rw e (λ h. absurd (failed-ne-granted h))
      ]

  linking_found_granted :
      (m : Moment) (info : UserInfo) (user : String) (x : Option (Option ExternalAccount) × World)
      (g : Granted)
      → (linking_found svc m info user x).0 ≡ granted g
      → IsGrantFor m user g
  linking_found_granted m info user (none, w) g = λ h. absurd (failed-ne-granted h)
  linking_found_granted m info user (some none, w) g =
      λ h. granted_if_granted m user (create_account svc m user info w) g h
  linking_found_granted m info user (some (some a), w) g = elim (Bool-cases (a.user_id == user)) [
    | inl e ↦ rw e (λ h. granted_if_granted m user _ g h)
    | inr e ↦ rw e (λ h. absurd (failed-ne-granted h))
  ]

  account_found :
      (info : UserInfo) (w : World) (a : ExternalAccount)
      → (get_external_account info.provider info.provider_user_id w).0 ≡ some (some a)
      → HasAccount info a.user_id w.db
  unfolding get_external_account
  account_found info w a found =
      let (i, p) =
        find_sound (is_account info.provider info.provider_user_id) a w.db.accounts
          (read_some _ w _ found) in
      (
        a,
        i,
        ground (arith, p, eq_iff a.provider info.provider),
        ground (arith, p, eq_iff a.provider_user_id info.provider_user_id),
        refl,
      )

  email_found :
      (info : UserInfo) (w : World) (u : User)
      → info.email ≢ ""
      → (get_user_by_email info.email w).0 ≡ some (some u)
      → HasEmail info u.id w.db
  unfolding get_user_by_email
  email_found info w u named found =
      let (i, p) =
        find_sound (λ u. column_is u.email info.email) u w.db.users (read_some _ w _ found) in
      (u, i, named, p, refl)

  -- A login by a provider that gives tokens gives them for a user who already had that account of the
  -- provider, or, where links by email are on, whose email is the one that the provider names. The
  -- tokens have the role "user".
  handle_login_granted :
      (m : Moment) (info : UserInfo) (w : World) (g : Granted)
      → (handle_login svc m info w).0 ≡ granted g
      → (HasAccount info g.user_id w.db
          ⊎ ((svc.auto_link_email ≡ true) × HasEmail info g.user_id w.db))
        × IsGrantFor m g.user_id g
  unfolding handle_login
  handle_login_granted m info w g h =
      elim (login_found_granted m info (get_external_account info.provider info.provider_user_id w)
        g h) [
          | inl (a, found, grant) ↦ (
            inl (
                subst (λ id. HasAccount info id w.db) (sym grant.0) (account_found info w a found)),
            subst (λ id. IsGrantFor m id g) (sym grant.0) grant,
          )
          | inr (u, auto, named, found, grant) ↦ (
            inr (
              auto,
              subst (λ id. HasEmail info id w.db) (sym grant.0)
                  (subst (λ db. HasEmail info u.id db) (found_same info w)
                    (email_found info _ u named found)),
            ),
            subst (λ id. IsGrantFor m id g) (sym grant.0) grant,
          )
        ]

  -- A callback gives tokens only for the user of the state when the state asks for a link, and when
  -- it does not, only for a user that has the account, or the email where links by email are on.
  pub handle_oauth_callback_granted :
      (m : Moment) (info : UserInfo) (state : StateData) (w : World) (g : Granted)
      → (handle_oauth_callback svc m info state w).0 ≡ granted g
      → IsGrantFor m g.user_id g
        × (((state.action ≡ "link") × (g.user_id ≡ state.user_id))
            ⊎ ((state.action ≢ "link")
                × (HasAccount info g.user_id w.db
                    ⊎ ((svc.auto_link_email ≡ true) × HasEmail info g.user_id w.db))))
  unfolding handle_oauth_callback handle_account_linking
  handle_oauth_callback_granted m info state w g = elim (Bool-cases (state.action == action_link)) [
    | inl e ↦
        rw (e, handle_oauth_callback)
          (λ h.
            let grant = linking_found_granted m info state.user_id _ g h in
            (
              subst (λ id. IsGrantFor m id g) (sym grant.0) grant,
              inl (ground (arith, e, eq_iff state.action "link"), grant.0),
            ))
    | inr e ↦
        rw (e, handle_oauth_callback)
          (λ h.
            let (who, grant) = handle_login_granted m info w g h in
            (grant, inr (ground (arith, e, eq_iff state.action "link"), who)))
  ]
