-- ===== src/Auth/Oauth/State/Admitted.antt =====
-- What a callback that succeeds went through.
use go_modulith_template.Prelude.{
  ◌≡◌, ◌≢◌, refl, sym, subst, inl, inr, ◌⊎◌, ◌<◌, String, Bool, true, Option, none, some, In, ◌==◌,
  eq_string, Bool-cases, Option-cases, arith,
}
use go_modulith_template.Auth.Tables.{OauthState, World}
use go_modulith_template.Auth.Oauth.{
  UserInfo, StateData, OauthService, Moment, Granted, Outcome, granted, failed,
  handle_oauth_callback,
}
use go_modulith_template.Auth.Oauth.Granting.{
  HasAccount, HasEmail, IsGrantFor, handle_oauth_callback_granted,
}
use go_modulith_template.Auth.Oauth.State.{
  data_of, get_state, bad_state, success, returned, called, callback,
}
use go_modulith_template.Auth.Oauth.State.Once.{get_state-some, get_state-same}

bad-ne-success : {g : Granted} → ¬ (bad_state ≡ success g)
bad-ne-success h = ground (arith, h)

returned_success : (o : Outcome) (g : Granted) → returned o ≡ success g → o ≡ granted g
returned_success (failed e) g h = absurd (ground (arith, h))
returned_success (granted g') g h = cc h

module _ (svc : OauthService) where
  called_success :
      (m : Moment) (complete : StateData → Option UserInfo) (state : String)
      (x : Option StateData × World) (g : Granted)
      → (called svc m complete state x).0 ≡ success g
      → (d : StateData) × (info : UserInfo) × (x.0 ≡ some d)
        × (complete d ≡ some info)
        × ((handle_oauth_callback svc m info d x.1).0 ≡ granted g)
  called_success m complete state (none, w) g = λ h. absurd (bad-ne-success h)
  called_success m complete state (some d, w) g = elim (Option-cases (complete d)) [
    | inl e ↦ rw (e, called) (λ h. absurd (ground (arith, h)))
    | inr (info, e) ↦ rw (e, called) (λ h. (d, info, refl, e, returned_success _ g h))
  ]

  -- A callback that gives tokens presented a state with a valid signature that was in the table and
  -- had not expired, and the provider's library accepted it for that state. The tokens are for the
  -- user of the state when it asks for a link; when it does not, for one who has the provider's
  -- account, or, where links by email are on, the email that the provider names.
  pub callback_admitted :
      (valid : String → Bool) (m : Moment) (complete : StateData → Option UserInfo) (state : String)
      (w : World) (g : Granted)
      → (callback svc valid m complete state w).0 ≡ success g
      → (valid state ≡ true)
        × ((s : OauthState) × (info : UserInfo) × In s w.db.states
            × (s.state ≡ state)
            × (m.now < s.expires_at)
            × (complete (data_of s) ≡ some info)
            × IsGrantFor svc m g.user_id g
            × (((s.action ≡ "link") × (g.user_id ≡ (data_of s).user_id))
                ⊎ ((s.action ≢ "link")
                    × (HasAccount info g.user_id w.db
                        ⊎ ((svc.auto_link_email ≡ true) × HasEmail info g.user_id w.db)))))
  unfolding callback
  callback_admitted valid m complete state w g = elim (Bool-cases (state == "")) [
    | inl e ↦ rw e (λ h. absurd (bad-ne-success h))
    | inr e ↦ elim (Bool-cases (valid state)) [
      | inr f ↦ rw (e, f) (λ h. absurd (bad-ne-success h))
      | inl f ↦ rw (e, f) (λ h. (refl, admitted h))
    ]
  ]
    where
      admitted :
          (called svc m complete state (get_state m.now state w)).0 ≡ success g
          → (s : OauthState) × (info : UserInfo) × In s w.db.states
            × (s.state ≡ state)
            × (m.now < s.expires_at)
            × (complete (data_of s) ≡ some info)
            × IsGrantFor svc m g.user_id g
            × (((s.action ≡ "link") × (g.user_id ≡ (data_of s).user_id))
                ⊎ ((s.action ≢ "link")
                    × (HasAccount info g.user_id w.db
                        ⊎ ((svc.auto_link_email ≡ true) × HasEmail info g.user_id w.db))))
      admitted h =
          let (d, info, found, completed, ran) =
            called_success m complete state (get_state m.now state w) g h in
          let (s, i, named, live, same) = get_state-some m.now state w d found in
          let (grant, who) =
            handle_oauth_callback_granted svc m info (data_of s) (get_state m.now state w).1 g (
              subst
                (λ d.
                  (handle_oauth_callback svc m info d (get_state m.now state w).1).0 ≡ granted g)
                (sym same) ran) in
          (
            s,
            info,
            i,
            named,
            live,
            subst (λ d. complete d ≡ some info) (sym same) completed,
            grant,
            subst
                (λ db.
                  ((s.action ≡ "link") × (g.user_id ≡ (data_of s).user_id))
                  ⊎ ((s.action ≢ "link")
                      × (HasAccount info g.user_id db
                          ⊎ ((svc.auto_link_email ≡ true) × HasEmail info g.user_id db))))
                (get_state-same m.now state w) who,
          )
