-- ===== src/Auth/Login/Registered.antt =====
-- What a registration leaves.
use go_modulith_template.Prelude.{
  ◌≡◌, ◌∙◌, refl, sym, ap, subst, inl, inr, ◌⊎◌, String, true, false, Option, some, [], ◌∷◌, ◌++◌,
  map, any, eq_string, Bool-cases, Option-cases,
}
use go_modulith_template.Auth.Tables.{Role, Db, World, Done, ◌>>◌}
use go_modulith_template.Auth.Tables.Steps.{bind_some, with_tx_outcome}
use go_modulith_template.Auth.Queries.Users.{
  new_user, conflicts, create_user, with_profile, update_user_profile, add_role, assign_role,
}
use go_modulith_template.Auth.Sessions.{reply, refuse, internal}
use go_modulith_template.Auth.Sessions.Rotation.{IsRefused}
use go_modulith_template.Auth.Service.{Service, Moment, store_payload, user_to_proto}
use go_modulith_template.Auth.Login.{
  lookup_user, check_user_exists, is_found, Details, registered_payload, register_tx, register,
}
use go_modulith_template.Auth.Login.Stored.{lookup_user-same, event_row}
use go_modulith_template.Auth.Login.Requested.{store_payload-some}
use go_modulith_template.Auth.Login.Rows.{
  create_user-some, update_user_profile-some, get_user_by_id-same, IsRoleNamed, assign_role-some,
  row_of, users_after, get_user_by_id_row, fetched_of, fetched_world,
}

module _ (svc : Service) where
  -- The tables with the user, the role and the event.
  abbrev pub registered : Moment → String → String → String → Details → Role → String → Db → Db
  registered m id email phone d r text db = record db {
    users = db.users ++ row_of id email phone d.display_name ∷ [];
    user_roles = add_role id r.id db.user_roles;
    outbox = db.outbox ++ event_row m "auth.user.registered" text ∷ [];
  }

  register_tx-some :
      (m : Moment) (id email phone : String) (d : Details) (w : World) (a : Done)
      → svc.has_outbox ≡ true
      → (register_tx svc m id email phone d w).0 ≡ some a
      → (any (conflicts (new_user id email phone)) w.db.users ≡ false)
        × ((r : Role) × (text : String) × IsRoleNamed svc.lower "user" w.db r
            × (svc.marshal (registered_payload svc id email phone d) ≡ some text)
            × ((register_tx svc m id email phone d w).1.db
                ≡ registered m id email phone d r text w.db))
  unfolding register_tx
  register_tx-some m id email phone d w a has h =
      let event =
        store_payload svc m "auth.user.registered" (registered_payload svc id email phone d) in
      let create = create_user id email phone in
      let update = update_user_profile id d.display_name "" "" in
      let assign = assign_role svc.lower id "user" in
      let (b, made, run) = bind_some (create >> update >> assign) (λ _. event) w a h in
      let (b', made', run') = bind_some (create >> update) (λ _. assign) w b made in
      let (b'', made'', run'') = bind_some create (λ _. update) w b' made' in
      let (fresh, db1) = create_user-some id email phone w b'' made'' in
      let updated =
        update_user_profile-some id d.display_name "" "" (create w).1 b'
          (sym (ap (λ x. x.0) run'') ∙ made') in
      let db2 : ((create >> update) w).1.db
          ≡ record w.db { users = w.db.users ++ row_of id email phone d.display_name ∷ [] } =
        ap (λ x. x.1.db) run''
        ∙ updated
        ∙ ap {A = Db}
            (λ db. record db { users = map (with_profile id d.display_name "" "") db.users }) db1
        ∙ ap {B = Db} (λ us. record w.db { users = us })
            (users_after id email phone d.display_name w.db.users fresh) in
      let (r, named, assigned) =
        assign_role-some svc.lower id "user" ((create >> update) w).1 b
          (sym (ap (λ x. x.0) run') ∙ made) in
      let (text, e, stored) =
        store_payload-some svc m "auth.user.registered" (registered_payload svc id email phone d) _
          a has (sym (ap (λ x. x.0) run) ∙ h) in
      (
        fresh,
        (
          r,
          text,
          subst (λ db. IsRoleNamed svc.lower "user" db r) db2 named,
          e,
          ap (λ x. x.1.db) run
              ∙ stored
              ∙ ap {A = Db}
                  (λ db. record db {
                    outbox = db.outbox ++ event_row m "auth.user.registered" text ∷ [];
                  })
                  (ap (λ x. x.1.db) run' ∙ assigned)
              ∙ ap {A = Db}
                  (λ db. record db {
                    user_roles = add_role id r.id db.user_roles;
                    outbox = db.outbox ++ event_row m "auth.user.registered" text ∷ [];
                  })
                  db2,
        ),
      )

  -- With an outbox, a registration is refused and leaves the tables as they are, or it adds the user,
  -- whose id, email and phone no other has, a role of the table named user up to case, and the event,
  -- and nothing else; then it answers with the user, or with an internal error where the user could
  -- not be read back. This holds whatever faults of the database occur.
  pub register_atomic :
      (m : Moment) (id : Option String) (email phone : String) (d : Details) (w : World)
      → svc.has_outbox ≡ true
      → let x = register svc m id email phone d w in
        (IsRefused x.0 × (x.1.db ≡ w.db))
        ⊎ ((i : String) × (r : Role) × (text : String) × (id ≡ some i)
            × (any (conflicts (new_user i email phone)) w.db.users ≡ false)
            × IsRoleNamed svc.lower "user" w.db r
            × (svc.marshal (registered_payload svc i email phone d) ≡ some text)
            × ((x.0 ≡ reply (user_to_proto (row_of i email phone d.display_name)))
                ⊎ (x.0 ≡ refuse internal))
            × (x.1.db ≡ registered m i email phone d r text w.db))
  unfolding register check_user_exists
  register_atomic m id email phone d w has =
      elim (Bool-cases (is_found (lookup_user email phone w).0)) [
        | inl e ↦ rw (e, register, check_user_exists) (inl (tt, lookup_user-same email phone w))
        | inr e ↦ elim (Option-cases id) [
          | inl f ↦
              rw (e, f, register, check_user_exists) (inl (tt, lookup_user-same email phone w))
          | inr (i, f) ↦
              elim (with_tx_outcome (register_tx svc m i email phone d)
                (lookup_user email phone w).1) [
                  | inl (g, same) ↦
                      rw (e, f, g, register, check_user_exists)
                        (inl (tt, same ∙ lookup_user-same email phone w))
                  | inr (a, begun, same, ran, g, after) ↦
                      let (fresh, (r, text, named, marshalled, done_db)) =
                        register_tx-some m i email phone d begun a has ran in
                      let back = same ∙ lookup_user-same email phone w in
                      let fresh' =
                        subst (λ db. any (conflicts (new_user i email phone)) db.users ≡ false) back
                          fresh in
                      let tables =
                        after ∙ done_db ∙ ap (registered m i email phone d r text) back in
                      rw (e, f, g, register, check_user_exists)
                        (inr (
                          i,
                          r,
                          text,
                          refl,
                          fresh',
                          subst (λ db. IsRoleNamed svc.lower "user" db r) back named,
                          marshalled,
                          fetched_of _ _ (
                              get_user_by_id_row i email phone d.display_name w.db.users _ fresh'
                                (ap Db.users tables)),
                          ap World.db (fetched_world _) ∙ get_user_by_id-same i _ ∙ tables,
                        ))
                ]
        ]
      ]
