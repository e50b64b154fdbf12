-- ===== src/Auth/Login/Requested.antt =====
-- What a request of a code leaves and answers.
use go_modulith_template.Prelude.{
  ◌≡◌, ◌∙◌, refl, sym, ap, inl, inr, ◌⊎◌, ◌+◌, ◌*◌, String, true, false, Option, some, [], ◌∷◌,
  ◌++◌, any, ◌==◌, eq_string, Bool-cases, Option-cases,
}
use go_modulith_template.Auth.Token.{second}
use go_modulith_template.Auth.Tables.{
  calm, ended, MagicCode, Db, World, Done, done, statement, nullable,
}
use go_modulith_template.Auth.Tables.Steps.{none-ne-some, bind_some, with_tx-calm}
use go_modulith_template.Auth.Queries.Users.{create_magic_code, store_event, stored}
use go_modulith_template.Auth.Sessions.{reply}
use go_modulith_template.Auth.Service.{Payload, Service, Moment, store_payload}
use go_modulith_template.Auth.Login.{
  lookup_user, check_user_exists, is_found, code_sent, code_payload, request_login_tx,
  request_login,
}
use go_modulith_template.Auth.Login.Stored.{
  event_row, store_fresh, store_event-some, lookup_user-same, lookup_user-calm,
  create_magic_code-some, answered_outcome,
}

module _ (svc : Service) where
  pub store_payload-some :
      (m : Moment) (name : String) (p : Payload) (w : World) (a : Done)
      → svc.has_outbox ≡ true
      → (store_payload svc m name p w).0 ≡ some a
      → (text : String) × (svc.marshal p ≡ some text)
        × ((store_payload svc m name p w).1.db
            ≡ record w.db { outbox = w.db.outbox ++ event_row m name text ∷ [] })
  unfolding store_payload
  store_payload-some m name p w a has = elim (Option-cases (svc.marshal p)) [
    | inl e ↦ rw (has, e) (λ h. absurd (none-ne-some h))
    | inr (text, e) ↦ rw (has, e) (λ h. (text, refl, store_event-some m name text w a h))
  ]

  abbrev code_row : Moment → String → String → String → MagicCode
  code_row m code email phone = record {
    code = code;
    user_email = nullable email;
    user_phone = nullable phone;
    expires_at = m.now + 15 * 60 * second;
  }

  -- The tables with the row of the code and that of its event.
  abbrev pub requested : Moment → String → String → String → String → Db → Db
  requested m code email phone text db = record db {
    magic_codes = db.magic_codes ++ code_row m code email phone ∷ [];
    outbox = db.outbox ++ event_row m "notifier.magic_code_requested" text ∷ [];
  }

  request_login_tx-some :
      (m : Moment) (code locale email phone : String) (w : World) (a : Done)
      → svc.has_outbox ≡ true
      → (request_login_tx svc m code locale email phone w).0 ≡ some a
      → (text : String) × (svc.marshal (code_payload svc email phone code locale) ≡ some text)
        × ((request_login_tx svc m code locale email phone w).1.db
            ≡ requested m code email phone text w.db)
  unfolding request_login_tx
  request_login_tx-some m code locale email phone w a has h =
      let at = m.now + 15 * 60 * second in
      let (b, made, run) =
        bind_some (create_magic_code code email phone at)
          (λ _.
            store_payload svc m "notifier.magic_code_requested"
              (code_payload svc email phone code locale))
          w a h in
      let (text, e, after) =
        store_payload-some m "notifier.magic_code_requested"
          (code_payload svc email phone code locale) _ a has (sym (ap (λ x. x.0) run) ∙ h) in
      (
        text,
        e,
        ap (λ x. x.1.db) run
            ∙ after
            ∙ ap {A = Db}
                (λ db. record db {
                  outbox = db.outbox ++ event_row m "notifier.magic_code_requested" text ∷ [];
                })
                (create_magic_code-some code email phone at w b made),
      )

  -- With an outbox, a request of a code leaves the tables as they are, or it adds the row of the
  -- code, which expires after 15 minutes, together with the event that carries it, and nothing else,
  -- and answers that the code was sent. This holds whatever faults of the database occur.
  pub request_login_atomic :
      (m : Moment) (code : Option String) (locale email phone : String) (w : World)
      → svc.has_outbox ≡ true
      → let x = request_login svc m code locale email phone w in
        (x.1.db ≡ w.db)
        ⊎ ((c : String) × (text : String) × (code ≡ some c)
            × (svc.marshal (code_payload svc email phone c locale) ≡ some text)
            × (x.0 ≡ reply code_sent)
            × (x.1.db ≡ requested m c email phone text w.db))
  unfolding request_login check_user_exists
  request_login_atomic m code locale email phone w has =
      elim (Bool-cases (is_found (lookup_user email phone w).0)) [
        | inr e ↦ rw (e, request_login, check_user_exists) (inl (lookup_user-same email phone w))
        | inl e ↦ elim (Option-cases code) [
          | inl f ↦
              rw (e, f, request_login, check_user_exists) (inl (lookup_user-same email phone w))
          | inr (c, f) ↦
              rw (e, f, request_login, check_user_exists)
                (elim (answered_outcome code_sent (request_login_tx svc m c locale email phone)
                  (lookup_user email phone w).1) [
                    | inl (_, same) ↦ inl (same ∙ lookup_user-same email phone w)
                    | inr (a, begun, same, ran, answer, after) ↦
                        let (text, g, made) =
                          request_login_tx-some m c locale email phone begun a has ran in
                        inr (
                          c,
                          text,
                          refl,
                          g,
                          answer,
                          after
                              ∙ made
                              ∙ ap (requested m c email phone text)
                                  (same ∙ lookup_user-same email phone w),
                        )
                  ])
        ]
      ]

  pub store_payload-calm :
      (m : Moment) (name text : String) (p : Payload) (db : Db)
      → svc.has_outbox ≡ true
      → svc.marshal p ≡ some text
      → any (λ e. e.id == m.event_id) db.outbox ≡ false
      → store_payload svc m name p (calm db)
        ≡ (some done, calm (record db { outbox = db.outbox ++ event_row m name text ∷ [] }))
  unfolding store_payload store_event statement
  store_payload-calm m name text p db has e fresh =
      rw (has, e, store_payload)
        (ap (λ rows. ended db [] (stored rows db)) (store_fresh m name text db.outbox fresh))

  request_login_tx-calm :
      (m : Moment) (code locale email phone text : String) (db : Db)
      → svc.has_outbox ≡ true
      → svc.marshal (code_payload svc email phone code locale) ≡ some text
      → any (λ e. e.id == m.event_id) db.outbox ≡ false
      → request_login_tx svc m code locale email phone (calm db)
        ≡ (some done, calm (requested m code email phone text db))
  unfolding request_login_tx create_magic_code statement
  request_login_tx-calm m code locale email phone text db has e fresh =
      store_payload-calm m "notifier.magic_code_requested" text
        (code_payload svc email phone code locale)
        (record db { magic_codes = db.magic_codes ++ code_row m code email phone ∷ [] }) has e fresh

  -- Where a code was generated, there is an outbox, the payload of the event marshals, the event's id
  -- is free and the database has no faults, the answer to a request of a code is success, whether or
  -- not there is such a user.
  pub request_login-calm :
      (m : Moment) (code locale email phone text : String) (db : Db)
      → svc.has_outbox ≡ true
      → svc.marshal (code_payload svc email phone code locale) ≡ some text
      → any (λ e. e.id == m.event_id) db.outbox ≡ false
      → (request_login svc m (some code) locale email phone (calm db)).0 ≡ reply code_sent
  unfolding request_login check_user_exists
  request_login-calm m code locale email phone text db has e fresh =
      elim (Bool-cases (is_found (lookup_user email phone (calm db)).0)) [
        | inr missing ↦ rw (missing, request_login, check_user_exists) refl
        | inl found ↦
            rw
              (
                found,
                request_login,
                check_user_exists,
                lookup_user-calm email phone db,
                with_tx-calm (request_login_tx svc m code locale email phone) db _ done
                    (request_login_tx-calm m code locale email phone text db has e fresh),
              )
              refl
      ]
