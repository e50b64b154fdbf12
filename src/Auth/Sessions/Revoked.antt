-- ===== src/Auth/Sessions/Revoked.antt =====
-- What revoking a session does, and what it does not do to its refresh token.
use go_modulith_template.Prelude.{
  ℕ, ◌*◌, ◌≡◌, ◌∙◌, refl, sym, ap, String, Bool, true, false, Option, none, some, List, [], ◌∷◌,
  map, filter, any, ◌==◌, eq_string, if◌then◌else◌, arith, Bool-cases, Option-cases, inl, inr, ◌⊎◌,
  In, here, there,
}
use text.Mathlib.TextEquality.{eq_iff}
use go_modulith_template.Auth.Token.{second, Claims, Jose, create_token, verify_token}
use go_modulith_template.Auth.Tables.{calm, Db, World, Session, done, statement}
use go_modulith_template.Auth.Queries.Sessions.{
  is_live, find_live, active_of, revoke_id, revoke_if, blocks, get_session_by_id,
  get_sessions_by_user_id, revoke_session_row, revoke_all_user_sessions, is_token_blacklisted,
}
use go_modulith_template.Auth.Sessions.{
  Code, unauthenticated, invalid_argument, not_found, permission_denied, get_jti_from_context,
  reply, refuse, Request, presented, refresh_session, list_sessions, revoke_session,
  revoke_all_sessions, new_tokens, unless_blacklisted,
}

none_active :
    (now t : ℕ) (user : String) (sessions : List Session)
    → filter (active_of now user) (map (revoke_if t user "") sessions) ≡ []
none_active now t user [] = refl
none_active now t user (s ∷ sessions) = ground (arith, none_active now t user sessions)

find_live_sound :
    (id : String) (sessions : List Session) (s : Session)
    → find_live id sessions ≡ some s
    → In s sessions × (s.id ≡ id) × (is_live s ≡ true)
find_live_sound id [] s = λ h. absurd (ground (arith, h))
find_live_sound id (t ∷ sessions) s = elim (Bool-cases (t.id == id)) [
  | inr e ↦
      rw e (λ h. let (i, same, live) = find_live_sound id sessions s h in (there t i, same, live))
  | inl e ↦ elim (Bool-cases (is_live t)) [
    | inr f ↦
        rw (e, f)
          (λ h. let (i, same, live) = find_live_sound id sessions s h in (there t i, same, live))
    | inl f ↦
        rw (e, f)
          (λ h.
            let own : t ≡ s = cc h in
            (
              here sessions own,
              ap Session.id (sym own) ∙ (eq_iff t.id id).0 e,
              ap is_live (sym own) ∙ f,
            ))
  ]
]

module _ (jose : Jose) (hash_token : String → String) where
  new_tokens_reply :
      (r : Request) (claims : Claims) (old : String) (w w' : World)
      → (new_tokens jose hash_token r claims old w).0
        ≡ (new_tokens jose hash_token r claims old w').0
  unfolding new_tokens
  new_tokens_reply r claims old w w' =
      elim (Option-cases
        (create_token jose r.access_at claims.subject claims.role (3600 * second))) [
          | inl e ↦ rw (e, new_tokens) refl
          | inr (access, e) ↦
              elim (Option-cases
                (create_token jose r.refresh_at claims.subject claims.role (24 * 3600 * second))) [
                  | inl f ↦ rw (e, f, new_tokens) refl
                  | inr (refresh, f) ↦ rw (e, f, new_tokens) refl
                ]
        ]

  unless_reply :
      (r : Request) (claims : Claims) (old : String) (b : Option Bool) (w w' : World)
      → (unless_blacklisted jose hash_token r claims old (b, w)).0
        ≡ (unless_blacklisted jose hash_token r claims old (b, w')).0
  unfolding unless_blacklisted
  unless_reply r claims old none w w' = refl
  unless_reply r claims old (some true) w w' = refl
  unless_reply r claims old (some false) w w' = new_tokens_reply r claims old w w'

  refresh_ignores :
      (r : Request) (body : String) (db : Db) (sessions : List Session)
      → (refresh_session jose hash_token r body (calm (record db { sessions = sessions }))).0
        ≡ (refresh_session jose hash_token r body (calm db)).0
  unfolding refresh_session is_token_blacklisted statement
  refresh_ignores r body db sessions = elim (Bool-cases (presented jose hash_token r body == "")) [
    | inl e ↦ rw e refl
    | inr e ↦ elim (Option-cases (verify_token jose r.now (presented jose hash_token r body))) [
      | inl f ↦ rw (e, f) refl
      | inr (claims, f) ↦
          let old = presented jose hash_token r body in
          rw (e, f)
            (unless_reply r claims old (some (any (blocks r.now (hash_token old)) db.blacklist))
              (calm (record db { sessions = sessions })) (calm db))
    ]
  ]

  revoke_all_ok :
      (q : Request) (include_current : Bool) (db : Db)
      → (sessions : List Session) × ((revoke_all_sessions jose hash_token q include_current
            (calm db)).1
          ≡ calm (record db { sessions = sessions }))
  unfolding revoke_all_sessions revoke_all_user_sessions get_jti_from_context statement
  revoke_all_ok q include_current db = elim (Option-cases q.user) [
    | inl e ↦ (db.sessions, rw (e, revoke_all_sessions) refl)
    | inr (user, e) ↦
        let except = if include_current then "" else get_jti_from_context jose hash_token q in
        (map (revoke_if q.now user except) db.sessions, rw (e, revoke_all_sessions) refl)
  ]

  -- `RevokeAllSessions`, with the current session or without it, does not touch refresh tokens:
  -- whatever `RefreshSession` answers to a request before, it answers after, where the database has no
  -- fault. The refresh token of a revoked session still gives new tokens.
  pub refresh_session-revoke_all_sessions :
      (q : Request) (include_current : Bool) (r : Request) (body : String) (db : Db)
      → (refresh_session jose hash_token r body
          (revoke_all_sessions jose hash_token q include_current (calm db)).1).0
        ≡ (refresh_session jose hash_token r body (calm db)).0
  refresh_session-revoke_all_sessions q include_current r body db =
      let (sessions, e) = revoke_all_ok q include_current db in
      rw e (refresh_ignores r body db sessions)

  all_revoked :
      (q : Request) (user : String) (db : Db)
      → q.user ≡ some user
      → (revoke_all_sessions jose hash_token q true (calm db)).1
        ≡ calm (record db { sessions = map (revoke_if q.now user "") db.sessions })
  unfolding revoke_all_sessions revoke_all_user_sessions statement
  all_revoked q user db e = rw (e, revoke_all_sessions) refl

  listed_none :
      (r : Request) (user : String) (db : Db)
      → r.user ≡ some user
      → filter (active_of r.now user) db.sessions ≡ []
      → (list_sessions jose hash_token r (calm db)).0 ≡ reply []
  unfolding list_sessions get_sessions_by_user_id statement
  listed_none r user db e none_left = rw (e, list_sessions, none_left) refl

  -- After `RevokeAllSessions` with the current session, without a fault of the database, the user has
  -- no active session, at whatever time they are listed.
  pub list_sessions-revoke_all_sessions :
      (q r : Request) (user : String) (db : Db)
      → q.user ≡ some user
      → r.user ≡ some user
      → (list_sessions jose hash_token r (revoke_all_sessions jose hash_token q true (calm db)).1).0
        ≡ reply []
  list_sessions-revoke_all_sessions q r user db e f =
      rw (all_revoked q user db e)
        (listed_none r user _ f (none_active r.now q.now user db.sessions))

  -- `RevokeSession`, without a fault of the database, either refuses and changes nothing, or the
  -- authenticated user owned a session of that id that was not revoked, and exactly the sessions of
  -- that id are marked as revoked now.
  pub revoke_session-owner :
      (r : Request) (id : String) (db : Db)
      → let x = revoke_session jose hash_token r id (calm db) in
        ((code : Code) × (x ≡ (refuse code, calm db)))
        ⊎ ((s : Session) × (r.user ≡ some s.user_id)
            × In s db.sessions
            × (s.id ≡ id)
            × (is_live s ≡ true)
            × (x ≡ (
              reply done,
              calm (record db { sessions = map (revoke_id r.now id) db.sessions }),
            )))
  unfolding revoke_session get_session_by_id revoke_session_row statement
  revoke_session-owner r id db = elim (Option-cases r.user) [
    | inl e ↦ inl (unauthenticated, rw (e, revoke_session) refl)
    | inr (user, e) ↦ elim (Bool-cases (id == "")) [
      | inl f ↦ inl (invalid_argument, rw (e, revoke_session, f) refl)
      | inr f ↦ elim (Option-cases (find_live id db.sessions)) [
        | inl g ↦ inl (not_found, rw (e, revoke_session, f, g) refl)
        | inr (s, g) ↦ elim (Bool-cases (s.user_id == user)) [
          | inr other ↦ inl (permission_denied, rw (e, revoke_session, f, g, other) refl)
          | inl own ↦
              let (i, same, live) = find_live_sound id db.sessions s g in
              inr (
                s,
                e ∙ ap some (sym ((eq_iff s.user_id user).0 own)),
                i,
                same,
                live,
                rw (e, revoke_session, f, g, own) refl,
              )
        ]
      ]
    ]
  ]
