-- ===== src/Auth/Sessions.antt =====
-- The handlers of sessions in modules/auth/internal/service/service.go. A request carries what the
-- handler reads from its context: the user that the interceptor authenticated, the bearer token and
-- the refresh token of the cookies, empty where there is none. `now` stands for all readings of the
-- clock in one request but the two of the new tokens. The cookies of the answer, audit, tracing and logging are left out.
pub mod Blacklist
pub mod Kept
pub mod Rotation
pub mod Revoked
use go_modulith_template.Prelude.{
  ℕ, ◌+◌, ◌*◌, String, Bool, true, false, Option, none, some, List, [], ◌∷◌, map, ◌==◌, eq_string,
  if◌then◌else◌,
}
use go_modulith_template.Auth.Token.{second, Claims, Jose, create_token, verify_token}
use go_modulith_template.Auth.Tables.{Done, done, Session, Blacklisted, World}
use go_modulith_template.Auth.Queries.Sessions.{
  create_session, get_session_by_id, get_sessions_by_user_id, revoke_session_row,
  revoke_all_user_sessions, blacklist_token, is_token_blacklisted,
}

-- The gRPC codes of the errors.
pub data Code : Type 0 where
  invalid_argument unauthenticated not_found permission_denied already_exists : Code
  failed_precondition unimplemented internal : Code

pub data Reply {ℓ} (A : Type ℓ) : Type ℓ where
  reply : A → Reply A
  refuse : Code → Reply A

-- The clock at the request and at its two new tokens, and what the context holds.
pub record Request : Type 0 where
  pub now : ℕ
  pub access_at : ℕ
  pub refresh_at : ℕ
  pub user : Option String
  pub bearer : String
  pub cookie : String

pub record Pair : Type 0 where
  pub access_token : String
  pub refresh_token : String

module _ (jose : Jose) (hash_token : String → String) where
  unfoldable pub get_jti_from_context : Request → String
  get_jti_from_context r =
      if r.bearer == ""
      then ""
      else elim (verify_token jose r.now r.bearer) [ none ↦ "" | some claims ↦ claims.id ]

  abbrev pub session_for : Request → Claims → String → String → Session
  session_for r claims refresh jti = record {
    id = jti;
    user_id = claims.subject;
    refresh_token_hash = hash_token refresh;
    last_active_at = r.now;
    expires_at = r.now + 24 * 3600 * second;
    revoked_at = none;
  }

  abbrev pub entry_for : Claims → String → Blacklisted
  entry_for claims old = record {
    token_hash = hash_token old;
    user_id = claims.subject;
    reason = "refresh";
    expires_at = claims.expires_at * second;
  }

  -- From `CreateSession` on: neither failure is more than logged.
  unfoldable pub rotate : Request → Claims → String → String → String → World → World
  rotate r claims old refresh jti w =
      let created = create_session (session_for r claims refresh jti) w in
      (blacklist_token (entry_for claims old) created.1).1

  -- What follows the check of the blacklist.
  unfoldable pub new_tokens : Request → Claims → String → World → Reply Pair × World
  new_tokens r claims old w =
      elim (create_token jose r.access_at claims.subject claims.role (3600 * second)) [
        | none ↦ (refuse internal, w)
        | some (access, _) ↦
            elim (create_token jose r.refresh_at claims.subject claims.role (24 * 3600 * second)) [
              | none ↦ (refuse internal, w)
              | some (refresh, jti) ↦ (
                reply (record { access_token = access; refresh_token = refresh }),
                rotate r claims old refresh jti w,
              )
            ]
      ]

  unfoldable pub unless_blacklisted :
      Request → Claims → String → Option Bool × World → Reply Pair × World
  unless_blacklisted r claims old (none, w) = (refuse internal, w)
  unless_blacklisted r claims old (some true, w) = (refuse unauthenticated, w)
  unless_blacklisted r claims old (some false, w) = new_tokens r claims old w

  -- The token of the cookie, or else that of the request.
  abbrev pub presented : Request → String → String
  presented r body = if r.cookie == "" then body else r.cookie

  unfoldable pub refresh_session : Request → String → World → Reply Pair × World
  refresh_session r body w =
      let old = presented r body in
      if old == "" then (refuse invalid_argument, w) else elim (verify_token jose r.now old) [
        | none ↦ (refuse unauthenticated, w)
        | some claims ↦
            unless_blacklisted r claims old (is_token_blacklisted r.now (hash_token old) w)
      ]

  -- The bearer token is blacklisted if it verifies; a failure is only logged.
  unfoldable pub blacklist_bearer : Request → String → World → World
  blacklist_bearer r user w =
      if r.bearer == "" then w else elim (verify_token jose r.now r.bearer) [
        | none ↦ w
        | some claims ↦
            (blacklist_token
              (record {
                token_hash = hash_token r.bearer;
                user_id = user;
                reason = "logout";
                expires_at = claims.expires_at * second;
              })
              w).1
      ]

  abbrev pub or_internal {ℓ} : {A : Type ℓ} → Option A × World → Reply A × World
  or_internal (none, w) = (refuse internal, w)
  or_internal (some a, w) = (reply a, w)

  abbrev pub succeeded : Option ℕ × World → Reply Done × World
  succeeded (none, w) = (refuse internal, w)
  succeeded (some _, w) = (reply done, w)

  unfoldable pub logout : Request → Bool → World → Reply Done × World
  logout r revoke_all w = elim r.user [
    | none ↦ (refuse unauthenticated, w)
    | some user ↦
        let w' = blacklist_bearer r user w in
        if revoke_all
        then succeeded (revoke_all_user_sessions r.now user "" w')
        else (reply done, w')
  ]

  -- The sessions, each with whether it is the current one.
  unfoldable pub list_sessions : Request → World → Reply (List (Session × Bool)) × World
  list_sessions r w = elim r.user [
    | none ↦ (refuse unauthenticated, w)
    | some user ↦
        let found = get_sessions_by_user_id r.now user w in
        (
          elim found.0 [
            | none ↦ refuse internal
            | some sessions ↦ reply (map (λ s. (s, s.id == get_jti_from_context r)) sessions)
          ],
          found.1,
        )
  ]

  abbrev pub revoke_found :
      Request → String → String → Option (Option Session) × World → Reply Done × World
  revoke_found r user id (none, w) = (refuse internal, w)
  revoke_found r user id (some none, w) = (refuse not_found, w)
  revoke_found r user id (some (some s), w) =
      if s.user_id == user
      then or_internal (revoke_session_row r.now id w)
      else (refuse permission_denied, w)

  unfoldable pub revoke_session : Request → String → World → Reply Done × World
  revoke_session r id w = elim r.user [
    | none ↦ (refuse unauthenticated, w)
    | some user ↦
        if id == ""
        then (refuse invalid_argument, w)
        else revoke_found r user id (get_session_by_id id w)
  ]

  unfoldable pub revoke_all_sessions : Request → Bool → World → Reply ℕ × World
  revoke_all_sessions r include_current w = elim r.user [
    | none ↦ (refuse unauthenticated, w)
    | some user ↦
        let except = if include_current then "" else get_jti_from_context r in
        or_internal (revoke_all_user_sessions r.now user except w)
  ]
