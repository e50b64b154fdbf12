-- ===== src/Auth/Sessions/Kept.antt =====
-- Requests keep the entries of the blacklist.
use go_modulith_template.Prelude.{
  ℕ, ◌*◌, ◌≡◌, refl, String, Bool, true, false, Option, none, some, List, [], ◌∷◌, ◌==◌, eq_string,
  Bool-cases, Option-cases, inl, inr,
}
use go_modulith_template.Auth.Token.{second, Claims, Jose, create_token, verify_token}
use go_modulith_template.Auth.Tables.{World, Session}
use go_modulith_template.Auth.Sessions.{
  Request, presented, refresh_session, logout, list_sessions, revoke_session, revoke_all_sessions,
  rotate, new_tokens, unless_blacklisted, blacklist_bearer, revoke_found, or_internal, succeeded,
}
use go_modulith_template.Auth.Sessions.Blacklist.{
  BlockedUntil, create_session-Keeps, blacklist_token-Keeps, get_session_by_id-Keeps,
  get_sessions_by_user_id-Keeps, revoke_session_row-Keeps, revoke_all_user_sessions-Keeps,
  is_token_blacklisted-Keeps,
}

-- The requests of this module, by any user, in any order.
pub data Op : Type 0 where
  op_refresh : Request → String → Op
  op_logout : Request → Bool → Op
  op_list : Request → Op
  op_revoke : Request → String → Op
  op_revoke_all : Request → Bool → Op

module _ (jose : Jose) (hash_token : String → String) where
  unfoldable pub apply : Op → World → World
  apply (op_refresh r body) w = (refresh_session jose hash_token r body w).1
  apply (op_logout r revoke_all) w = (logout jose hash_token r revoke_all w).1
  apply (op_list r) w = (list_sessions jose hash_token r w).1
  apply (op_revoke r id) w = (revoke_session jose hash_token r id w).1
  apply (op_revoke_all r include_current) w =
      (revoke_all_sessions jose hash_token r include_current w).1

  unfoldable pub apply_all : List Op → World → World
  apply_all [] w = w
  apply_all (op ∷ ops) w = apply_all ops (apply op w)

  rotate-Keeps :
      (now : ℕ) (hash : String) (r : Request) (claims : Claims) (old refresh jti : String)
      (w : World)
      → BlockedUntil now hash w.db.blacklist
      → BlockedUntil now hash (rotate jose hash_token r claims old refresh jti w).db.blacklist
  unfolding rotate
  rotate-Keeps now hash r claims old refresh jti w h =
      blacklist_token-Keeps now hash _ _ (create_session-Keeps now hash _ w h)

  new_tokens-Keeps :
      (now : ℕ) (hash : String) (r : Request) (claims : Claims) (old : String) (w : World)
      → BlockedUntil now hash w.db.blacklist
      → BlockedUntil now hash (new_tokens jose hash_token r claims old w).1.db.blacklist
  unfolding new_tokens
  new_tokens-Keeps now hash r claims old w h =
      elim (Option-cases
        (create_token jose r.access_at claims.subject claims.role (3600 * second))) [
          | inl e ↦ rw (e, new_tokens) h
          | inr (access, e) ↦
              elim (Option-cases
                (create_token jose r.refresh_at claims.subject claims.role (24 * 3600 * second))) [
                  | inl f ↦ rw (e, f, new_tokens) h
                  | inr (refresh, f) ↦
                      rw (e, f, new_tokens)
                        (rotate-Keeps now hash r claims old refresh.0 refresh.1 w h)
                ]
        ]

  unless_blacklisted-Keeps :
      (now : ℕ) (hash : String) (r : Request) (claims : Claims) (old : String)
      (x : Option Bool × World)
      → BlockedUntil now hash x.1.db.blacklist
      → BlockedUntil now hash (unless_blacklisted jose hash_token r claims old x).1.db.blacklist
  unfolding unless_blacklisted
  unless_blacklisted-Keeps now hash r claims old (none, w) h = h
  unless_blacklisted-Keeps now hash r claims old (some true, w) h = h
  unless_blacklisted-Keeps now hash r claims old (some false, w) h =
      new_tokens-Keeps now hash r claims old w h

  pub refresh_session-Keeps :
      (now : ℕ) (hash : String) (r : Request) (body : String)
      → (w : World) → BlockedUntil now hash w.db.blacklist
      → BlockedUntil now hash (refresh_session jose hash_token r body w).1.db.blacklist
  unfolding refresh_session
  refresh_session-Keeps now hash r body w h =
      elim (Bool-cases (presented jose hash_token r body == "")) [
        | inl e ↦ rw e h
        | inr e ↦ elim (Option-cases (verify_token jose r.now (presented jose hash_token r body))) [
          | inl f ↦ rw (e, f) h
          | inr (claims, f) ↦
              rw (e, f)
                (unless_blacklisted-Keeps now hash r claims _ _
                  (is_token_blacklisted-Keeps now r.now hash _ w h))
        ]
      ]

  blacklist_bearer-Keeps :
      (now : ℕ) (hash : String) (r : Request) (user : String) (w : World)
      → BlockedUntil now hash w.db.blacklist
      → BlockedUntil now hash (blacklist_bearer jose hash_token r user w).db.blacklist
  unfolding blacklist_bearer
  blacklist_bearer-Keeps now hash r user w h = elim (Bool-cases (r.bearer == "")) [
    | inl e ↦ rw e h
    | inr e ↦ elim (Option-cases (verify_token jose r.now r.bearer)) [
      | inl f ↦ rw (e, f) h
      | inr (claims, f) ↦ rw (e, f) (blacklist_token-Keeps now hash _ w h)
    ]
  ]

  or_internal_world : {A : Type 0} (x : Option A × World) → (or_internal jose hash_token x).1 ≡ x.1
  or_internal_world (none, w) = refl
  or_internal_world (some a, w) = refl

  succeeded_world : (x : Option ℕ × World) → (succeeded jose hash_token x).1 ≡ x.1
  succeeded_world (none, w) = refl
  succeeded_world (some a, w) = refl

  logout-Keeps :
      (now : ℕ) (hash : String) (r : Request) (all : Bool) (w : World)
      → BlockedUntil now hash w.db.blacklist
      → BlockedUntil now hash (logout jose hash_token r all w).1.db.blacklist
  unfolding logout
  logout-Keeps now hash r all w h = elim (Option-cases r.user) [
    | inl e ↦ rw (e, logout) h
    | inr (user, e) ↦
        let after = blacklist_bearer-Keeps now hash r user w h in
        elim (Bool-cases all) [
          | inl f ↦
              rw (e, logout, f, succeeded_world)
                (revoke_all_user_sessions-Keeps now r.now hash user "" _ after)
          | inr f ↦ rw (e, logout, f) after
        ]
  ]

  list_sessions-Keeps :
      (now : ℕ) (hash : String) (r : Request) (w : World)
      → BlockedUntil now hash w.db.blacklist
      → BlockedUntil now hash (list_sessions jose hash_token r w).1.db.blacklist
  unfolding list_sessions
  list_sessions-Keeps now hash r w h = elim (Option-cases r.user) [
    | inl e ↦ rw (e, list_sessions) h
    | inr (user, e) ↦ rw (e, list_sessions) (get_sessions_by_user_id-Keeps now r.now hash user w h)
  ]

  revoke_found-Keeps :
      (now : ℕ) (hash : String) (r : Request) (user id : String)
      (x : Option (Option Session) × World)
      → BlockedUntil now hash x.1.db.blacklist
      → BlockedUntil now hash (revoke_found jose hash_token r user id x).1.db.blacklist
  revoke_found-Keeps now hash r user id (none, w) h = h
  revoke_found-Keeps now hash r user id (some none, w) h = h
  revoke_found-Keeps now hash r user id (some (some s), w) h =
      elim (Bool-cases (s.user_id == user)) [
        | inl e ↦ rw (e, or_internal_world) (revoke_session_row-Keeps now r.now hash id w h)
        | inr e ↦ rw e h
      ]

  revoke_session-Keeps :
      (now : ℕ) (hash : String) (r : Request) (id : String) (w : World)
      → BlockedUntil now hash w.db.blacklist
      → BlockedUntil now hash (revoke_session jose hash_token r id w).1.db.blacklist
  unfolding revoke_session
  revoke_session-Keeps now hash r id w h = elim (Option-cases r.user) [
    | inl e ↦ rw (e, revoke_session) h
    | inr (user, e) ↦ elim (Bool-cases (id == "")) [
      | inl f ↦ rw (e, revoke_session, f) h
      | inr f ↦
          rw (e, revoke_session, f)
            (revoke_found-Keeps now hash r user id _ (get_session_by_id-Keeps now hash id w h))
    ]
  ]

  revoke_all_sessions-Keeps :
      (now : ℕ) (hash : String) (r : Request) (include : Bool) (w : World)
      → BlockedUntil now hash w.db.blacklist
      → BlockedUntil now hash (revoke_all_sessions jose hash_token r include w).1.db.blacklist
  unfolding revoke_all_sessions
  revoke_all_sessions-Keeps now hash r include w h = elim (Option-cases r.user) [
    | inl e ↦ rw (e, revoke_all_sessions) h
    | inr (user, e) ↦
        rw (e, revoke_all_sessions, or_internal_world)
          (revoke_all_user_sessions-Keeps now r.now hash user _ w h)
  ]

  -- An entry of the blacklist stays through all requests, at whatever times and with whatever faults.
  pub apply_all-Keeps :
      (now : ℕ) (hash : String) (ops : List Op) (w : World)
      → BlockedUntil now hash w.db.blacklist
      → BlockedUntil now hash (apply_all ops w).db.blacklist
  unfolding apply_all apply
  apply_all-Keeps now hash [] w h = h
  apply_all-Keeps now hash (op_refresh r body ∷ ops) w h =
      apply_all-Keeps now hash ops _ (refresh_session-Keeps now hash r body w h)
  apply_all-Keeps now hash (op_logout r all ∷ ops) w h =
      apply_all-Keeps now hash ops _ (logout-Keeps now hash r all w h)
  apply_all-Keeps now hash (op_list r ∷ ops) w h =
      apply_all-Keeps now hash ops _ (list_sessions-Keeps now hash r w h)
  apply_all-Keeps now hash (op_revoke r id ∷ ops) w h =
      apply_all-Keeps now hash ops _ (revoke_session-Keeps now hash r id w h)
  apply_all-Keeps now hash (op_revoke_all r include ∷ ops) w h =
      apply_all-Keeps now hash ops _ (revoke_all_sessions-Keeps now hash r include w h)
