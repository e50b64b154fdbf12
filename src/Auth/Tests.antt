-- ===== src/Auth/Tests.antt =====
-- The properties of sessions at small tables, with tokens that are their own claims.
use go_modulith_template.Prelude.{
  zero, suc, ◌≡◌, ◌⊎◌, refl, String, true, false, none, some, [], ◌∷◌, map, eq_string, In, arith,
}
use go_modulith_template.Auth.Token.{Claims, Jose, create_token, verify_token}
use go_modulith_template.Auth.Tables.{calm, Db, Session, done, statement}
use go_modulith_template.Auth.Queries.Sessions.{is_live, revoke_id, is_token_blacklisted}
use go_modulith_template.Auth.Sessions.{
  Code, reply, refuse, Request, Pair, new_tokens, unless_blacklisted, refresh_session,
  revoke_session, revoke_all_sessions,
}
use go_modulith_template.Auth.Sessions.Kept.{op_list, apply_all}
use go_modulith_template.Auth.Sessions.Rotation.{IsRefused, refresh_session-IsRefused}
use go_modulith_template.Auth.Sessions.Revoked.{
  refresh_session-revoke_all_sessions, revoke_session-owner,
}

abbrev adas : Claims
adas = record { subject = "a"; role = "user"; expires_at = 90; not_before = 0; id = "3-a" }

-- Every text parses as a token of one user.
abbrev pub trusting : Jose
trusting = record {
  sign = λ claims. some claims.id;
  parse = λ _. some adas;
  valid = λ _ _. true;
  decimal = λ n. elim n [ zero ↦ "0" | suc _ ↦ "1" ];
}

abbrev pub hash : String → String
hash token = token

abbrev request : Request
request = record {
  now = 5;
  access_at = 6;
  refresh_at = 7;
  user = some "a";
  bearer = "";
  cookie = "t";
}

abbrev pub tables : Db
tables = record {
  sessions =
      record {
        id = "s";
        user_id = "a";
        refresh_token_hash = "t";
        last_active_at = 1;
        expires_at = 99;
        revoked_at = none;
      }
      ∷ [];
  blacklist = [];
  users = [];
  roles = [];
  user_roles = [];
  magic_codes = [];
  outbox = [];
  changes = [];
  accounts = [];
  states = [];
}

abbrev fresh_pair : Pair
fresh_pair = record { access_token = "1-a"; refresh_token = "1-a" }

exchanged : (refresh_session trusting hash request "" (calm tables)).0 ≡ reply fresh_pair
unfolding refresh_session verify_token is_token_blacklisted statement unless_blacklisted new_tokens
    create_token
exchanged = refl

verified : verify_token trusting 5 "t" ≡ some adas
unfolding verify_token
verified = refl

refresh_session-IsRefused_example :
    let w = record (refresh_session trusting hash request "" (calm tables)).1 {
      faults = false ∷ true ∷ [];
    } in
    IsRefused
      (refresh_session trusting hash request ""
        (apply_all trusting hash (op_list request ∷ []) w)).0
refresh_session-IsRefused_example =
    refresh_session-IsRefused trusting hash request "" adas tables fresh_pair (op_list request ∷ [])
      (false ∷ true ∷ []) request "" verified refl exchanged refl (omega arith)

refresh_session-revoke_all_sessions_example :
    (refresh_session trusting hash request ""
      (revoke_all_sessions trusting hash request true (calm tables)).1).0
    ≡ (refresh_session trusting hash request "" (calm tables)).0
refresh_session-revoke_all_sessions_example =
    refresh_session-revoke_all_sessions trusting hash request true request "" tables

revoke_session-owner_example :
    let x = revoke_session trusting hash request "s" (calm tables) in
    ((code : Code) × (x ≡ (refuse code, calm tables)))
    ⊎ ((s : Session) × (request.user ≡ some s.user_id)
        × In s tables.sessions
        × (s.id ≡ "s")
        × (is_live s ≡ true)
        × (x ≡ (
          reply done,
          calm (record tables { sessions = map (revoke_id request.now "s") tables.sessions }),
        )))
revoke_session-owner_example = revoke_session-owner trusting hash request "s" tables
