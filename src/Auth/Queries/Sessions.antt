-- ===== src/Auth/Queries/Sessions.antt =====
-- The queries on auth.sessions and auth.token_blacklist, in modules/auth/internal/db/query/auth.sql, as
-- modules/auth/internal/repository/repository.go calls them.
use go_modulith_template.Prelude.{
  ℕ, String, Bool, true, false, not, ◌&&◌, ◌||◌, Option, none, some, List, [], ◌∷◌, ◌++◌, map,
  foldr, length, filter, any, ltb, leb, ◌==◌, eq_string, if◌then◌else◌,
}
use go_modulith_template.Auth.Tables.{Session, Blacklisted, Db, Done, done, Query, statement}

abbrev pub is_live : Session → Bool
is_live s = elim s.revoked_at [ none ↦ true | some _ ↦ false ]

abbrev pub insert_session : Session → Db → Option (Done × Db)
insert_session s db =
    if any (λ t. t.id == s.id) db.sessions
    then none
    else some (done, record db { sessions = db.sessions ++ s ∷ [] })

unfoldable pub create_session : Session → Query Done
create_session s = statement (insert_session s)

abbrev pub find_live : String → List Session → Option Session
find_live id [] = none
find_live id (s ∷ sessions) =
    let rest = find_live id sessions in if s.id == id && is_live s then some s else rest

-- `none` inside is `pgx.ErrNoRows`.
unfoldable pub get_session_by_id : String → Query (Option Session)
get_session_by_id id = statement (λ db. some (find_live id db.sessions, db))

-- ORDER BY last_active_at DESC.
abbrev pub sort_in : Session → List Session → List Session
sort_in s [] = s ∷ []
sort_in s (t ∷ sessions) =
    let rest = sort_in s sessions in
    if leb t.last_active_at s.last_active_at then s ∷ t ∷ sessions else t ∷ rest

abbrev pub active_of : ℕ → String → Session → Bool
active_of now user_id s = s.user_id == user_id && is_live s && ltb now s.expires_at

unfoldable pub get_sessions_by_user_id : ℕ → String → Query (List Session)
get_sessions_by_user_id now user_id =
    statement (λ db. some (foldr sort_in [] (filter (active_of now user_id) db.sessions), db))

abbrev pub revoke_id : ℕ → String → Session → Session
revoke_id now id s = if s.id == id then record s { revoked_at = some now } else s

unfoldable pub revoke_session_row : ℕ → String → Query Done
revoke_session_row now id =
    statement (λ db. some (done, record db { sessions = map (revoke_id now id) db.sessions }))

abbrev pub revocable : String → String → Session → Bool
revocable user_id except s =
    s.user_id == user_id && is_live s && (except == "" || not (s.id == except))

abbrev pub revoke_if : ℕ → String → String → Session → Session
revoke_if now user_id except s =
    if revocable user_id except s then record s { revoked_at = some now } else s

-- The number of rows that it changed.
unfoldable pub revoke_all_user_sessions : ℕ → String → String → Query ℕ
revoke_all_user_sessions now user_id except = statement (λ db. some (
  length (filter (revocable user_id except) db.sessions),
  record db { sessions = map (revoke_if now user_id except) db.sessions },
))

-- ON CONFLICT (token_hash) DO NOTHING.
abbrev pub add_blacklisted : Blacklisted → List Blacklisted → List Blacklisted
add_blacklisted e entries =
    if any (λ f. f.token_hash == e.token_hash) entries then entries else entries ++ e ∷ []

unfoldable pub blacklist_token : Blacklisted → Query Done
blacklist_token e =
    statement (λ db. some (done, record db { blacklist = add_blacklisted e db.blacklist }))

abbrev pub blocks : ℕ → String → Blacklisted → Bool
blocks now hash e = e.token_hash == hash && ltb now e.expires_at

unfoldable pub is_token_blacklisted : ℕ → String → Query Bool
is_token_blacklisted now hash = statement (λ db. some (any (blocks now hash) db.blacklist, db))
