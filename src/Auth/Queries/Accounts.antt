-- ===== src/Auth/Queries/Accounts.antt =====
-- The queries on external accounts, OAuth states and pending changes of contacts, in
-- modules/auth/internal/db/query/auth.sql, as modules/auth/internal/repository/repository.go calls them.
use go_modulith_template.Prelude.{
  ℕ, String, Bool, not, ◌&&◌, ◌||◌, Option, none, some, List, [], ◌∷◌, ◌++◌, map, foldr, length,
  filter, find, any, ltb, leb, ◌==◌, eq_string, if◌then◌else◌,
}
use go_modulith_template.Auth.Tables.{
  PendingChange, ExternalAccount, OauthState, Db, Done, done, Query, statement, nullable,
}

abbrev pub is_account : String → String → ExternalAccount → Bool
is_account provider user a = a.provider == provider && a.provider_user_id == user

abbrev pub insert_account : ExternalAccount → Db → Option (Done × Db)
insert_account a db =
    if any (λ b. b.id == a.id || is_account a.provider a.provider_user_id b) db.accounts
    then none
    else some (done, record db { accounts = db.accounts ++ a ∷ [] })

unfoldable pub create_external_account : ExternalAccount → Query Done
create_external_account a = statement (insert_account a)

unfoldable pub get_external_account : String → String → Query (Option ExternalAccount)
get_external_account provider user =
    statement (λ db. some (find (is_account provider user) db.accounts, db))

-- ORDER BY created_at DESC.
abbrev pub newest_first : ExternalAccount → List ExternalAccount → List ExternalAccount
newest_first a [] = a ∷ []
newest_first a (b ∷ accounts) =
    let rest = newest_first a accounts in
    if leb b.created_at a.created_at then a ∷ b ∷ accounts else b ∷ rest

unfoldable pub get_external_accounts_by_user_id : String → Query (List ExternalAccount)
get_external_accounts_by_user_id user =
    statement (λ db. some (foldr newest_first [] (filter (λ a. a.user_id == user) db.accounts), db))

abbrev pub with_tokens :
    String → String → String → String → Option ℕ → ExternalAccount → ExternalAccount
with_tokens provider user access refresh expires_at a =
    if is_account provider user a
    then record a {
      access_token = nullable access;
      refresh_token = nullable refresh;
      token_expires_at = expires_at;
    }
    else a

unfoldable pub update_external_account_tokens :
    String → String → String → String → Option ℕ → Query Done
update_external_account_tokens provider user access refresh expires_at = statement (λ db. some (
  done,
  record db { accounts = map (with_tokens provider user access refresh expires_at) db.accounts },
))

abbrev pub with_details :
    String → String → String → String → String → ExternalAccount → ExternalAccount
with_details provider user name avatar email a =
    if is_account provider user a
    then record a { name = nullable name; avatar_url = nullable avatar; email = nullable email }
    else a

unfoldable pub update_external_account_profile :
    String → String → String → String → String → Query Done
update_external_account_profile provider user name avatar email = statement (λ db.
    some (
      done,
      record db { accounts = map (with_details provider user name avatar email) db.accounts },
    ))

abbrev pub kept_by : String → String → ExternalAccount → Bool
kept_by user provider a = not (a.user_id == user && a.provider == provider)

-- `:exec` gives no count: nothing says whether a row was there.
unfoldable pub delete_external_account_by_provider : String → String → Query Done
delete_external_account_by_provider user provider =
    statement
      (λ db. some (done, record db { accounts = filter (kept_by user provider) db.accounts }))

unfoldable pub count_external_accounts_by_user_id : String → Query ℕ
count_external_accounts_by_user_id user =
    statement (λ db. some (length (filter (λ a. a.user_id == user) db.accounts), db))

abbrev pub insert_state : OauthState → Db → Option (Done × Db)
insert_state s db =
    if any (λ t. t.state == s.state) db.states
    then none
    else some (done, record db { states = db.states ++ s ∷ [] })

unfoldable pub create_oauth_state : OauthState → Query Done
create_oauth_state s = statement (insert_state s)

unfoldable pub get_oauth_state : ℕ → String → Query (Option OauthState)
get_oauth_state now state =
    statement (λ db. some (find (λ s. s.state == state && ltb now s.expires_at) db.states, db))

unfoldable pub delete_oauth_state : String → Query Done
delete_oauth_state state =
    statement
      (λ db. some (done, record db { states = filter (λ s. not (s.state == state)) db.states }))

unfoldable pub cleanup_expired_oauth_states : ℕ → Query Done
cleanup_expired_oauth_states now =
    statement
      (λ db. some (done, record db { states = filter (λ s. leb now s.expires_at) db.states }))

abbrev pub insert_change : PendingChange → Db → Option (Done × Db)
insert_change c db =
    if any (λ d. d.id == c.id) db.changes
    then none
    else some (done, record db { changes = db.changes ++ c ∷ [] })

unfoldable pub create_pending_contact_change : PendingChange → Query Done
create_pending_contact_change c = statement (insert_change c)

unfoldable pub get_pending_contact_change :
    ℕ → String → String → String → Query (Option PendingChange)
get_pending_contact_change now user change_type code = statement (λ db. some (
  find
      (λ c.
        c.user_id == user
        && c.change_type == change_type
        && c.verification_code == code
        && ltb now c.expires_at)
      db.changes,
  db,
))

unfoldable pub delete_pending_contact_change : String → Query Done
delete_pending_contact_change id =
    statement (λ db. some (done, record db { changes = filter (λ c. not (c.id == id)) db.changes }))
