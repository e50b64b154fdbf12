-- ===== src/Auth/Sessions/Blacklist.antt =====
-- Which statements keep the entries of the blacklist: all do.
use go_modulith_template.Prelude.{
  ℕ, ◌≡◌, String, Bool, true, false, Option, none, some, List, [], ◌∷◌, ◌++◌, any, ◌==◌, eq_string,
  arith, Bool-cases, inl, inr,
}
use go_modulith_template.Auth.Tables.{
  Db, World, Query, statement, statement_on, ended, Blacklisted, Session,
}
use go_modulith_template.Auth.Queries.Sessions.{
  add_blacklisted, blocks, create_session, insert_session, get_session_by_id,
  get_sessions_by_user_id, revoke_session_row, revoke_all_user_sessions, blacklist_token,
  is_token_blacklisted,
}

-- An entry of the blacklist blocks the hash until `until`.
abbrev pub BlockedUntil : ℕ → String → List Blacklisted → Type 0
BlockedUntil now hash entries = any (blocks now hash) entries ≡ true

any-append :
    {A : Type 0} (p : A → Bool) (xs ys : List A) → any p xs ≡ true → any p (xs ++ ys) ≡ true
any-append p [] ys h = absurd (ground (arith, h))
any-append p (x ∷ xs) ys h = ground (arith, h, any-append p xs ys)

add_blacklisted-keeps :
    (now : ℕ) (hash : String) (e : Blacklisted) (entries : List Blacklisted)
    → BlockedUntil now hash entries
    → BlockedUntil now hash (add_blacklisted e entries)
add_blacklisted-keeps now hash e entries h =
    elim (Bool-cases (any (λ f. f.token_hash == e.token_hash) entries)) [
      | inl known ↦ rw known h
      | inr new ↦ rw new (any-append (blocks now hash) entries (e ∷ []) h)
    ]

abbrev pub Keeps : {A : Type 0} → ℕ → String → Query A → Type 0
Keeps now hash q =
    (w : World) → BlockedUntil now hash w.db.blacklist → BlockedUntil now hash (q w).1.db.blacklist

abbrev AfterKeeps : {A : Type 0} → ℕ → String → Option (A × Db) → Type 0
AfterKeeps now hash none = Unit
AfterKeeps now hash (some (a, db)) = BlockedUntil now hash db.blacklist

pub ended-Keeps :
    {A : Type 0} (now : ℕ) (hash : String) (db : Db) (faults : List Bool) (o : Option (A × Db))
    → AfterKeeps now hash o
    → BlockedUntil now hash db.blacklist
    → BlockedUntil now hash (ended db faults o).1.db.blacklist
ended-Keeps now hash db faults none keeps h = h
ended-Keeps now hash db faults (some (a, db')) keeps h = keeps

-- A statement that keeps an entry in the blacklist does so whether or not it fails.
pub statement_on-Keeps :
    {A : Type 0} (now : ℕ) (hash : String) (f : Db → Option (A × Db)) (db : Db) (faults : List Bool)
    → AfterKeeps now hash (f db)
    → BlockedUntil now hash db.blacklist
    → BlockedUntil now hash (statement_on f db faults).1.db.blacklist
statement_on-Keeps now hash f db [] keeps h = ended-Keeps now hash db [] (f db) keeps h
statement_on-Keeps now hash f db (true ∷ faults) keeps h = h
statement_on-Keeps now hash f db (false ∷ faults) keeps h =
    ended-Keeps now hash db faults (f db) keeps h

pub total-Keeps :
    {A : Type 0} (now : ℕ) (hash : String) (g : Db → A) (k : Db → Db)
    → ((db : Db) → BlockedUntil now hash db.blacklist → BlockedUntil now hash (k db).blacklist)
    → Keeps now hash (statement (λ db. some (g db, k db)))
unfolding statement
total-Keeps now hash g k keeps w h =
    statement_on-Keeps now hash (λ db. some (g db, k db)) w.db w.faults (keeps w.db h) h

pub create_session-Keeps :
    (now : ℕ) (hash : String) (s : Session) → Keeps now hash (create_session s)
unfolding create_session statement
create_session-Keeps now hash s w h =
    statement_on-Keeps now hash (insert_session s) w.db w.faults
      (elim (Bool-cases (any (λ t. t.id == s.id) w.db.sessions)) [
        | inl e ↦ rw e tt
        | inr e ↦ rw e h
      ])
      h

pub blacklist_token-Keeps :
    (now : ℕ) (hash : String) (e : Blacklisted) → Keeps now hash (blacklist_token e)
unfolding blacklist_token
blacklist_token-Keeps now hash e =
    total-Keeps now hash _ _ (λ db h. add_blacklisted-keeps now hash e db.blacklist h)

pub get_session_by_id-Keeps : (now : ℕ) (hash id : String) → Keeps now hash (get_session_by_id id)
unfolding get_session_by_id
get_session_by_id-Keeps now hash id = total-Keeps now hash _ _ (λ db h. h)

pub get_sessions_by_user_id-Keeps :
    (now t : ℕ) (hash user : String) → Keeps now hash (get_sessions_by_user_id t user)
unfolding get_sessions_by_user_id
get_sessions_by_user_id-Keeps now t hash user = total-Keeps now hash _ _ (λ db h. h)

pub revoke_session_row-Keeps :
    (now t : ℕ) (hash id : String) → Keeps now hash (revoke_session_row t id)
unfolding revoke_session_row
revoke_session_row-Keeps now t hash id = total-Keeps now hash _ _ (λ db h. h)

pub revoke_all_user_sessions-Keeps :
    (now t : ℕ) (hash user except : String)
    → Keeps now hash (revoke_all_user_sessions t user except)
unfolding revoke_all_user_sessions
revoke_all_user_sessions-Keeps now t hash user except = total-Keeps now hash _ _ (λ db h. h)

pub is_token_blacklisted-Keeps :
    (now t : ℕ) (hash other : String) → Keeps now hash (is_token_blacklisted t other)
unfolding is_token_blacklisted
is_token_blacklisted-Keeps now t hash other = total-Keeps now hash _ _ (λ db h. h)
