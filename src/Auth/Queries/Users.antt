-- ===== src/Auth/Queries/Users.antt =====
-- The queries on users, roles and magic codes, in modules/auth/internal/db/query/auth.sql, as
-- modules/auth/internal/repository/repository.go calls them, and the INSERT of internal/outbox.
use go_modulith_template.Prelude.{
  ℕ, String, Bool, true, false, not, ◌&&◌, ◌||◌, Option, none, some, List, [], ◌∷◌, ◌++◌, map,
  filter, find, find_last, any, ltb, ◌==◌, eq_string, if◌then◌else◌,
}
use go_modulith_template.Outbox.{Entry, OutboxError, store}
use go_modulith_template.Auth.Tables.{
  User, Role, MagicCode, Db, Done, done, Query, statement, nothing, nullable, column_is,
}

-- UNIQUE on a column that may be NULL.
abbrev pub clashes : Option String → Option String → Bool
clashes column none = false
clashes column (some s) = column_is column s

abbrev pub new_user : String → String → String → User
new_user id email phone = record {
  id = id;
  email = nullable email;
  phone = nullable phone;
  display_name = none;
  avatar_url = none;
  timezone = none;
  email_verified = false;
  phone_verified = false;
}

abbrev pub conflicts : User → User → Bool
conflicts u v = v.id == u.id || clashes v.email u.email || clashes v.phone u.phone

abbrev pub insert_user : User → Db → Option (Done × Db)
insert_user u db =
    if any (conflicts u) db.users
    then none
    else some (done, record db { users = db.users ++ u ∷ [] })

unfoldable pub create_user : String → String → String → Query Done
create_user id email phone = statement (insert_user (new_user id email phone))

unfoldable pub get_user_by_id : String → Query (Option User)
get_user_by_id id = statement (λ db. some (find (λ u. u.id == id) db.users, db))

unfoldable pub get_user_by_email : String → Query (Option User)
get_user_by_email email = statement (λ db. some (find (λ u. column_is u.email email) db.users, db))

unfoldable pub get_user_by_phone : String → Query (Option User)
get_user_by_phone phone = statement (λ db. some (find (λ u. column_is u.phone phone) db.users, db))

abbrev pub with_profile : String → String → String → String → User → User
with_profile id name avatar timezone u =
    if u.id == id
    then record u {
      display_name = nullable name;
      avatar_url = nullable avatar;
      timezone = nullable timezone;
    }
    else u

unfoldable pub update_user_profile : String → String → String → String → Query Done
update_user_profile id name avatar timezone =
    statement
      (λ db. some (done, record db { users = map (with_profile id name avatar timezone) db.users }))

abbrev pub verified_email : String → User → User
verified_email id u = if u.id == id then record u { email_verified = true } else u

unfoldable pub mark_email_verified : String → Query Done
mark_email_verified id =
    statement (λ db. some (done, record db { users = map (verified_email id) db.users }))

-- The first role of the user that is not deleted.
abbrev pub role_of : List Role → List (String × String) → String → Option String
role_of roles [] user = none
role_of roles ((id, role) ∷ rest) user =
    let later = role_of roles rest user in
    if id == user
    then elim (find (λ r. r.id == role && not r.deleted) roles) [
      | none ↦ later
      | some r ↦ some r.name
    ]
    else later

-- A user without a role is a "user".
abbrev pub or_user : Option String → String
or_user none = "user"
or_user (some name) = name

unfoldable pub get_user_role : String → Query String
get_user_role user = statement (λ db. some (or_user (role_of db.roles db.user_roles user), db))

abbrev pub add_role : String → String → List (String × String) → List (String × String)
add_role user role pairs =
    if any (λ p. p.0 == user && p.1 == role) pairs then pairs else pairs ++ (user, role) ∷ []

-- The rows of the subquery: a role that is missing is a NULL, which the column refuses, and two rows
-- are an error.
abbrev pub insert_role : String → List Role → Db → Option (Done × Db)
insert_role user [] db = none
insert_role user (r ∷ []) db =
    some (done, record db { user_roles = add_role user r.id db.user_roles })
insert_role user (r ∷ other ∷ more) db = none

-- `lower` is the function of SQL.
abbrev pub is_role_named : (String → String) → String → Role → Bool
is_role_named lower name r = lower r.name == lower name && not r.deleted

unfoldable pub assign_role : (String → String) → String → String → Query Done
assign_role lower user name =
    statement (λ db. insert_role user (filter (is_role_named lower name) db.roles) db)

unfoldable pub create_magic_code : String → String → String → ℕ → Query Done
create_magic_code code email phone expires_at = statement (λ db. some (
  done,
  record db {
    magic_codes =
        db.magic_codes
        ++ record {
          code = code;
          user_email = nullable email;
          user_phone = nullable phone;
          expires_at = expires_at;
        }
          ∷ [];
  },
))

abbrev pub valid_by_email : ℕ → String → String → MagicCode → Bool
valid_by_email now email code c =
    column_is c.user_email email && c.code == code && ltb now c.expires_at

abbrev pub valid_by_phone : ℕ → String → String → MagicCode → Bool
valid_by_phone now phone code c =
    column_is c.user_phone phone && c.code == code && ltb now c.expires_at

unfoldable pub get_valid_magic_code_by_email : ℕ → String → String → Query (Option MagicCode)
get_valid_magic_code_by_email now email code =
    statement (λ db. some (find_last (valid_by_email now email code) db.magic_codes, db))

unfoldable pub get_valid_magic_code_by_phone : ℕ → String → String → Query (Option MagicCode)
get_valid_magic_code_by_phone now phone code =
    statement (λ db. some (find_last (valid_by_phone now phone code) db.magic_codes, db))

abbrev pub other_code : String → String → MagicCode → Bool
other_code email phone c =
    if not (email == "")
    then not (column_is c.user_email email)
    else not (column_is c.user_phone phone)

unfoldable pub invalidate_magic_codes : String → String → Query Done
invalidate_magic_codes email phone =
    if email == "" && phone == ""
    then nothing
    else statement (λ db.
      some (done, record db { magic_codes = filter (other_code email phone) db.magic_codes }))

abbrev pub stored : List Entry × Option OutboxError → Db → Option (Done × Db)
stored (rows, none) db = some (done, record db { outbox = rows })
stored (rows, some _) db = none

-- `outbox.Store` in the transaction: the time, the id that it makes, the event and its payload.
unfoldable pub store_event : ℕ → String → String → String → Query Done
store_event now id name payload =
    statement (λ db. stored (store false now id name payload db.outbox) db)
