-- ===== src/Auth/Login/Rows.antt =====
-- What the statements of a registration do to the rows.
use go_modulith_template.Prelude.{
  In-kept, ◌≡◌, ◌∙◌, refl, sym, ap, subst, filter, here, In-filter, inl, inr, ◌⊎◌, String, true,
  false, Option, none, some, List, [], ◌∷◌, ◌++◌, map, map-append, In, find, any, ◌==◌, eq_string,
  Bool-cases, arith,
}
use text.Mathlib.TextEquality.{eq_iff}
use go_modulith_template.Auth.Tables.{User, Role, Db, World, Done, nullable}
use go_modulith_template.Auth.Tables.Steps.{
  none-ne-some, some_second, statement-some, read_same, read_some, write_some,
}
use go_modulith_template.Auth.Queries.Users.{
  new_user, conflicts, insert_user, create_user, get_user_by_id, with_profile, update_user_profile,
  add_role, insert_role, is_role_named, assign_role,
}
use go_modulith_template.Auth.Sessions.{reply, refuse, internal}
use go_modulith_template.Auth.Service.{user_to_proto, fetched}

pub insert_user-some :
    (u : User) (db after : Db) (a : Done)
    → insert_user u db ≡ some (a, after)
    → (any (conflicts u) db.users ≡ false) × (after ≡ record db { users = db.users ++ u ∷ [] })
insert_user-some u db after a = elim (Bool-cases (any (conflicts u) db.users)) [
  | inl e ↦ rw e (λ h. absurd (none-ne-some h))
  | inr e ↦ rw e (λ h. (refl, sym (some_second h)))
]

pub create_user-some :
    (id email phone : String) (w : World) (a : Done)
    → (create_user id email phone w).0 ≡ some a
    → (any (conflicts (new_user id email phone)) w.db.users ≡ false)
      × ((create_user id email phone w).1.db
          ≡ record w.db { users = w.db.users ++ new_user id email phone ∷ [] })
unfolding create_user
create_user-some id email phone w a h =
    insert_user-some (new_user id email phone) w.db _ a (statement-some _ w a h)

pub update_user_profile-some :
    (id name avatar timezone : String) (w : World) (a : Done)
    → (update_user_profile id name avatar timezone w).0 ≡ some a
    → (update_user_profile id name avatar timezone w).1.db
      ≡ record w.db { users = map (with_profile id name avatar timezone) w.db.users }
unfolding update_user_profile
update_user_profile-some id name avatar timezone w a h = (write_some _ _ w a h).1

pub insert_role-some :
    (user : String) (found : List Role) (db after : Db) (a : Done)
    → insert_role user found db ≡ some (a, after)
    → (r : Role) × (found ≡ r ∷ [])
      × (after ≡ record db { user_roles = add_role user r.id db.user_roles })
insert_role-some user [] db after a h = absurd (none-ne-some h)
insert_role-some user (r ∷ []) db after a h = (r, refl, sym (some_second h))
insert_role-some user (r ∷ other ∷ more) db after a h = absurd (none-ne-some h)

pub get_user_by_id-same : (id : String) (w : World) → (get_user_by_id id w).1.db ≡ w.db
unfolding get_user_by_id
get_user_by_id-same id w = read_same (λ db. find (λ u. u.id == id) db.users) w

-- A role of the table that is not deleted and has the name, up to case.
abbrev pub IsRoleNamed : (String → String) → String → Db → Role → Type 0
IsRoleNamed lower name db r = In r db.roles × (lower r.name ≡ lower name) × (r.deleted ≡ false)

pub assign_role-some :
    (lower : String → String) (user name : String) (w : World) (a : Done)
    → (assign_role lower user name w).0 ≡ some a
    → (r : Role) × IsRoleNamed lower name w.db r
      × ((assign_role lower user name w).1.db
          ≡ record w.db { user_roles = add_role user r.id w.db.user_roles })
unfolding assign_role
assign_role-some lower user name w a h =
    let p = is_role_named lower name in
    let (r, only, after) =
      insert_role-some user (filter p w.db.roles) w.db _ a (statement-some _ w a h) in
    let found : In r (filter p w.db.roles) = subst (λ l. In r l) (sym only) (here [] refl) in
    let q = In-kept p r w.db.roles found in
    (
      r,
      (
        In-filter p r w.db.roles found,
        ground (arith, q, eq_iff (lower r.name) (lower name)),
        ground (arith, q),
      ),
      after,
    )

-- The profile of a user who is not there changes nothing.
pub profile_of_none :
    (u : User) (name avatar timezone : String) (users : List User)
    → any (conflicts u) users ≡ false
    → map (with_profile u.id name avatar timezone) users ≡ users
profile_of_none u name avatar timezone [] h = refl
profile_of_none u name avatar timezone (v ∷ users) h =
    let other : (v.id == u.id) ≡ false = ground (arith, h) in
    rw other (ap (◌∷◌ v) (profile_of_none u name avatar timezone users (ground (arith, h))))

abbrev pub row_of : String → String → String → String → User
row_of id email phone name = record (new_user id email phone) { display_name = nullable name }

pub row_of_profile :
    (id email phone name : String)
    → with_profile id name "" "" (new_user id email phone) ≡ row_of id email phone name
row_of_profile id email phone name = rw (same id) refl
  where
    same : (id : String) → (id == id) ≡ true
    same id = (eq_iff id id).1 refl

pub users_after :
    (id email phone name : String) (users : List User)
    → any (conflicts (new_user id email phone)) users ≡ false
    → map (with_profile id name "" "") (users ++ new_user id email phone ∷ [])
      ≡ users ++ row_of id email phone name ∷ []
users_after id email phone name users fresh =
    map-append (with_profile id name "" "") users (new_user id email phone ∷ [])
    ∙ ap (λ us. us ++ with_profile id name "" "" (new_user id email phone) ∷ [])
        (profile_of_none (new_user id email phone) name "" "" users fresh)
    ∙ ap (λ u. users ++ u ∷ []) (row_of_profile id email phone name)

pub find_row :
    (id email phone name : String) (users : List User)
    → any (conflicts (new_user id email phone)) users ≡ false
    → find (λ u. u.id == id) (users ++ row_of id email phone name ∷ [])
      ≡ some (row_of id email phone name)
find_row id email phone name [] fresh = rw ((eq_iff id id).1 refl) refl
find_row id email phone name (u ∷ users) fresh =
    let other : (u.id == id) ≡ false = ground (arith, fresh) in
    rw other (find_row id email phone name users (ground (arith, fresh)))

pub get_user_by_id_row :
    (id email phone name : String) (users : List User) (w : World)
    → any (conflicts (new_user id email phone)) users ≡ false
    → w.db.users ≡ users ++ row_of id email phone name ∷ []
    → (o : Option User) → (get_user_by_id id w).0 ≡ some o
    → o ≡ some (row_of id email phone name)
unfolding get_user_by_id
get_user_by_id_row id email phone name users w fresh same o h =
    sym (read_some (λ db. find (λ u. u.id == id) db.users) w o h)
    ∙ ap (find (λ u. u.id == id)) same
    ∙ find_row id email phone name users fresh

pub fetched_of :
    (x : Option (Option User) × World) (u : User)
    → ((o : Option User) → x.0 ≡ some o → o ≡ some u)
    → ((fetched x).0 ≡ reply (user_to_proto u)) ⊎ ((fetched x).0 ≡ refuse internal)
fetched_of (none, w) u k = inr refl
fetched_of (some none, w) u k = absurd (none-ne-some (k none refl))
fetched_of (some (some v), w) u k =
    let e : v ≡ u = cc (k (some v) refl) in inl (ap (λ u. reply (user_to_proto u)) e)

pub fetched_world : (x : Option (Option User) × World) → (fetched x).1 ≡ x.1
fetched_world (none, w) = refl
fetched_world (some none, w) = refl
fetched_world (some (some v), w) = refl
