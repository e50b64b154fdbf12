-- ===== src/Auth/Profile/Unlink.antt =====
-- When unlinking an account leaves a way to log in, and when it does not.
use go_modulith_template.Prelude.{
  ◌≡◌, refl, sym, ap, inl, inr, ◌⊎◌, ℕ, ◌+◌, ◌≤◌, ◌<◌, String, Bool, true, not, ◌&&◌, ◌||◌, Option,
  none, some, List, [], ◌∷◌, In, filter, find_sound, length, leb, ◌==◌, eq_string, Bool-cases,
  arith,
}
use text.Mathlib.TextEquality.{eq_iff}
use go_modulith_template.Auth.Tables.{User, ExternalAccount, Db, World, Done}
use go_modulith_template.Auth.Tables.Steps.{read_some, read_same, write_some}
use go_modulith_template.Auth.Queries.Users.{get_user_by_id}
use go_modulith_template.Auth.Queries.Accounts.{
  kept_by, count_external_accounts_by_user_id, delete_external_account_by_provider,
}
use go_modulith_template.Auth.Sessions.{reply}
use go_modulith_template.Auth.Service.{Answer, answered}
use go_modulith_template.Auth.Login.Verified.{refuse-ne-reply}
use go_modulith_template.Auth.Profile.{row_or_internal, has_text, unlinked, unlink_counted}

abbrev pub of_user : String → ExternalAccount → Bool
of_user user a = a.user_id == user

abbrev of_provider : String → String → ExternalAccount → Bool
of_provider user provider a = a.user_id == user && a.provider == provider

-- The accounts of the user are those that stay and those of the provider.
accounts_split :
    (user provider : String) (accounts : List ExternalAccount)
    → length (filter (of_user user) accounts)
      ≤ length (filter (of_user user) (filter (kept_by user provider) accounts))
        + length (filter (of_provider user provider) accounts)
accounts_split user provider [] = omega arith
accounts_split user provider (a ∷ accounts) =
    let rest = accounts_split user provider accounts in
    elim (Bool-cases (of_user user a)) [
      | inr e ↦ rw (e, e) rest
      | inl e ↦ elim (Bool-cases (a.provider == provider)) [
        | inl f ↦ rw (e, f) (omega (arith, rest))
        | inr f ↦ rw (e, f, e) (omega (arith, rest))
      ]
    ]

pub row_or_internal_reply :
    (x : Option (Option User) × World) (u : User)
    → (row_or_internal x).0 ≡ reply u
    → x.0 ≡ some (some u)
row_or_internal_reply (none, w) u h = absurd (refuse-ne-reply h)
row_or_internal_reply (some none, w) u h = absurd (refuse-ne-reply h)
row_or_internal_reply (some (some v), w) u h = cc h

pub row_or_internal_world : (x : Option (Option User) × World) → (row_or_internal x).1 ≡ x.1
row_or_internal_world (none, w) = refl
row_or_internal_world (some none, w) = refl
row_or_internal_world (some (some v), w) = refl

pub get_user_by_id_found :
    (id : String) (w : World) (u : User)
    → (get_user_by_id id w).0 ≡ some (some u)
    → In u w.db.users × (u.id ≡ id)
unfolding get_user_by_id
get_user_by_id_found id w u h =
    let (i, p) = find_sound (λ u. u.id == id) u w.db.users (read_some _ w _ h) in
    (i, (eq_iff u.id id).0 p)

pub get_user_by_id-same : (id : String) (w : World) → (get_user_by_id id w).1.db ≡ w.db
unfolding get_user_by_id
get_user_by_id-same id w = read_same _ w

pub count_some :
    (id : String) (w : World) (n : ℕ)
    → (count_external_accounts_by_user_id id w).0 ≡ some n
    → n ≡ length (filter (of_user id) w.db.accounts)
unfolding count_external_accounts_by_user_id
count_some id w n h = sym (read_some _ w n h)

pub count-same : (id : String) (w : World) → (count_external_accounts_by_user_id id w).1.db ≡ w.db
unfolding count_external_accounts_by_user_id
count-same id w = read_same _ w

delete_some :
    (id provider : String) (w : World) (a : Done)
    → (delete_external_account_by_provider id provider w).0 ≡ some a
    → (delete_external_account_by_provider id provider w).1.db.accounts
      ≡ filter (kept_by id provider) w.db.accounts
unfolding delete_external_account_by_provider
delete_some id provider w a h = ap Db.accounts (write_some _ _ w a h).1

answered_reply :
    {A : Type 0} (a b : Answer) (x : Option A × World)
    → (answered a x).0 ≡ reply b
    → (c : A) × (x.0 ≡ some c)
answered_reply a b (none, w) h = absurd (refuse-ne-reply h)
answered_reply a b (some c, w) h = (c, refl)

answered_world : {A : Type 0} (a : Answer) (x : Option A × World) → (answered a x).1 ≡ x.1
answered_world a (none, w) = refl
answered_world a (some c, w) = refl

-- The user can log in by a contact.
abbrev pub HasContact : User → Type 0
HasContact u = (has_text u.email || has_text u.phone) ≡ true

-- The number of accounts of the user.
abbrev pub accounts_of : String → Db → ℕ
accounts_of id db = length (filter (of_user id) db.accounts)

abbrev pub provider_accounts : String → String → Db → ℕ
provider_accounts id provider db = length (filter (of_provider id provider) db.accounts)

pub unlink_counted_keeps :
    (id provider : String) (u : User) (x : Option ℕ × World) (a : Answer)
    → ((n : ℕ) → x.0 ≡ some n → n ≡ accounts_of id x.1.db)
    → provider_accounts id provider x.1.db ≤ 1
    → (unlink_counted id provider u x).0 ≡ reply a
    → HasContact u ⊎ (0 < accounts_of id (unlink_counted id provider u x).1.db)
unlink_counted_keeps id provider u (none, w) a = λ counted one h. absurd (refuse-ne-reply h)
unlink_counted_keeps id provider u (some n, w) a =
    elim (Bool-cases (not (has_text u.email) && not (has_text u.phone) && leb n 1)) [
      | inl e ↦ rw e (λ counted one h. absurd (refuse-ne-reply h))
      | inr e ↦
          rw (e, answered_world)
            (λ counted one h. elim (Bool-cases (has_text u.email || has_text u.phone)) [
              | inl f ↦ inl f
              | inr f ↦
                  let many : 2 ≤ n = ground (arith, e, f) in
                  let (c, deleted) = answered_reply unlinked a _ h in
                  inr (
                    rw (delete_some id provider w c deleted) (
                      omega (
                        arith,
                        accounts_split id provider w.db.accounts,
                        counted n refl,
                        many,
                        one,
                      )))
            ])
    ]
