-- ===== src/Auth/Profile/LastMethod.antt =====
-- Unlinking keeps a way to log in where each provider is linked once, and not otherwise.
use go_modulith_template.Prelude.{
  ◌≡◌, ◌≢◌, ◌∙◌, refl, sym, ap, subst, inl, inr, ◌⊎◌, ◌≤◌, ◌<◌, String, true, false, not, ◌&&◌,
  ◌||◌, some, List, [], ◌∷◌, In, All, filter, find, leb, ◌==◌, eq_string, Bool-cases, arith,
}
use text.Mathlib.TextEquality.{eq_iff}
use go_modulith_template.Auth.Tables.{calm, User, ExternalAccount, Db, World, statement}
use go_modulith_template.Auth.Queries.Users.{get_user_by_id}
use go_modulith_template.Auth.Queries.Accounts.{
  kept_by, count_external_accounts_by_user_id, delete_external_account_by_provider,
}
use go_modulith_template.Auth.Sessions.{reply}
use go_modulith_template.Auth.Service.{Answer}
use go_modulith_template.Auth.Login.Verified.{refuse-ne-reply, and_then_reply}
use go_modulith_template.Auth.Profile.{
  row_or_internal, has_text, unlinked, unlink_counted, unlink_external_account,
}
use go_modulith_template.Auth.Profile.Unlink.{
  row_or_internal_reply, row_or_internal_world, get_user_by_id_found, get_user_by_id-same,
  count_some, count-same, unlink_counted_keeps, of_user, HasContact, accounts_of, provider_accounts,
}

-- A user who unlinks a provider, of which at most one account is linked, keeps an email or a phone or
-- at least one account, whatever faults of the database occur.
pub unlink_external_account_keeps :
    (id provider : String) (w : World) (a : Answer)
    → provider_accounts id provider w.db ≤ 1
    → (unlink_external_account (some id) provider w).0 ≡ reply a
    → ((u : User) × In u w.db.users × (u.id ≡ id) × HasContact u)
      ⊎ (0 < accounts_of id (unlink_external_account (some id) provider w).1.db)
unfolding unlink_external_account
unlink_external_account_keeps id provider w a one = elim (Bool-cases (provider == "")) [
  | inl e ↦ rw e (λ h. absurd (refuse-ne-reply h))
  | inr e ↦ rw e (λ h.
      let x = get_user_by_id id w in
      let (u, found, run) =
        and_then_reply (row_or_internal x)
          (λ u w. unlink_counted id provider u (count_external_accounts_by_user_id id w)) a h in
      let (i, named) = get_user_by_id_found id w u (row_or_internal_reply x u found) in
      let v = (row_or_internal x).1 in
      let same : v.db ≡ w.db = ap World.db (row_or_internal_world x) ∙ get_user_by_id-same id w in
      let counted = count_external_accounts_by_user_id id v in
      let stay = count-same id v in
      elim (unlink_counted_keeps id provider u counted a
        (λ n k. count_some id v n k ∙ ap (accounts_of id) (sym stay)) (rw (stay ∙ same) one)
        (sym (ap (λ x. x.0) run) ∙ h)) [
          | inl contact ↦ inl (u, i, named, contact)
          | inr left ↦ inr (subst (λ x. 0 < accounts_of id x.1.db) (sym run) left)
        ])
]

-- The accounts of the provider are all that the user has.
none_kept :
    (id provider : String) (accounts : List ExternalAccount)
    → All (λ a. a.user_id ≡ id → a.provider ≡ provider) accounts
    → filter (of_user id) (filter (kept_by id provider) accounts) ≡ []
none_kept id provider [] h = refl
none_kept id provider (a ∷ accounts) h = elim (Bool-cases (of_user id a)) [
  | inr e ↦ rw (e, e) (none_kept id provider accounts h.1)
  | inl e ↦
      let same : (a.provider == provider) ≡ true =
        (eq_iff a.provider provider).1 (h.0 ((eq_iff a.user_id id).0 e)) in
      rw (e, same) (none_kept id provider accounts h.1)
]

-- Where two accounts of one provider are all that a user without an email and a phone has, unlinking
-- the provider succeeds and leaves the user without a way to log in.
pub unlink_external_account_locks :
    (id provider : String) (u : User) (db : Db)
    → provider ≢ ""
    → find (λ u. u.id == id) db.users ≡ some u
    → (has_text u.email || has_text u.phone) ≡ false
    → All (λ a. a.user_id ≡ id → a.provider ≡ provider) db.accounts
    → 2 ≤ accounts_of id db
    → let x = unlink_external_account (some id) provider (calm db) in
      (x.0 ≡ reply unlinked) × (filter (of_user id) x.1.db.accounts ≡ [])
unfolding unlink_external_account get_user_by_id count_external_accounts_by_user_id
    delete_external_account_by_provider statement
unlink_external_account_locks id provider u db named found bare only many =
    let given : (provider == "") ≡ false = ground (arith, named, eq_iff provider "") in
    let several : (not (has_text u.email) && not (has_text u.phone) && leb (accounts_of id db) 1)
        ≡ false =
      ground (arith, many, bare) in
    rw
      (
        given, unlink_external_account, get_user_by_id, statement, found,
        count_external_accounts_by_user_id, several, delete_external_account_by_provider,
      )
      (refl, none_kept id provider db.accounts only)
