-- ===== src/Auth/Profile/Tests.antt =====
-- The properties of unlinking at a user with an email and at one with nothing but two accounts.
use go_modulith_template.Prelude.{
  ◌≡◌, ◌⊎◌, refl, ◌<◌, String, none, some, [], ◌∷◌, In, filter, eq_string, string_ne, arith,
}
use go_modulith_template.Auth.Tables.{calm, User, ExternalAccount, Db, statement}
use go_modulith_template.Auth.Queries.Users.{new_user, get_user_by_id}
use go_modulith_template.Auth.Queries.Accounts.{
  count_external_accounts_by_user_id, delete_external_account_by_provider,
}
use go_modulith_template.Auth.Sessions.{reply}
use go_modulith_template.Auth.Profile.{unlinked, unlink_external_account}
use go_modulith_template.Auth.Profile.Unlink.{of_user, HasContact, accounts_of}
use go_modulith_template.Auth.Profile.LastMethod.{
  unlink_external_account_keeps, unlink_external_account_locks,
}
use go_modulith_template.Auth.Tests.{tables}

abbrev account : String → String → ExternalAccount
account id subject = record {
  id = id;
  user_id = "a";
  provider = "google";
  provider_user_id = subject;
  email = none;
  name = none;
  avatar_url = none;
  access_token = none;
  refresh_token = none;
  token_expires_at = none;
  created_at = 1;
}

abbrev reachable : Db
reachable = record tables { users = new_user "a" "a@x" "" ∷ []; accounts = account "e1" "g1" ∷ [] }

abbrev twice : Db
twice = record tables {
  users = new_user "a" "" "" ∷ [];
  accounts = account "e1" "g1" ∷ account "e2" "g2" ∷ [];
}

done_once : (unlink_external_account (some "a") "google" (calm reachable)).0 ≡ reply unlinked
unfolding unlink_external_account get_user_by_id count_external_accounts_by_user_id
    delete_external_account_by_provider statement
done_once = refl

unlink_external_account_keeps_example :
    ((u : User) × In u reachable.users × (u.id ≡ "a") × HasContact u)
    ⊎ (0 < accounts_of "a" (unlink_external_account (some "a") "google" (calm reachable)).1.db)
unlink_external_account_keeps_example =
    unlink_external_account_keeps "a" "google" (calm reachable) unlinked (omega arith) done_once

unlink_external_account_locks_example :
    let x = unlink_external_account (some "a") "google" (calm twice) in
    (x.0 ≡ reply unlinked) × (filter (of_user "a") x.1.db.accounts ≡ [])
unlink_external_account_locks_example =
    unlink_external_account_locks "a" "google" (new_user "a" "" "") twice
      (string_ne "google" "" refl) refl refl ((λ _. refl), ((λ _. refl), tt)) (omega arith)
