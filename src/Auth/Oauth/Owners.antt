-- ===== src/Auth/Oauth/Owners.antt =====
-- Whose the external accounts are, before and after a callback.
use go_modulith_template.Prelude.{
  ◌≡◌, ◌∙◌, refl, sym, ap, inl, inr, ◌⊎◌, ℕ, String, false, ◌||◌, Option, some, List, [], ◌∷◌, ◌++◌,
  map, map-append, any, ◌==◌, eq_string, Bool-cases, Option-cases, arith,
}
use go_modulith_template.Auth.Tables.{
  ExternalAccount, Db, World, Done, done, Query, statement, ◌>>◌, ◌>>=◌,
}
use go_modulith_template.Auth.Tables.Steps.{
  none-ne-some, some_second, statement-some, statement-none, write_some,
}
use go_modulith_template.Auth.Queries.Accounts.{
  is_account, insert_account, create_external_account, with_tokens, update_external_account_tokens,
  with_details, update_external_account_profile,
}
use go_modulith_template.Auth.Oauth.{UserInfo}

-- What says whose an account is.
pub record Owner : Type 0 where
  pub id : String
  pub user_id : String
  pub provider : String
  pub provider_user_id : String

abbrev pub owner_of : ExternalAccount → Owner
owner_of a = record {
  id = a.id;
  user_id = a.user_id;
  provider = a.provider;
  provider_user_id = a.provider_user_id;
}

-- The accounts of the tables with their owners.
abbrev pub owners : Db → List Owner
owners db = map owner_of db.accounts

map_owners :
    (f : ExternalAccount → ExternalAccount) (accounts : List ExternalAccount)
    → ((a : ExternalAccount) → owner_of (f a) ≡ owner_of a)
    → map owner_of (map f accounts) ≡ map owner_of accounts
map_owners f [] same = refl
map_owners f (a ∷ accounts) same = rw (same a) (ap (◌∷◌ (owner_of a)) (map_owners f accounts same))

with_tokens-owner :
    (provider user access refresh : String) (at : Option ℕ) (a : ExternalAccount)
    → owner_of (with_tokens provider user access refresh at a) ≡ owner_of a
with_tokens-owner provider user access refresh at a =
    elim (Bool-cases (is_account provider user a)) [ inl e ↦ rw e refl | inr e ↦ rw e refl ]

with_details-owner :
    (provider user name avatar email : String) (a : ExternalAccount)
    → owner_of (with_details provider user name avatar email a) ≡ owner_of a
with_details-owner provider user name avatar email a =
    elim (Bool-cases (is_account provider user a)) [ inl e ↦ rw e refl | inr e ↦ rw e refl ]

write_owners :
    (k : Db → Db) (w : World)
    → ((db : Db) → owners (k db) ≡ owners db)
    → owners (statement (λ db. some (done, k db)) w).1.db ≡ owners w.db
write_owners k w same = elim (Option-cases (statement (λ db. some (done, k db)) w).0) [
  | inl e ↦ ap owners (statement-none (λ db. some (done, k db)) w e)
  | inr (a, e) ↦ ap owners (write_some _ k w a e).1 ∙ same w.db
]

pub both_owners :
    (m k : Query Done) (w : World)
    → ((w : World) → owners (m w).1.db ≡ owners w.db)
    → ((w : World) → owners (k w).1.db ≡ owners w.db)
    → owners ((m >> k) w).1.db ≡ owners w.db
both_owners m k w p q = elim (Option-cases (m w).0) [
  | inl e ↦ rw (e, ◌>>=◌) (p w)
  | inr (a, e) ↦ rw (e, ◌>>=◌) (q _ ∙ p w)
]

pub tokens_owners :
    (provider user access refresh : String) (at : Option ℕ) (w : World)
    → owners (update_external_account_tokens provider user access refresh at w).1.db ≡ owners w.db
unfolding update_external_account_tokens
tokens_owners provider user access refresh at w =
    write_owners _ w
      (λ db. map_owners _ db.accounts (with_tokens-owner provider user access refresh at))

pub profile_owners :
    (provider user name avatar email : String) (w : World)
    → owners (update_external_account_profile provider user name avatar email w).1.db ≡ owners w.db
unfolding update_external_account_profile
profile_owners provider user name avatar email w =
    write_owners _ w
      (λ db. map_owners _ db.accounts (with_details-owner provider user name avatar email))

-- The row of an account that was in no row before.
abbrev pub IsOneMore : String → String → Db → Db → Type 0
IsOneMore provider user before after =
    (o : Owner) × (o.provider ≡ provider)
    × (o.provider_user_id ≡ user)
    × (any (is_account provider user) before.accounts ≡ false)
    × (owners after ≡ owners before ++ o ∷ [])

abbrev pub KeepsOwners : UserInfo → Db → Db → Type 0
KeepsOwners info before after =
    (owners after ≡ owners before) ⊎ IsOneMore info.provider info.provider_user_id before after

insert_account-some :
    (a : ExternalAccount) (db after : Db) (d : Done)
    → insert_account a db ≡ some (d, after)
    → (any (is_account a.provider a.provider_user_id) db.accounts ≡ false)
      × (owners after ≡ owners db ++ owner_of a ∷ [])
insert_account-some a db after d =
    elim (Bool-cases
      (any (λ b. b.id == a.id || is_account a.provider a.provider_user_id b) db.accounts)) [
        | inl e ↦ rw e (λ h. absurd (none-ne-some h))
        | inr e ↦ rw e (λ h. (
          weaker db.accounts e,
          ap owners (sym (some_second h)) ∙ map-append owner_of db.accounts (a ∷ []),
        ))
      ]
  where
    weaker :
        (accounts : List ExternalAccount)
        → any (λ b. b.id == a.id || is_account a.provider a.provider_user_id b) accounts ≡ false
        → any (is_account a.provider a.provider_user_id) accounts ≡ false
    weaker [] h = refl
    weaker (b ∷ accounts) h = ground (arith, h, weaker accounts)

pub create_external_account-owners :
    (a : ExternalAccount) (w : World)
    → (owners (create_external_account a w).1.db ≡ owners w.db)
      ⊎ ((any (is_account a.provider a.provider_user_id) w.db.accounts ≡ false)
          × (owners (create_external_account a w).1.db ≡ owners w.db ++ owner_of a ∷ []))
unfolding create_external_account
create_external_account-owners a w = elim (Option-cases (statement (insert_account a) w).0) [
  | inl e ↦ inl (ap owners (statement-none (insert_account a) w e))
  | inr (d, e) ↦ inr (insert_account-some a w.db _ d (statement-some (insert_account a) w d e))
]
