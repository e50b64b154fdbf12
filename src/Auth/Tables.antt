-- ===== src/Auth/Tables.antt =====
-- The tables of the schema auth (modules/auth/resources/db/migration), with what every query of
-- modules/auth/internal/repository/repository.go shares. A table is the list of its rows. Any statement may fail by a fault of the database, which the
-- world lists for the statements to come; a violated foreign key is such a fault. The columns that
-- decide nothing (user agent, address, most times of creation and update, raw profiles) are left out.
pub mod Steps
use go_modulith_template.Prelude.{
  ℕ, String, Bool, true, false, not, ◌&&◌, ◌||◌, Option, none, some, List, [], ◌∷◌, ◌++◌, map,
  foldr, length, filter, any, ltb, leb, ◌==◌, eq_string, if◌then◌else◌,
}
use go_modulith_template.Outbox.{Entry}

pub record Session : Type 0 where
  pub id : String
  pub user_id : String
  pub refresh_token_hash : String
  pub last_active_at : ℕ
  pub expires_at : ℕ
  pub revoked_at : Option ℕ

pub record Blacklisted : Type 0 where
  pub token_hash : String
  pub user_id : String
  pub reason : String
  pub expires_at : ℕ

-- NULL is `none`.
pub record User : Type 0 where
  pub id : String
  pub email : Option String
  pub phone : Option String
  pub display_name : Option String
  pub avatar_url : Option String
  pub timezone : Option String
  pub email_verified : Bool
  pub phone_verified : Bool

pub record Role : Type 0 where
  pub id : String
  pub name : String
  pub deleted : Bool

pub record MagicCode : Type 0 where
  pub code : String
  pub user_email : Option String
  pub user_phone : Option String
  pub expires_at : ℕ

pub record PendingChange : Type 0 where
  pub id : String
  pub user_id : String
  pub change_type : String
  pub new_value : String
  pub verification_code : String
  pub expires_at : ℕ

pub record ExternalAccount : Type 0 where
  pub id : String
  pub user_id : String
  pub provider : String
  pub provider_user_id : String
  pub email : Option String
  pub name : Option String
  pub avatar_url : Option String
  pub access_token : Option String
  pub refresh_token : Option String
  pub token_expires_at : Option ℕ
  pub created_at : ℕ

pub record OauthState : Type 0 where
  pub state : String
  pub provider : String
  pub redirect_url : Option String
  pub user_id : Option String
  pub action : String
  pub expires_at : ℕ

-- `user_roles` pairs ids of users and of roles; `outbox` is the table of internal/outbox.
pub record Db : Type 0 where
  pub sessions : List Session
  pub blacklist : List Blacklisted
  pub users : List User
  pub roles : List Role
  pub user_roles : List (String × String)
  pub magic_codes : List MagicCode
  pub outbox : List Entry
  pub changes : List PendingChange
  pub accounts : List ExternalAccount
  pub states : List OauthState

pub record World : Type 0 where
  pub db : Db
  pub faults : List Bool

-- The world of a database without faults.
abbrev pub calm : Db → World
calm db = record { db = db; faults = [] }

-- What a statement without rows returns.
pub data Done : Type 0 where
  done : Done

abbrev pub Query : Type 0 → Type 0
Query A = World → Option A × World

abbrev pub ended : {A : Type 0} → Db → List Bool → Option (A × Db) → Option A × World
ended db faults none = (none, record { db = db; faults = faults })
ended db faults (some (a, db')) = (some a, record { db = db'; faults = faults })

-- One statement: what it returns and the tables after it, or `none` where it breaks a constraint.
abbrev pub statement_on : {A : Type 0} → (Db → Option (A × Db)) → Db → List Bool → Option A × World
statement_on f db [] = ended db [] (f db)
statement_on f db (true ∷ faults) = (none, record { db = db; faults = faults })
statement_on f db (false ∷ faults) = ended db faults (f db)

unfoldable pub statement : {A : Type 0} → (Db → Option (A × Db)) → Query A
statement f w = statement_on f w.db w.faults

-- A text that is empty is stored as NULL, as `pgtype.Text` with `Valid` does.
abbrev pub nullable : String → Option String
nullable s = if s == "" then none else some s

-- A test `column = $1` on a column that may be NULL.
abbrev pub column_is : Option String → String → Bool
column_is none s = false
column_is (some t) s = t == s

-- One statement after another: the first that fails ends the sequence.
infixl 5 ◌>>=◌ ◌>>◌
abbrev pub ◌>>=◌ : {A B : Type 0} → Query A → (A → Query B) → Query B
◌>>=◌ m f w = elim (m w).0 [ none ↦ (none, (m w).1) | some a ↦ f a (m w).1 ]

abbrev pub ◌>>◌ : {A B : Type 0} → Query A → Query B → Query B
m >> k = m >>= λ _. k

abbrev pub nothing : Query Done
nothing w = (some done, w)

-- BEGIN and COMMIT: both can fail.
unfoldable pub tx_control : Query Done
tx_control = statement (λ db. some (done, db))

abbrev pub rolled_back : {A : Type 0} → Db → World → Option A × World
rolled_back db w = (none, record w { db = db })

-- `WithTx`: the tables are as they were before unless the body and the tx_control succeed.
unfoldable pub with_tx : {A : Type 0} → Query A → Query A
with_tx body w =
    let begun = tx_control w in
    let ran = body begun.1 in
    let committed = tx_control ran.1 in
    elim begun.0 [
      | none ↦ rolled_back w.db begun.1
      | some _ ↦ elim ran.0 [
        | none ↦ rolled_back w.db ran.1
        | some a ↦ elim committed.0 [
          | none ↦ rolled_back w.db committed.1
          | some _ ↦ (some a, committed.1)
        ]
      ]
    ]
