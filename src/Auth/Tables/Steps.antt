-- ===== src/Auth/Tables/Steps.antt =====
-- What a statement, a sequence of statements and a transaction can leave, whatever faults occur.
use go_modulith_template.Prelude.{
  ◌≡◌, refl, ap, Bool, true, false, Option, none, some, List, [], ◌∷◌, Option-cases, inl, inr, ◌⊎◌,
  arith,
}
use go_modulith_template.Auth.Tables.{
  calm, Db, World, done, Query, ended, statement_on, statement, tx_control, rolled_back, with_tx,
  ◌>>=◌,
}

some_inj {ℓ} : {A : Type ℓ} {a b : A} → some a ≡ some b → a ≡ b
some_inj h = cc h

pub some-ne-none {ℓ} : {A : Type ℓ} {a : A} → ¬ (some a ≡ none)
some-ne-none h = ground (arith, h)

pub none-ne-some {ℓ} : {A : Type ℓ} {a : A} → ¬ (none ≡ some a)
none-ne-some h = ground (arith, h)

pub some_second {ℓ κ} :
    {A : Type ℓ} {B : Type κ} {a c : A} {b d : B}
    → ◌≡◌ {A = Option (A × B)} (some (a, b)) (some (c, d))
    → b ≡ d
some_second h = cc h

module _ {A : Type 0} where
  ended-some :
      (db : Db) (faults : List Bool) (o : Option (A × Db)) (a : A)
      → (ended db faults o).0 ≡ some a
      → o ≡ some (a, (ended db faults o).1.db)
  ended-some db faults none a h = absurd (none-ne-some h)
  ended-some db faults (some (b, db')) a h = ap (λ c. some (c, db')) (some_inj h)

  ended-none :
      (db : Db) (faults : List Bool) (o : Option (A × Db))
      → (ended db faults o).0 ≡ none
      → (ended db faults o).1.db ≡ db
  ended-none db faults none h = refl
  ended-none db faults (some (b, db')) h = absurd (some-ne-none h)

  statement_on-some :
      (f : Db → Option (A × Db)) (db : Db) (faults : List Bool) (a : A)
      → (statement_on f db faults).0 ≡ some a
      → f db ≡ some (a, (statement_on f db faults).1.db)
  statement_on-some f db [] a h = ended-some db [] (f db) a h
  statement_on-some f db (true ∷ faults) a h = absurd (none-ne-some h)
  statement_on-some f db (false ∷ faults) a h = ended-some db faults (f db) a h

  statement_on-none :
      (f : Db → Option (A × Db)) (db : Db) (faults : List Bool)
      → (statement_on f db faults).0 ≡ none
      → (statement_on f db faults).1.db ≡ db
  statement_on-none f db [] h = ended-none db [] (f db) h
  statement_on-none f db (true ∷ faults) h = refl
  statement_on-none f db (false ∷ faults) h = ended-none db faults (f db) h

  -- A statement that returns has done its work on the tables.
  pub statement-some :
      (f : Db → Option (A × Db)) (w : World) (a : A)
      → (statement f w).0 ≡ some a
      → f w.db ≡ some (a, (statement f w).1.db)
  unfolding statement
  statement-some f w a h = statement_on-some f w.db w.faults a h

  -- One that fails leaves them.
  pub statement-none :
      (f : Db → Option (A × Db)) (w : World)
      → (statement f w).0 ≡ none
      → (statement f w).1.db ≡ w.db
  unfolding statement
  statement-none f w h = statement_on-none f w.db w.faults h

  -- A statement that reads leaves them in any case.
  pub read_some :
      (g : Db → A) (w : World) (a : A)
      → (statement (λ db. some (g db, db)) w).0 ≡ some a
      → g w.db ≡ a
  read_some g w a h = cc (statement-some (λ db. some (g db, db)) w a h)

  pub read_same : (g : Db → A) (w : World) → (statement (λ db. some (g db, db)) w).1.db ≡ w.db
  read_same g w = elim (Option-cases (statement (λ db. some (g db, db)) w).0) [
    | inl e ↦ statement-none (λ db. some (g db, db)) w e
    | inr (a, e) ↦ cc (statement-some (λ db. some (g db, db)) w a e)
  ]

  pub write_some :
      (g : Db → A) (k : Db → Db) (w : World) (a : A)
      → (statement (λ db. some (g db, k db)) w).0 ≡ some a
      → (g w.db ≡ a) × ((statement (λ db. some (g db, k db)) w).1.db ≡ k w.db)
  write_some g k w a h = let e = statement-some (λ db. some (g db, k db)) w a h in (cc e, cc e)

pub bind_some :
    {A B : Type 0} (m : Query A) (f : A → Query B) (w : World) (b : B)
    → ((m >>= f) w).0 ≡ some b
    → (a : A) × ((m w).0 ≡ some a) × ((m >>= f) w ≡ f a (m w).1)
bind_some m f w b = elim (Option-cases (m w).0) [
  | inl e ↦ rw (e, ◌>>=◌) (λ h. absurd (none-ne-some h))
  | inr (a, e) ↦ rw (e, ◌>>=◌) (λ h. (a, refl, refl))
]

-- A transaction that fails leaves the tables; one that succeeds leaves what its body left, when it
-- ran on the tables from before.
pub with_tx_outcome :
    {A : Type 0} (body : Query A) (w : World)
    → (((with_tx body w).0 ≡ none) × ((with_tx body w).1.db ≡ w.db))
      ⊎ ((a : A) × (begun : World) × (begun.db ≡ w.db)
          × ((body begun).0 ≡ some a)
          × ((with_tx body w).0 ≡ some a)
          × ((with_tx body w).1.db ≡ (body begun).1.db))
unfolding with_tx
with_tx_outcome body w =
    let begun = tx_control w in
    let ran = body begun.1 in
    elim (Option-cases begun.0) [
      | inl e ↦ inl (rw (e, with_tx) (refl, refl))
      | inr (_, e) ↦ elim (Option-cases ran.0) [
        | inl f ↦ inl (rw (e, f, with_tx) (refl, refl))
        | inr (a, f) ↦ elim (Option-cases (tx_control ran.1).0) [
          | inl g ↦ inl (rw (e, f, g, with_tx) (refl, refl))
          | inr (_, g) ↦ inr (
            a,
            begun.1,
            begun_same w,
            f,
            rw (e, f, g, with_tx) refl,
            rw (e, f, g, with_tx) (begun_same ran.1),
          )
        ]
      ]
    ]
  where
    begun_same : (w : World) → (tx_control w).1.db ≡ w.db
    begun_same w = unfold tx_control in read_same (λ _. done) w

-- Without faults a transaction leaves what its body leaves.
pub with_tx-calm :
    {A : Type 0} (body : Query A) (db after : Db) (a : A)
    → body (calm db) ≡ (some a, calm after)
    → with_tx body (calm db) ≡ (some a, calm after)
unfolding with_tx tx_control statement
with_tx-calm body db after a e =
    ap
      (λ ran. elim ran.0 [
        | none ↦ rolled_back db ran.1
        | some a ↦ elim (tx_control ran.1).0 [
          | none ↦ rolled_back db (tx_control ran.1).1
          | some _ ↦ (some a, (tx_control ran.1).1)
        ]
      ])
      e

ended_quiet : {A : Type 0} (db : Db) (o : Option (A × Db)) → (ended db [] o).1.faults ≡ []
ended_quiet db none = refl
ended_quiet db (some (a, after)) = refl

-- Without faults there are none afterwards.
pub statement_quiet :
    {A : Type 0} (f : Db → Option (A × Db)) (w : World)
    → w.faults ≡ []
    → (statement f w).1.faults ≡ []
unfolding statement
statement_quiet f w h = rw h (ended_quiet w.db (f w.db))

pub bind_quiet :
    {A B : Type 0} (m : Query A) (f : A → Query B) (w : World)
    → (m w).1.faults ≡ []
    → ((a : A) → (f a (m w).1).1.faults ≡ [])
    → ((m >>= f) w).1.faults ≡ []
bind_quiet m f w h k = elim (Option-cases (m w).0) [
  | inl e ↦ rw (e, ◌>>=◌) h
  | inr (a, e) ↦ rw (e, ◌>>=◌) (k a)
]
