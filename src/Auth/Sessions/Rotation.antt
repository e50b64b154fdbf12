-- ===== src/Auth/Sessions/Rotation.antt =====
-- Refresh tokens are rotated: a token that was exchanged is refused from then on.
use go_modulith_template.Prelude.{
  ℕ, ◌*◌, ◌<◌, ◌≡◌, refl, sym, ap, subst, String, Bool, true, false, Option, none, some, List, [],
  ◌∷◌, ◌++◌, any, ◌==◌, eq_string, arith, Bool-cases, Option-cases, inl, inr, ◌⊎◌,
}
use text.Mathlib.TextEquality.{eq_iff}
use go_modulith_template.Auth.Token.{second, Claims, Jose, create_token, verify_token}
use go_modulith_template.Auth.Tables.{
  calm, Db, World, statement, statement_on, Blacklisted, Session,
}
use go_modulith_template.Auth.Queries.Sessions.{
  insert_session, add_blacklisted, blocks, create_session, insert_session, blacklist_token,
  is_token_blacklisted,
}
use go_modulith_template.Auth.Sessions.{
  Reply, reply, refuse, session_for, entry_for, Request, Pair, presented, refresh_session, rotate,
  new_tokens, unless_blacklisted,
}
use go_modulith_template.Auth.Sessions.Blacklist.{BlockedUntil}
use go_modulith_template.Auth.Sessions.Kept.{Op, apply_all, apply_all-Keeps}

abbrev pub IsRefused : {A : Type 0} → Reply A → Type 0
IsRefused (reply _) = ⊥
IsRefused (refuse _) = Unit

checked :
    (now : ℕ) (hash : String) (db : Db) (faults : List Bool)
    → BlockedUntil now hash db.blacklist
    → let x = statement_on (λ db. some (any (blocks now hash) db.blacklist, db)) db faults in
      (x.0 ≡ none) ⊎ (x.0 ≡ some true)
checked now hash db [] h = inr (ap some h)
checked now hash db (true ∷ faults) h = inl refl
checked now hash db (false ∷ faults) h = inr (ap some h)

any_last :
    {A : Type 0} (p : A → Bool) (x : A) (xs : List A) → p x ≡ true → any p (xs ++ x ∷ []) ≡ true
any_last p x [] h = ground (arith, h)
any_last p x (y ∷ xs) h = ground (arith, any_last p x xs h)

created_quietly :
    (s : Session) (db : Db)
    → (sessions : List Session) × ((create_session s (calm db)).1
        ≡ calm (record db { sessions = sessions }))
unfolding create_session statement
created_quietly s db = elim (Bool-cases (any (λ t. t.id == s.id) db.sessions)) [
  | inl known ↦ (db.sessions, rw (insert_session, known))
  | inr new ↦ (db.sessions ++ s ∷ [], rw (insert_session, new))
]

added_blocks :
    (t : ℕ) (e : Blacklisted) (entries : List Blacklisted)
    → any (λ f. f.token_hash == e.token_hash) entries ≡ false
    → t < e.expires_at
    → BlockedUntil t e.token_hash (add_blacklisted e entries)
added_blocks t e entries fresh lt = rw fresh (
    any_last (blocks t e.token_hash) e entries
      (ground (arith, (eq_iff e.token_hash e.token_hash).1 refl, lt)))

blacklist_token_blocks :
    (t : ℕ) (e : Blacklisted) (db : Db)
    → any (λ f. f.token_hash == e.token_hash) db.blacklist ≡ false
    → t < e.expires_at
    → BlockedUntil t e.token_hash (blacklist_token e (calm db)).1.db.blacklist
unfolding blacklist_token statement
blacklist_token_blocks t e db fresh lt = added_blocks t e db.blacklist fresh lt

module _ (jose : Jose) (hash_token : String → String) where
  unless_refuses :
      (r : Request) (claims : Claims) (old : String) (x : Option Bool × World)
      → (x.0 ≡ none) ⊎ (x.0 ≡ some true)
      → IsRefused (unless_blacklisted jose hash_token r claims old x).0
  unfolding unless_blacklisted
  unless_refuses r claims old (none, w) h = tt
  unless_refuses r claims old (some true, w) h = tt
  unless_refuses r claims old (some false, w) h = absurd (ground (arith, h))

  blocked_refuses :
      (r : Request) (body : String) (w : World)
      → BlockedUntil r.now (hash_token (presented jose hash_token r body)) w.db.blacklist
      → IsRefused (refresh_session jose hash_token r body w).0
  unfolding refresh_session
  blocked_refuses r body w h = elim (Bool-cases (presented jose hash_token r body == "")) [
    | inl e ↦ rw e tt
    | inr e ↦ elim (Option-cases (verify_token jose r.now (presented jose hash_token r body))) [
      | inl f ↦ rw (e, f) tt
      | inr (claims, f) ↦
          rw (e, f)
            (unless_refuses r claims _ _
              (unfold is_token_blacklisted statement in checked r.now _ w.db w.faults h))
    ]
  ]

  rotate_blocks :
      (t : ℕ) (r : Request) (claims : Claims) (old refresh jti : String) (db : Db)
      → any (λ e. e.token_hash == hash_token old) db.blacklist ≡ false
      → t < claims.expires_at * second
      → BlockedUntil t
          (hash_token old)
          (rotate jose hash_token r claims old refresh jti (calm db)).db.blacklist
  unfolding rotate
  rotate_blocks t r claims old refresh jti db fresh lt =
      let (sessions, same) =
        created_quietly (session_for jose hash_token r claims refresh jti) db in
      let e = entry_for jose hash_token claims old in
      subst (λ w. BlockedUntil t e.token_hash (blacklist_token e w).1.db.blacklist) (sym same)
        (blacklist_token_blocks t e (record db { sessions = sessions }) fresh lt)

  new_tokens_block :
      (t : ℕ) (r : Request) (claims : Claims) (old : String) (db : Db)
      → any (λ e. e.token_hash == hash_token old) db.blacklist ≡ false
      → t < claims.expires_at * second
      → let x = new_tokens jose hash_token r claims old (calm db) in
        ¬ IsRefused x.0 → BlockedUntil t (hash_token old) x.1.db.blacklist
  unfolding new_tokens
  new_tokens_block t r claims old db fresh lt =
      elim (Option-cases
        (create_token jose r.access_at claims.subject claims.role (3600 * second))) [
          | inl e ↦ rw (e, new_tokens) (λ h. absurd (h tt))
          | inr (access, e) ↦
              elim (Option-cases
                (create_token jose r.refresh_at claims.subject claims.role (24 * 3600 * second))) [
                  | inl f ↦ rw (e, f, new_tokens) (λ h. absurd (h tt))
                  | inr (refresh, f) ↦
                      rw (e, f, new_tokens)
                        (λ _. rotate_blocks t r claims old refresh.0 refresh.1 db fresh lt)
                ]
        ]

  reply_ends-IsRefused : {A : Type 0} (x : Reply A) (a : A) → x ≡ reply a → ¬ IsRefused x
  reply_ends-IsRefused x a e h = subst IsRefused e h

  refresh_blocks :
      (t : ℕ) (r : Request) (body : String) (claims : Claims) (db : Db)
      → let old = presented jose hash_token r body in
        verify_token jose r.now old ≡ some claims
        → any (λ e. e.token_hash == hash_token old) db.blacklist ≡ false
        → t < claims.expires_at * second
        → let x = refresh_session jose hash_token r body (calm db) in
          ¬ IsRefused x.0 → BlockedUntil t (hash_token old) x.1.db.blacklist
  unfolding refresh_session unless_blacklisted is_token_blacklisted statement
  refresh_blocks t r body claims db verified fresh lt =
      let old = presented jose hash_token r body in
      elim (Bool-cases (old == "")) [
        | inl e ↦ rw e (λ h. absurd (h tt))
        | inr e ↦ elim (Bool-cases (any (blocks r.now (hash_token old)) db.blacklist)) [
          | inl f ↦ rw (e, verified, f) (λ h. absurd (h tt))
          | inr f ↦ rw (e, verified, f) (new_tokens_block t r claims old db fresh lt)
        ]
      ]

  -- A refresh token that `RefreshSession` has exchanged is never exchanged again before it expires:
  -- after any further requests of this module, at whatever times and with whatever faults, it is
  -- refused. The exchange met no fault of the database, and the token was not in the blacklist.
  pub refresh_session-IsRefused :
      (r : Request) (body : String) (claims : Claims) (db : Db) (pair : Pair) (ops : List Op)
      (faults : List Bool) (r' : Request) (body' : String)
      → verify_token jose r.now (presented jose hash_token r body) ≡ some claims
      → any (λ e. e.token_hash == hash_token (presented jose hash_token r body)) db.blacklist
        ≡ false
      → (refresh_session jose hash_token r body (calm db)).0 ≡ reply pair
      → presented jose hash_token r' body' ≡ presented jose hash_token r body
      → r'.now < claims.expires_at * second
      → let w = record (refresh_session jose hash_token r body (calm db)).1 { faults = faults } in
        IsRefused (refresh_session jose hash_token r' body' (apply_all jose hash_token ops w)).0
  refresh_session-IsRefused r body claims db pair ops faults r' body' verified fresh done same lt =
      let w = record (refresh_session jose hash_token r body (calm db)).1 { faults = faults } in
      let blocked =
        refresh_blocks r'.now r body claims db verified fresh lt
          (reply_ends-IsRefused _ pair done) in
      blocked_refuses r' body' (apply_all jose hash_token ops w) (
        subst
          (λ k. BlockedUntil r'.now (hash_token k) (apply_all jose hash_token ops w).db.blacklist)
          (sym same) (apply_all-Keeps jose hash_token r'.now _ ops w blocked))
