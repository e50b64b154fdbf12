-- ===== src/Auth/Oauth/State/Once.antt =====
-- A state comes back as it was saved, and serves one callback.
use go_modulith_template.Prelude.{
  In-kept, ◌≡◌, ◌≢◌, ◌∙◌, refl, sym, ap, inl, inr, ℕ, ◌<◌, String, Bool, true, false, not, ◌&&◌,
  Option, none, some, List, [], ◌∷◌, ◌++◌, any, find, find_sound, In, ltb, ◌==◌, eq_string,
  Bool-cases, Option-cases, arith,
}
use text.Mathlib.TextEquality.{eq_iff}
use go_modulith_template.Auth.Tables.{calm, OauthState, Db, World, done, statement, nullable}
use go_modulith_template.Auth.Tables.Steps.{none-ne-some, statement_quiet, read_some, read_same}
use go_modulith_template.Auth.Queries.Accounts.{
  insert_state, create_oauth_state, get_oauth_state, delete_oauth_state,
}
use go_modulith_template.Auth.Service.{or_empty}
use go_modulith_template.Auth.Oauth.{UserInfo, StateData, OauthService, Moment}
use go_modulith_template.Auth.Oauth.Quiet.{handle_oauth_callback_quiet}
use go_modulith_template.Auth.Oauth.State.{
  to_microseconds, row_of, data_of, save_state, loaded, get_state, delete_state, bad_state, called,
  callback,
}

or_empty-nullable : (s : String) → or_empty (nullable s) ≡ s
or_empty-nullable s = elim (Bool-cases (s == "")) [
  | inl e ↦ rw e (sym ((eq_iff s "").0 e))
  | inr e ↦ rw e refl
]

data_of-row_of :
    (d : StateData) → data_of (row_of d) ≡ record d { expires_at = to_microseconds d.expires_at }
data_of-row_of d = rw (or_empty-nullable d.redirect_url, or_empty-nullable d.user_id) refl

find_last_added :
    (now : ℕ) (s : OauthState) (states : List OauthState)
    → any (λ t. t.state == s.state) states ≡ false
    → now < s.expires_at
    → find (λ t. t.state == s.state && ltb now t.expires_at) (states ++ s ∷ []) ≡ some s
find_last_added now s [] fresh lt =
    let live : ltb now s.expires_at ≡ true = ground (arith, lt) in
    rw ((eq_iff s.state s.state).1 refl, live) refl
find_last_added now s (t ∷ states) fresh lt =
    let other : (t.state == s.state) ≡ false = ground (arith, fresh) in
    rw other (find_last_added now s states (ground (arith, fresh)) lt)

save_state-calm :
    (d : StateData) (db : Db)
    → any (λ t. t.state == d.state) db.states ≡ false
    → save_state d (calm db) ≡ (some done, calm (record db { states = db.states ++ row_of d ∷ [] }))
unfolding save_state create_oauth_state statement
save_state-calm d db fresh =
    rw (fresh, save_state, create_oauth_state, statement, insert_state) refl

-- On a database without faults, what is saved under a new state and asked for before it expires
-- comes back as it was, empty texts included, but for its time of expiry: the table keeps that cut to
-- microseconds, and the state expires at the time so cut.
pub get_state-save_state :
    (now : ℕ) (d : StateData) (db : Db)
    → any (λ t. t.state == d.state) db.states ≡ false
    → now < to_microseconds d.expires_at
    → (get_state now d.state (save_state d (calm db)).1).0
      ≡ some (record d { expires_at = to_microseconds d.expires_at })
unfolding get_state get_oauth_state statement
get_state-save_state now d db fresh lt =
    rw
      (
        save_state-calm d db fresh,
        get_state,
        get_oauth_state,
        statement,
        find_last_added now (row_of d) db.states fresh lt,
      )
      (ap some (data_of-row_of d))

loaded-some :
    (x : Option (Option OauthState) × World) (d : StateData)
    → (loaded x).0 ≡ some d
    → (s : OauthState) × (x.0 ≡ some (some s)) × (data_of s ≡ d)
loaded-some (none, w) d h = absurd (none-ne-some h)
loaded-some (some none, w) d h = absurd (none-ne-some h)
loaded-some (some (some s), w) d h = (s, refl, cc h)

loaded_world : (x : Option (Option OauthState) × World) → (loaded x).1 ≡ x.1
loaded_world (none, w) = refl
loaded_world (some none, w) = refl
loaded_world (some (some s), w) = refl

-- The row of a state that is loaded.
pub get_state-some :
    (now : ℕ) (state : String) (w : World) (d : StateData)
    → (get_state now state w).0 ≡ some d
    → (s : OauthState) × In s w.db.states
      × (s.state ≡ state)
      × (now < s.expires_at)
      × (data_of s ≡ d)
unfolding get_state get_oauth_state
get_state-some now state w d h =
    let (s, found, same) = loaded-some (get_oauth_state now state w) d h in
    let (i, p) =
      find_sound (λ s. s.state == state && ltb now s.expires_at) s w.db.states
        (read_some _ w _ found) in
    (s, i, ground (arith, p, eq_iff s.state state), ground (arith, p), same)

pub get_state-same : (now : ℕ) (state : String) (w : World) → (get_state now state w).1.db ≡ w.db
unfolding get_state get_oauth_state
get_state-same now state w =
    ap World.db (loaded_world (get_oauth_state now state w)) ∙ read_same _ w

get_state-quiet :
    (now : ℕ) (state : String) (w : World) → w.faults ≡ [] → (get_state now state w).1.faults ≡ []
unfolding get_state get_oauth_state
get_state-quiet now state w h =
    ap World.faults (loaded_world (get_oauth_state now state w)) ∙ statement_quiet _ w h

delete_state_gone :
    (state : String) (w : World)
    → w.faults ≡ []
    → (s : OauthState) → In s (delete_state state w).1.db.states
    → s.state ≢ state
unfolding delete_state delete_oauth_state statement
delete_state_gone state w h s =
    rw (h, delete_state, delete_oauth_state, statement)
      (λ i e.
        let kept = In-kept (λ s. not (s.state == state)) s w.db.states i in
        ground (arith, kept, (eq_iff s.state state).1 e))

module _ (svc : OauthService) where
  called_gone :
      (m : Moment) (complete : StateData → Option UserInfo) (state : String)
      (x : Option StateData × World)
      → x.1.faults ≡ []
      → (called svc m complete state x).0 ≢ bad_state
      → (s : OauthState) → In s (called svc m complete state x).1.db.states
      → s.state ≢ state
  called_gone m complete state (none, w) h used = absurd (used refl)
  called_gone m complete state (some d, w) h used = elim (Option-cases (complete d)) [
    | inl e ↦ rw (e, called) (delete_state_gone state w h)
    | inr (info, e) ↦
        rw (e, called) (delete_state_gone state _ (handle_oauth_callback_quiet svc m info d w h))
  ]

  called_bad :
      (m : Moment) (complete : StateData → Option UserInfo) (state : String)
      (x : Option StateData × World)
      → x.0 ≡ none
      → (called svc m complete state x).0 ≡ bad_state
  called_bad m complete state (none, w) h = refl
  called_bad m complete state (some d, w) h = absurd (ground (arith, h))

  -- The state that is presented is in no row: the callback is refused.
  callback_without_row :
      (valid : String → Bool) (m : Moment) (complete : StateData → Option UserInfo) (state : String)
      (w : World)
      → ((s : OauthState) → In s w.db.states → s.state ≢ state)
      → (callback svc valid m complete state w).0 ≡ bad_state
  unfolding callback
  callback_without_row valid m complete state w gone = elim (Bool-cases (state == "")) [
    | inl e ↦ rw e refl
    | inr e ↦ elim (Bool-cases (valid state)) [
      | inr f ↦ rw (e, f) refl
      | inl f ↦
          rw (e, f)
            (called_bad m complete state (get_state m.now state w)
              (elim (Option-cases (get_state m.now state w).0) [
                | inl g ↦ g
                | inr (d, g) ↦
                    let (s, i, same, _, _) = get_state-some m.now state w d g in
                    absurd (gone s i same)
              ]))
    ]
  ]

  callback_gone :
      (valid : String → Bool) (m : Moment) (complete : StateData → Option UserInfo) (state : String)
      (w : World)
      → w.faults ≡ []
      → (callback svc valid m complete state w).0 ≢ bad_state
      → (s : OauthState) → In s (callback svc valid m complete state w).1.db.states
      → s.state ≢ state
  unfolding callback
  callback_gone valid m complete state w quiet = elim (Bool-cases (state == "")) [
    | inl e ↦ rw e (λ used. absurd (used refl))
    | inr e ↦ elim (Bool-cases (valid state)) [
      | inr f ↦ rw (e, f) (λ used. absurd (used refl))
      | inl f ↦
          rw (e, f)
            (called_gone m complete state (get_state m.now state w)
              (get_state-quiet m.now state w quiet))
    ]
  ]

  -- A state serves one callback: after a callback that was not refused, on a database without faults,
  -- every other one with that state is refused, at whatever time and with whatever faults.
  pub callback_once :
      (valid : String → Bool) (m m' : Moment) (complete complete' : StateData → Option UserInfo)
      (state : String) (db : Db) (faults : List Bool)
      → let first = callback svc valid m complete state (calm db) in
        first.0 ≢ bad_state
        → (callback svc valid m' complete' state (record { db = first.1.db; faults = faults })).0
          ≡ bad_state
  callback_once valid m m' complete complete' state db faults used =
      callback_without_row valid m' complete' state _
        (callback_gone valid m complete state (calm db) refl used)
