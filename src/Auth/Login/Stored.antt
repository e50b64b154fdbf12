-- ===== src/Auth/Login/Stored.antt =====
-- What the statements of a request of a code leave.
use go_modulith_template.Prelude.{
  ◌≡◌, ◌∙◌, refl, sym, ap, inl, inr, ◌⊎◌, ℕ, String, true, false, none, some, List, [], ◌∷◌, ◌++◌,
  any, find, ◌==◌, eq_string, Bool-cases,
}
use go_modulith_template.Outbox.{Entry, store, store_failed}
use go_modulith_template.Auth.Tables.{
  calm, Db, World, Done, Query, statement, nullable, column_is, with_tx,
}
use go_modulith_template.Auth.Tables.Steps.{
  none-ne-some, statement-some, read_same, write_some, with_tx_outcome,
}
use go_modulith_template.Auth.Queries.Users.{
  get_user_by_email, get_user_by_phone, create_magic_code, store_event, stored,
}
use go_modulith_template.Auth.Sessions.{reply, refuse, internal}
use go_modulith_template.Auth.Service.{Moment, Answer, answered}
use go_modulith_template.Auth.Login.{lookup_user}

-- The row of an event that is not published yet.
abbrev pub event_row : Moment → String → String → Entry
event_row m name text = record {
  id = m.event_id;
  event_name = name;
  payload = text;
  created_at = m.stored_at;
  published_at = none;
}

pub store_fresh :
    (m : Moment) (name text : String) (rows : List Entry)
    → any (λ e. e.id == m.event_id) rows ≡ false
    → store false m.stored_at m.event_id name text rows ≡ (rows ++ event_row m name text ∷ [], none)
unfolding store
store_fresh m name text rows fresh = rw fresh refl

pub store_event-some :
    (m : Moment) (name text : String) (w : World) (a : Done)
    → (store_event m.stored_at m.event_id name text w).0 ≡ some a
    → (store_event m.stored_at m.event_id name text w).1.db
      ≡ record w.db { outbox = w.db.outbox ++ event_row m name text ∷ [] }
unfolding store_event
store_event-some m name text w a h =
    let e = statement-some _ w a h in
    elim (Bool-cases (any (λ e. e.id == m.event_id) w.db.outbox)) [
      | inl known ↦ absurd (none-ne-some (sym (ap (λ p. stored p w.db) (kept known)) ∙ e))
      | inr fresh ↦
          cc (sym (ap (λ p. stored p w.db) (store_fresh m name text w.db.outbox fresh)) ∙ e)
    ]
  where
    kept :
        any (λ e. e.id == m.event_id) w.db.outbox ≡ true
        → store false m.stored_at m.event_id name text w.db.outbox
          ≡ (w.db.outbox, some store_failed)
    kept known = unfold store in rw known refl

pub lookup_user-same : (email phone : String) (w : World) → (lookup_user email phone w).1.db ≡ w.db
unfolding lookup_user
lookup_user-same email phone w = elim (Bool-cases (email == "")) [
  | inl e ↦
      rw e (
        unfold get_user_by_phone in
        read_same (λ db. find (λ u. column_is u.phone phone) db.users) w)
  | inr e ↦
      rw e (
        unfold get_user_by_email in
        read_same (λ db. find (λ u. column_is u.email email) db.users) w)
]

pub lookup_user-calm :
    (email phone : String) (db : Db) → (lookup_user email phone (calm db)).1 ≡ calm db
unfolding lookup_user get_user_by_phone get_user_by_email statement
lookup_user-calm email phone db = elim (Bool-cases (email == "")) [
  | inl e ↦ rw (e, lookup_user, get_user_by_phone, statement) refl
  | inr e ↦ rw (e, lookup_user, get_user_by_email, statement) refl
]

pub create_magic_code-some :
    (code email phone : String) (at : ℕ) (w : World) (a : Done)
    → (create_magic_code code email phone at w).0 ≡ some a
    → (create_magic_code code email phone at w).1.db ≡ record w.db {
      magic_codes =
          w.db.magic_codes
          ++ record {
            code = code;
            user_email = nullable email;
            user_phone = nullable phone;
            expires_at = at;
          }
            ∷ [];
    }
unfolding create_magic_code
create_magic_code-some code email phone at w a h = (write_some _ _ w a h).1

-- An answer that stands for a transaction.
pub answered_outcome :
    (answer : Answer) (body : Query Done) (w : World)
    → let x = answered answer (with_tx body w) in
      ((x.0 ≡ refuse internal) × (x.1.db ≡ w.db))
      ⊎ ((a : Done) × (begun : World) × (begun.db ≡ w.db)
          × ((body begun).0 ≡ some a)
          × (x.0 ≡ reply answer)
          × (x.1.db ≡ (body begun).1.db))
answered_outcome answer body w = elim (with_tx_outcome body w) [
  | inl (e, same) ↦ inl (rw (e, answered) (refl, same))
  | inr (a, begun, same, ran, e, after) ↦
      inr (a, begun, same, ran, rw (e, answered) refl, rw (e, answered) after)
]
