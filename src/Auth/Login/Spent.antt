-- ===== src/Auth/Login/Spent.antt =====
-- A code is used once.
use go_modulith_template.Prelude.{
  In-kept, ◌≡◌, ◌∙◌, refl, sym, ap, subst, inl, inr, ℕ, ◌*◌, String, Bool, true, false, not, ◌&&◌,
  Option, none, some, List, [], ◌∷◌, ◌++◌, filter, any, ◌==◌, eq_string, if◌then◌else◌, Bool-cases,
  Option-cases, arith,
}
use go_modulith_template.Auth.Token.{second, create_token}
use go_modulith_template.Auth.Tables.{
  calm, Session, User, MagicCode, Db, World, Done, done, statement, column_is, with_tx,
}
use go_modulith_template.Auth.Tables.Steps.{
  some_second, none-ne-some, statement-some, statement-none, read_same, with_tx-calm,
}
use go_modulith_template.Auth.Queries.Sessions.{create_session, insert_session}
use go_modulith_template.Auth.Queries.Users.{
  get_user_role, or_user, invalidate_magic_codes, other_code, get_valid_magic_code_by_email,
  get_valid_magic_code_by_phone,
}
use go_modulith_template.Auth.Sessions.{Reply, reply, refuse, Pair}
use go_modulith_template.Auth.Sessions.Rotation.{IsRefused}
use go_modulith_template.Auth.Service.{Payload, Service, Moment}
use go_modulith_template.Auth.Login.{
  lookup_user, found_user, get_or_create_user, verify_login_request, login_payload,
  complete_login_tx, generate_login_response, complete_login,
}
use go_modulith_template.Auth.Login.Stored.{lookup_user-calm, event_row}
use go_modulith_template.Auth.Login.Requested.{store_payload-calm}
use go_modulith_template.Auth.Login.Verified.{
  IsValidCode, IsBypass, refuse-ne-reply, checked_code_world, and_then_reply,
  verify_login_request_reply,
}

create_session_codes :
    (s : Session) (w : World) → (create_session s w).1.db.magic_codes ≡ w.db.magic_codes
unfolding create_session
create_session_codes s w = elim (Option-cases (statement (insert_session s) w).0) [
  | inl e ↦ ap Db.magic_codes (statement-none (insert_session s) w e)
  | inr (a, e) ↦ inserted a (statement-some (insert_session s) w a e)
]
  where
    inserted :
        (a : Done) {after : Db}
        → insert_session s w.db ≡ some (a, after)
        → after.magic_codes ≡ w.db.magic_codes
    inserted a {after} = elim (Bool-cases (any (λ t. t.id == s.id) w.db.sessions)) [
      | inl known ↦ rw known (λ h. absurd (none-ne-some h))
      | inr new ↦ rw new (λ h. sym (ap Db.magic_codes (some_second h)))
    ]

opposite :
    (b x y : Bool) → (if not b then not y else not x) ≡ true → (if b then x else y) ≡ true → ⊥
opposite true true y h k = absurd (ground (arith, h))
opposite true false y h k = absurd (ground (arith, k))
opposite false x true h k = absurd (ground (arith, h))
opposite false x false h k = absurd (ground (arith, k))

-- No code of the contact is left.
spent_codes :
    (now : ℕ) (email phone code : String) (codes : List MagicCode)
    → ¬ (IsValidCode now email phone code (filter (other_code email phone) codes))
spent_codes now email phone code codes (c, i, of, _, _) =
    opposite (email == "") (column_is c.user_phone phone) (column_is c.user_email email)
      (In-kept (other_code email phone) c codes i) of

found_user_world : (x : Option (Option User) × World) → (found_user x).1 ≡ x.1
found_user_world (none, w) = refl
found_user_world (some none, w) = refl
found_user_world (some (some u), w) = refl

module _ (svc : Service) where
  generate_login_response_codes :
      (m : Moment) (u : User) (w : World)
      → (generate_login_response svc m u w).1.db.magic_codes ≡ w.db.magic_codes
  unfolding generate_login_response
  generate_login_response_codes m u w =
      let role = or_user (get_user_role u.id w).0 in
      let same = ap Db.magic_codes (get_user_role-same u.id w) in
      elim (Option-cases (create_token svc.jose m.access_at u.id role (3600 * second))) [
        | inl e ↦ rw (e, generate_login_response) same
        | inr (access, e) ↦
            elim (Option-cases
              (create_token svc.jose m.refresh_at u.id role (24 * 3600 * second))) [
                | inl f ↦ rw (e, f, generate_login_response) same
                | inr (refresh, f) ↦
                    rw (e, f, generate_login_response) (create_session_codes _ _ ∙ same)
              ]
      ]
    where
      get_user_role-same : (id : String) (w : World) → (get_user_role id w).1.db ≡ w.db
      get_user_role-same id w = unfold get_user_role in read_same _ w

  verify_login_request-calm :
      (now : ℕ) (email phone code : String) (db : Db)
      → (verify_login_request svc now email phone code (calm db)).1 ≡ calm db
  unfolding verify_login_request get_valid_magic_code_by_email get_valid_magic_code_by_phone
      statement
  verify_login_request-calm now email phone code db =
      elim (Bool-cases (email == "" && phone == "")) [
        | inl e ↦ rw e refl
        | inr e ↦ elim (Bool-cases (code == "000000" && svc.env == "dev")) [
          | inl f ↦ rw (e, f) refl
          | inr f ↦ elim (Bool-cases (email == "")) [
            | inl g ↦ rw (e, f, g, checked_code_world) refl
            | inr g ↦ rw (e, f, g, checked_code_world) refl
          ]
        ]
      ]

  complete_login_tx-calm :
      (m : Moment) (u : User) (email phone text : String) (db : Db)
      → (email == "" && phone == "") ≡ false
      → svc.has_outbox ≡ true
      → svc.marshal (login_payload svc m u email phone) ≡ some text
      → any (λ e. e.id == m.event_id) db.outbox ≡ false
      → complete_login_tx svc m u email phone (calm db) ≡ (
        some done,
        calm (record db {
          magic_codes = filter (other_code email phone) db.magic_codes;
          outbox = db.outbox ++ event_row m "auth.user.logged_in" text ∷ [];
        }),
      )
  unfolding complete_login_tx invalidate_magic_codes statement
  complete_login_tx-calm m u email phone text db some_contact has e fresh =
      rw (some_contact, complete_login_tx, invalidate_magic_codes, statement)
        (store_payload-calm svc m "auth.user.logged_in" text (login_payload svc m u email phone)
          (record db { magic_codes = filter (other_code email phone) db.magic_codes }) has e fresh)

  -- A login that answers names a contact.
  verify_names :
      (now : ℕ) (email phone code : String) (w : World) (a : Done)
      → (verify_login_request svc now email phone code w).0 ≡ reply a
      → (email == "" && phone == "") ≡ false
  unfolding verify_login_request
  verify_names now email phone code w a = elim (Bool-cases (email == "" && phone == "")) [
    | inl e ↦ rw e (λ h. absurd (refuse-ne-reply h))
    | inr e ↦ λ _. e
  ]

  get_or_create_user-calm :
      (email phone : String) (db : Db) → (get_or_create_user email phone (calm db)).1 ≡ calm db
  unfolding get_or_create_user
  get_or_create_user-calm email phone db =
      found_user_world (lookup_user email phone (calm db)) ∙ lookup_user-calm email phone db

  -- After a login the codes of the contact are gone.
  complete_login_clears :
      (m : Moment) (email phone code : String) (db : Db) (pair : Pair)
      → svc.has_outbox ≡ true
      → ((p : Payload) → (text : String) × (svc.marshal p ≡ some text))
      → any (λ e. e.id == m.event_id) db.outbox ≡ false
      → (complete_login svc m email phone code (calm db)).0 ≡ reply pair
      → (complete_login svc m email phone code (calm db)).1.db.magic_codes
        ≡ filter (other_code email phone) db.magic_codes
  unfolding complete_login
  complete_login_clears m email phone code db pair has total fresh h =
      let (a, ok, run) =
        and_then_reply (verify_login_request svc m.now email phone code (calm db)) _ pair h in
      let still = verify_login_request-calm m.now email phone code db in
      let (u, found, run') =
        and_then_reply
          (get_or_create_user email phone
            (verify_login_request svc m.now email phone code (calm db)).1)
          _ pair (sym (ap (λ x. x.0) run) ∙ h) in
      let quiet =
        ap (λ w. (get_or_create_user email phone w).1) still
        ∙ get_or_create_user-calm email phone db in
      let (text, e) = total (login_payload svc m u email phone) in
      let tx = with_tx-calm (complete_login_tx svc m u email phone) db _ done (
        complete_login_tx-calm m u email phone text db
          (verify_names m.now email phone code (calm db) a ok) has e fresh) in
      ap (λ x. x.1.db.magic_codes) (run ∙ run')
      ∙ generate_login_response_codes m u _
      ∙ ap (λ w. (with_tx (complete_login_tx svc m u email phone) w).1.db.magic_codes) quiet
      ∙ ap (λ x. x.1.db.magic_codes) tx

  complete_login_checks :
      (m : Moment) (email phone code : String) (w : World) (pair : Pair)
      → (complete_login svc m email phone code w).0 ≡ reply pair
      → (a : Done) × ((verify_login_request svc m.now email phone code w).0 ≡ reply a)
  unfolding complete_login
  complete_login_checks m email phone code w pair h =
      let (a, ok, _) =
        and_then_reply (verify_login_request svc m.now email phone code w) _ pair h in
      (a, ok)

  -- Where a login answers with tokens on a database without faults, with an outbox whose payloads
  -- all marshal and whose new id is free, the codes of its contact are spent: every login with that
  -- contact on the tables after it is refused, at whatever time, with whatever code and faults, but
  -- by the code 000000 in development.
  pub complete_login_once :
      (m m' : Moment) (email phone code code' : String) (db : Db) (faults : List Bool) (pair : Pair)
      → svc.has_outbox ≡ true
      → ((p : Payload) → (text : String) × (svc.marshal p ≡ some text))
      → any (λ e. e.id == m.event_id) db.outbox ≡ false
      → (complete_login svc m email phone code (calm db)).0 ≡ reply pair
      → ¬ (IsBypass svc code')
      → IsRefused
          (complete_login svc m' email phone code' (record {
            db = (complete_login svc m email phone code (calm db)).1.db;
            faults = faults;
          })).0
  complete_login_once m m' email phone code code' db faults pair has total fresh h prod =
      refused _ (λ pair' again.
        let (a, ok) = complete_login_checks m' email phone code' later pair' again in
        elim (verify_login_request_reply svc m'.now email phone code' _ a ok) [
          | inl bypass ↦ prod bypass
          | inr valid ↦ spent_codes m'.now email phone code' db.magic_codes (
              subst (IsValidCode m'.now email phone code')
                (complete_login_clears m email phone code db pair has total fresh h) valid)
        ])
    where
      later : World
      later = record {
        db = (complete_login svc m email phone code (calm db)).1.db;
        faults = faults;
      }

      refused : (x : Reply Pair) → ((pair : Pair) → x ≡ reply pair → ⊥) → IsRefused x
      refused (reply p) k = k p refl
      refused (refuse c) k = tt
