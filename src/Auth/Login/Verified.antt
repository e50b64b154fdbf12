-- ===== src/Auth/Login/Verified.antt =====
-- Who a login lets in.
use go_modulith_template.Prelude.{
  ◌≡◌, ◌∙◌, refl, sym, ap, subst, inl, inr, ◌⊎◌, ℕ, ◌<◌, ◌*◌, String, Bool, true, false, ◌&&◌,
  Option, none, some, List, In, find_sound, find_last_sound, ◌==◌, eq_string, if◌then◌else◌,
  Bool-cases, Option-cases, arith,
}
use text.Mathlib.TextEquality.{eq_iff}
use go_modulith_template.Auth.Token.{second, create_token}
use go_modulith_template.Auth.Tables.{User, MagicCode, World, Done, column_is}
use go_modulith_template.Auth.Tables.Steps.{read_some, read_same}
use go_modulith_template.Auth.Queries.Users.{
  get_user_by_email, get_user_by_phone, get_user_role, or_user, get_valid_magic_code_by_email,
  get_valid_magic_code_by_phone, valid_by_email, valid_by_phone,
}
use go_modulith_template.Auth.Sessions.{Reply, reply, refuse, Pair}
use go_modulith_template.Auth.Service.{Service, Moment, and_then}
use go_modulith_template.Auth.Login.{
  lookup_user, checked_code, found_user, get_or_create_user, verify_login_request,
  generate_login_response, complete_login,
}

-- A row is of the contact: of the email, or of the phone where there is no email.
abbrev pub contact_is : String → String → Option String → Option String → Bool
contact_is email phone of_email of_phone =
    if email == "" then column_is of_phone phone else column_is of_email email

-- The code is one of the contact's that has not expired.
abbrev pub IsValidCode : ℕ → String → String → String → List MagicCode → Type 0
IsValidCode now email phone code codes =
    (c : MagicCode) × In c codes
    × (contact_is email phone c.user_email c.user_phone ≡ true)
    × (c.code ≡ code)
    × (now < c.expires_at)

pub refuse-ne-reply : {A : Type 0} {code : _} {a : A} → ¬ (refuse code ≡ reply a)
refuse-ne-reply h = ground (arith, h)

pub and_then_reply :
    {A B : Type 0} (x : Reply A × World) (f : A → World → Reply B × World) (b : B)
    → (and_then x f).0 ≡ reply b
    → (a : A) × (x.0 ≡ reply a) × (and_then x f ≡ f a x.1)
and_then_reply (refuse code, w) f b h = absurd (refuse-ne-reply h)
and_then_reply (reply a, w) f b h = (a, refl, refl)

checked_code_reply :
    (x : Option (Option MagicCode) × World) (a : Done)
    → (checked_code x).0 ≡ reply a
    → (c : MagicCode) × (x.0 ≡ some (some c))
checked_code_reply (none, w) a h = absurd (refuse-ne-reply h)
checked_code_reply (some none, w) a h = absurd (refuse-ne-reply h)
checked_code_reply (some (some c), w) a h = (c, refl)

pub found_user_reply :
    (x : Option (Option User) × World) (u : User) → (found_user x).0 ≡ reply u → x.0 ≡ some (some u)
found_user_reply (none, w) u h = absurd (refuse-ne-reply h)
found_user_reply (some none, w) u h = absurd (refuse-ne-reply h)
found_user_reply (some (some v), w) u h = cc h

pub checked_code_world : (x : Option (Option MagicCode) × World) → (checked_code x).1 ≡ x.1
checked_code_world (none, w) = refl
checked_code_world (some none, w) = refl
checked_code_world (some (some c), w) = refl

pub lookup_user_found :
    (email phone : String) (w : World) (u : User)
    → (lookup_user email phone w).0 ≡ some (some u)
    → In u w.db.users × (contact_is email phone u.email u.phone ≡ true)
unfolding lookup_user
lookup_user_found email phone w u = elim (Bool-cases (email == "")) [
  | inl e ↦ rw e (λ h.
      find_sound (λ u. column_is u.phone phone) u w.db.users
        (unfold get_user_by_phone in read_some _ w _ h))
  | inr e ↦ rw e (λ h.
      find_sound (λ u. column_is u.email email) u w.db.users
        (unfold get_user_by_email in read_some _ w _ h))
]

valid_email :
    (now : ℕ) (email phone code : String) (w : World) (c : MagicCode)
    → (email == "") ≡ false
    → (get_valid_magic_code_by_email now email code w).0 ≡ some (some c)
    → IsValidCode now email phone code w.db.magic_codes
unfolding get_valid_magic_code_by_email
valid_email now email phone code w c named h =
    let (i, p) =
      find_last_sound (valid_by_email now email code) c w.db.magic_codes (read_some _ w _ h) in
    (c, i, rw named (ground (arith, p)), ground (arith, p, eq_iff c.code code), ground (arith, p))

valid_phone :
    (now : ℕ) (email phone code : String) (w : World) (c : MagicCode)
    → (email == "") ≡ true
    → (get_valid_magic_code_by_phone now phone code w).0 ≡ some (some c)
    → IsValidCode now email phone code w.db.magic_codes
unfolding get_valid_magic_code_by_phone
valid_phone now email phone code w c unnamed h =
    let (i, p) =
      find_last_sound (valid_by_phone now phone code) c w.db.magic_codes (read_some _ w _ h) in
    (c, i, rw unnamed (ground (arith, p)), ground (arith, p, eq_iff c.code code), ground (arith, p))

valid_code :
    (now : ℕ) (email phone code : String) (w : World) (a : Done)
    → (if email == ""
        then checked_code (get_valid_magic_code_by_phone now phone code w)
        else checked_code (get_valid_magic_code_by_email now email code w)).0
      ≡ reply a
    → IsValidCode now email phone code w.db.magic_codes
valid_code now email phone code w a h = elim (Bool-cases (email == "")) [
  | inl e ↦
      let (c, found) = checked_code_reply _ a (subst (λ b. (chosen b).0 ≡ reply a) e h) in
      valid_phone now email phone code w c e found
  | inr e ↦
      let (c, found) = checked_code_reply _ a (subst (λ b. (chosen b).0 ≡ reply a) e h) in
      valid_email now email phone code w c e found
]
  where
    chosen : Bool → Reply Done × World
    chosen b =
        if b
        then checked_code (get_valid_magic_code_by_phone now phone code w)
        else checked_code (get_valid_magic_code_by_email now email code w)

module _ (svc : Service) where
  -- The way around the code, in development.
  abbrev pub IsBypass : String → Type 0
  IsBypass code = (code ≡ "000000") × (svc.env ≡ "dev")

  pub verify_login_request_reply :
      (now : ℕ) (email phone code : String) (w : World) (a : Done)
      → (verify_login_request svc now email phone code w).0 ≡ reply a
      → IsBypass code ⊎ IsValidCode now email phone code w.db.magic_codes
  unfolding verify_login_request
  verify_login_request_reply now email phone code w a =
      elim (Bool-cases (email == "" && phone == "")) [
        | inl e ↦ rw e (λ h. absurd (refuse-ne-reply h))
        | inr e ↦ elim (Bool-cases (code == "000000" && svc.env == "dev")) [
          | inl f ↦
              rw (e, f)
                (λ h. inl (
                  ground (arith, f, eq_iff code "000000"),
                  ground (arith, f, eq_iff svc.env "dev"),
                ))
          | inr f ↦ rw (e, f) (λ h. inr (valid_code now email phone code w a h))
        ]
      ]

  pub verify_login_request-same :
      (now : ℕ) (email phone code : String) (w : World)
      → (verify_login_request svc now email phone code w).1.db ≡ w.db
  unfolding verify_login_request
  verify_login_request-same now email phone code w =
      elim (Bool-cases (email == "" && phone == "")) [
        | inl e ↦ rw e refl
        | inr e ↦ elim (Bool-cases (code == "000000" && svc.env == "dev")) [
          | inl f ↦ rw (e, f) refl
          | inr f ↦ elim (Bool-cases (email == "")) [
            | inl g ↦
                rw (e, f, g, checked_code_world)
                  (unfold get_valid_magic_code_by_phone in read_same _ w)
            | inr g ↦
                rw (e, f, g, checked_code_world)
                  (unfold get_valid_magic_code_by_email in read_same _ w)
          ]
        ]
      ]

  -- Both tokens are made for the user, with one role.
  abbrev pub IsPairFor : Moment → User → Pair → Type 0
  IsPairFor m u pair =
      (role jti refresh_jti : String) × (create_token svc.jose m.access_at u.id role (3600 * second)
        ≡ some (pair.access_token, jti))
      × (create_token svc.jose m.refresh_at u.id role (24 * 3600 * second)
          ≡ some (pair.refresh_token, refresh_jti))

  pub generate_login_response_reply :
      (m : Moment) (u : User) (w : World) (pair : Pair)
      → (generate_login_response svc m u w).0 ≡ reply pair
      → IsPairFor m u pair
  unfolding generate_login_response
  generate_login_response_reply m u w pair =
      let role = or_user (get_user_role u.id w).0 in
      elim (Option-cases (create_token svc.jose m.access_at u.id role (3600 * second))) [
        | inl e ↦ rw (e, generate_login_response) (λ h. absurd (refuse-ne-reply h))
        | inr ((access, jti), e) ↦
            elim (Option-cases
              (create_token svc.jose m.refresh_at u.id role (24 * 3600 * second))) [
                | inl f ↦ rw (e, f, generate_login_response) (λ h. absurd (refuse-ne-reply h))
                | inr ((refresh, id), f) ↦
                    rw (e, f, generate_login_response) (λ h. (role, jti, id, e ∙ cc h, f ∙ cc h))
              ]
      ]

  -- A login that answers was let in by a code of the contact that was in the table and had not
  -- expired, or, in development only, by the code 000000; and both tokens are those of a user of the
  -- table who has that contact. This holds whatever faults of the database occur.
  pub complete_login_verified :
      (m : Moment) (email phone code : String) (w : World) (pair : Pair)
      → (complete_login svc m email phone code w).0 ≡ reply pair
      → (IsBypass code ⊎ IsValidCode m.now email phone code w.db.magic_codes)
        × ((u : User) × In u w.db.users
            × (contact_is email phone u.email u.phone ≡ true)
            × IsPairFor m u pair)
  unfolding complete_login get_or_create_user
  complete_login_verified m email phone code w pair h =
      let (a, ok, run) =
        and_then_reply (verify_login_request svc m.now email phone code w) _ pair h in
      let same = verify_login_request-same m.now email phone code w in
      let (u, found, run') =
        and_then_reply
          (get_or_create_user email phone (verify_login_request svc m.now email phone code w).1) _
          pair (sym (ap (λ x. x.0) run) ∙ h) in
      let (i, p) = lookup_user_found email phone _ u (found_user_reply _ u found) in
      (
        verify_login_request_reply m.now email phone code w a ok,
        (
          u,
          subst (λ db. In u db.users) same i,
          p,
          generate_login_response_reply m u _ pair (sym (ap (λ x. x.0) (run ∙ run')) ∙ h),
        ),
      )
