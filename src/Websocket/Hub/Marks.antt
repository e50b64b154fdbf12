-- ===== src/Websocket/Hub/Marks.antt =====
-- Which connections the hub has noted for a user.
use go_modulith_template.Prelude.{
  ◌≡◌, refl, sym, subst, inl, inr, String, Bool, true, false, not, ◌&&◌, Option, none, some, List,
  [], ◌∷◌, lookup, insert, delete_key, lookup-insert, lookup-delete_key, IsMap, IsMap-insert,
  IsMap-delete_key, ◌==◌, eq_string, if◌then◌else◌, Bool-cases, Option-cases, arith,
}
use text.Mathlib.TextEquality.{eq_iff}
use go_modulith_template.Websocket.Hub.{Client, or_none, add_user, put_ids, without, remove_user}

abbrev pub is_some {ℓ} : {A : Type ℓ} → Option A → Bool
is_some none = false
is_some (some _) = true

abbrev pub marked_in : String → Option (List (String × Bool)) → Bool
marked_in id none = false
marked_in id (some ids) = is_some (lookup id ids)

abbrev pub is_marked : String → String → List (String × List (String × Bool)) → Bool
is_marked user id users = marked_in id (lookup user users)

or_none_marked :
    (id : String) (o : Option (List (String × Bool)))
    → is_some (lookup id (or_none o)) ≡ marked_in id o
or_none_marked id none = refl
or_none_marked id (some ids) = refl

inserted_marked :
    (j id : String) (ids : List (String × Bool))
    → is_some (lookup id (insert j true ids)) ≡ (if j == id then true else is_some (lookup id ids))
inserted_marked j id ids =
    rw (lookup-insert j id true ids)
      (elim (Bool-cases (j == id)) [ inl e ↦ rw e refl | inr e ↦ rw e refl ])

pub is_marked-add_user :
    (c : Client) (user id : String) (users : List (String × List (String × Bool)))
    → is_marked user id (add_user c users) ≡ (
        if not (c.user_id == "") && c.user_id == user && c.id == id
        then true
        else is_marked user id users)
unfolding add_user
is_marked-add_user c user id users = elim (Bool-cases (c.user_id == "")) [
  | inl e ↦ rw e refl
  | inr e ↦ elim (Bool-cases (c.user_id == user)) [
    | inr f ↦
        rw
          (
            e,
            lookup-insert c.user_id user (insert c.id true (or_none (lookup c.user_id users)))
                users,
            f,
          )
          refl
    | inl f ↦
        let same = (eq_iff c.user_id user).0 f in
        rw
          (
            e,
            lookup-insert c.user_id user (insert c.id true (or_none (lookup c.user_id users)))
                users,
            f,
            inserted_marked,
            or_none_marked,
            same,
          )
          refl
  ]
]

pub put_ids_marked :
    (j user id : String) (ids : List (String × Bool)) (users : List (String × List (String × Bool)))
    → is_marked user id (put_ids j ids users)
      ≡ (if j == user then is_some (lookup id ids) else is_marked user id users)
put_ids_marked j user id [] users =
    rw (lookup-delete_key j user users)
      (elim (Bool-cases (j == user)) [ inl e ↦ rw e refl | inr e ↦ rw e refl ])
put_ids_marked j user id (i ∷ ids) users =
    rw (lookup-insert j user (i ∷ ids) users)
      (elim (Bool-cases (j == user)) [ inl e ↦ rw e refl | inr e ↦ rw e refl ])

deleted_marked :
    (j id : String) (ids : List (String × Bool))
    → is_some (lookup id (delete_key j ids)) ≡ (if j == id then false else is_some (lookup id ids))
deleted_marked j id ids =
    rw (lookup-delete_key j id ids)
      (elim (Bool-cases (j == id)) [ inl e ↦ rw e refl | inr e ↦ rw e refl ])

without_marked :
    (c : Client) (user id : String) (users : List (String × List (String × Bool)))
    → is_marked user id (without c (lookup c.user_id users) users)
      ≡ (if c.user_id == user && c.id == id then false else is_marked user id users)
without_marked c user id users = elim (Option-cases (lookup c.user_id users)) [
  | inl e ↦
      rw (e, without)
        (elim (Bool-cases (c.user_id == user)) [
          | inr f ↦ rw f refl
          | inl f ↦
              let same = (eq_iff c.user_id user).0 f in
              rw (f, sym same, e)
                (elim (Bool-cases (c.id == id)) [ inl g ↦ rw g refl | inr g ↦ rw g refl ])
        ])
  | inr (ids, e) ↦
      rw (e, without, put_ids_marked, deleted_marked)
        (elim (Bool-cases (c.user_id == user)) [
          | inr f ↦ rw f refl
          | inl f ↦ let same = (eq_iff c.user_id user).0 f in rw (f, sym same, e) refl
        ])
]

pub is_marked-remove_user :
    (c : Client) (user id : String) (users : List (String × List (String × Bool)))
    → is_marked user id (remove_user c users) ≡ (
        if not (c.user_id == "") && c.user_id == user && c.id == id
        then false
        else is_marked user id users)
unfolding remove_user
is_marked-remove_user c user id users = elim (Bool-cases (c.user_id == "")) [
  | inl e ↦ rw e refl
  | inr e ↦ rw e (without_marked c user id users)
]

-- Every user has a set of ids.
abbrev pub HasSets : List (String × List (String × Bool)) → Type 0
HasSets users =
    (user : String) (ids : List (String × Bool)) → lookup user users ≡ some ids → IsMap ids

insert-HasSets :
    (j : String) (ids : List (String × Bool)) (users : List (String × List (String × Bool)))
    → IsMap ids
    → HasSets users
    → HasSets (insert j ids users)
insert-HasSets j ids users set h user found =
    rw (lookup-insert j user ids users) (elim (Bool-cases (j == user)) [
      | inl e ↦ rw e (λ k. subst IsMap (cc k) set)
      | inr e ↦ rw e (λ k. h user found k)
    ])

delete_key-HasSets :
    (j : String) (users : List (String × List (String × Bool)))
    → HasSets users
    → HasSets (delete_key j users)
delete_key-HasSets j users h user found =
    rw (lookup-delete_key j user users) (elim (Bool-cases (j == user)) [
      | inl e ↦ rw e (λ k. absurd (ground (arith, k)))
      | inr e ↦ rw e (λ k. h user found k)
    ])

or_none-IsMap :
    (user : String) (users : List (String × List (String × Bool)))
    → HasSets users
    → IsMap (or_none (lookup user users))
or_none-IsMap user users h = elim (Option-cases (lookup user users)) [
  | inl e ↦ rw e tt
  | inr (ids, e) ↦ rw e (h user ids e)
]

pub add_user-HasSets :
    (c : Client) (users : List (String × List (String × Bool)))
    → HasSets users
    → HasSets (add_user c users)
unfolding add_user
add_user-HasSets c users h = elim (Bool-cases (c.user_id == "")) [
  | inl e ↦ rw e h
  | inr e ↦ rw e (
      insert-HasSets c.user_id (insert c.id true (or_none (lookup c.user_id users))) users
        (IsMap-insert c.id true (or_none (lookup c.user_id users))
          (or_none-IsMap c.user_id users h))
        h)
]

put_ids-HasSets :
    (j : String) (ids : List (String × Bool)) (users : List (String × List (String × Bool)))
    → IsMap ids
    → HasSets users
    → HasSets (put_ids j ids users)
put_ids-HasSets j [] users set h = delete_key-HasSets j users h
put_ids-HasSets j (i ∷ ids) users set h = insert-HasSets j (i ∷ ids) users set h

pub remove_user-HasSets :
    (c : Client) (users : List (String × List (String × Bool)))
    → HasSets users
    → HasSets (remove_user c users)
unfolding remove_user
remove_user-HasSets c users h = elim (Bool-cases (c.user_id == "")) [
  | inl e ↦ rw e h
  | inr e ↦ elim (Option-cases (lookup c.user_id users)) [
    | inl f ↦ rw (e, f, without) h
    | inr (ids, f) ↦
        rw (e, f, without)
          (put_ids-HasSets c.user_id (delete_key c.id ids) users
            (IsMap-delete_key c.id ids (h c.user_id ids f)) h)
  ]
]
