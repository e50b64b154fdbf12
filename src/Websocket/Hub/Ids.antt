-- ===== src/Websocket/Hub/Ids.antt =====
-- The ids of the clients in the loops of the hub.
use go_modulith_template.Prelude.{
  ◌≡◌, ◌∙◌, refl, sym, ap, subst, inl, inr, String, Bool, false, ◌&&◌, none, some, List, [], ◌∷◌,
  All, lookup, insert, delete_key, IsMap, ◌==◌, eq_string, Bool-cases, Option-cases, arith,
}
use text.Mathlib.TextEquality.{eq_iff}
use go_modulith_template.Websocket.Hub.{Client, client_ids, present}
use go_modulith_template.Websocket.Hub.Marks.{is_some}
use go_modulith_template.Websocket.Hub.Offers.{is_in, IsDistinct}

-- Every client stands under its id.
abbrev pub IsNamed : List (String × Client) → Type 0
IsNamed = All (λ p. p.1.id ≡ p.0)

pub named_lookup :
    (id : String) (c : Client) (clients : List (String × Client))
    → IsNamed clients
    → lookup id clients ≡ some c
    → c.id ≡ id
named_lookup id c [] h = λ k. absurd (ground (arith, k))
named_lookup id c ((j, d) ∷ clients) h = elim (Bool-cases (j == id)) [
  | inl e ↦ rw e (λ k. let same : d ≡ c = cc k in ap Client.id (sym same) ∙ h.0 ∙ (eq_iff j id).0 e)
  | inr e ↦ rw e (named_lookup id c clients h.1)
]

pub insert-IsNamed :
    (c : Client) (clients : List (String × Client))
    → IsNamed clients
    → IsNamed (insert c.id c clients)
insert-IsNamed c [] h = (refl, tt)
insert-IsNamed c ((j, d) ∷ clients) h = elim (Bool-cases (j == c.id)) [
  | inl e ↦ rw e (refl, h.1)
  | inr e ↦ rw e (h.0, insert-IsNamed c clients h.1)
]

pub delete_key-IsNamed :
    (id : String) (clients : List (String × Client))
    → IsNamed clients
    → IsNamed (delete_key id clients)
delete_key-IsNamed id [] h = tt
delete_key-IsNamed id ((j, d) ∷ clients) h = elim (Bool-cases (j == id)) [
  | inl e ↦ rw e (delete_key-IsNamed id clients h.1)
  | inr e ↦ rw e (h.0, delete_key-IsNamed id clients h.1)
]

pub is_in-client_ids :
    (id : String) (clients : List (String × Client))
    → IsNamed clients
    → is_in id (client_ids clients) ≡ is_some (lookup id clients)
is_in-client_ids id [] h = refl
is_in-client_ids id ((j, c) ∷ clients) h = elim (Bool-cases (j == id)) [
  | inl e ↦ rw (h.0, e) refl
  | inr e ↦ rw (h.0, e) (is_in-client_ids id clients h.1)
]

pub client_ids-IsDistinct :
    (clients : List (String × Client))
    → IsNamed clients
    → IsMap clients
    → IsDistinct (client_ids clients)
client_ids-IsDistinct [] h k = tt
client_ids-IsDistinct ((j, c) ∷ clients) h k = (
  is_in-client_ids c.id clients h.1 ∙ ap (λ i. is_some (lookup i clients)) h.0 ∙ ap is_some k.0,
  client_ids-IsDistinct clients h.1 k.1,
)

pub is_in-present :
    (id : String) (clients : List (String × Client)) (ids : List (String × Bool))
    → IsNamed clients
    → is_in id (present clients ids) ≡ (is_some (lookup id clients) && is_some (lookup id ids))
is_in-present id clients [] h = ground arith
is_in-present id clients ((j, b) ∷ ids) h =
    let rest = is_in-present id clients ids h in
    elim (Option-cases (lookup j clients)) [
      | inl e ↦ elim (Bool-cases (j == id)) [
        | inl f ↦
            let none_there : lookup id clients ≡ none =
              subst (λ i. lookup i clients ≡ none) ((eq_iff j id).0 f) e in
            rw (e, f, none_there, present) (rest ∙ rw none_there refl)
        | inr f ↦ rw (e, f, present) rest
      ]
      | inr (c, e) ↦
          let named = named_lookup j c clients h e in
          elim (Bool-cases (j == id)) [
            | inl f ↦
                let there : lookup id clients ≡ some c =
                  subst (λ i. lookup i clients ≡ some c) ((eq_iff j id).0 f) e in
                rw (e, named, f, there, present) refl
            | inr f ↦ rw (e, named, f, present) rest
          ]
    ]

pub present-IsDistinct :
    (clients : List (String × Client)) (ids : List (String × Bool))
    → IsNamed clients
    → IsMap ids
    → IsDistinct (present clients ids)
present-IsDistinct clients [] h k = tt
present-IsDistinct clients ((j, b) ∷ ids) h k = elim (Option-cases (lookup j clients)) [
  | inl e ↦ rw (e, IsDistinct, present) (present-IsDistinct clients ids h k.1)
  | inr (c, e) ↦
      let once : is_in j (present clients ids) ≡ false =
        is_in-present j clients ids h ∙ rw (e, k.0) refl in
      rw (e, IsDistinct, present)
        (
          subst (λ i. is_in i (present clients ids) ≡ false) (sym (named_lookup j c clients h e))
              once,
          present-IsDistinct clients ids h k.1,
        )
]
