-- ===== src/Prelude/Lists.antt =====
-- Lists measured by native numbers, and predicates on lists by recursion.
use Prim.Native.Nat.{ℕ, zero, suc, ◌+◌, ◌≤◌}
use mathlib.Core.Path.{◌≡◌, refl, ap, sym, subst, ◌∙◌}
use mathlib.Core.Logic.{inl, inr}
use mathlib.Core.Bool.{Bool, true, false, ◌||◌}
use mathlib.Core.Option.{Option, none, some}
use mathlib.Core.List.{List, [], ◌∷◌, ◌++◌, reverse, reverse-cons}
use native.Mathlib.Omega.{arith}
use go_modulith_template.Prelude.Tests.{if◌then◌else◌, Bool-cases, Option-cases}

module _ {ℓ} {A : Type ℓ} where
  abbrev pub length : List A → ℕ
  length [] = 0
  length (x ∷ xs) = suc (length xs)

  abbrev pub take : ℕ → List A → List A
  take zero xs = []
  take (suc n) [] = []
  take (suc n) (x ∷ xs) = x ∷ take n xs

  abbrev pub drop : ℕ → List A → List A
  drop zero xs = xs
  drop (suc n) [] = []
  drop (suc n) (x ∷ xs) = drop n xs

  abbrev pub filter : (A → Bool) → List A → List A
  filter p [] = []
  filter p (x ∷ xs) = let rest = filter p xs in if p x then x ∷ rest else rest

  abbrev pub find : (A → Bool) → List A → Option A
  find p [] = none
  find p (x ∷ xs) = let rest = find p xs in if p x then some x else rest

  -- The last one, as the newest row is.
  abbrev pub find_last : (A → Bool) → List A → Option A
  find_last p [] = none
  find_last p (x ∷ xs) =
      let rest = find_last p xs in
      elim rest [ some y ↦ some y | none ↦ if p x then some x else none ]

  abbrev pub any : (A → Bool) → List A → Bool
  any p [] = false
  any p (x ∷ xs) = p x || any p xs

  pub length-append : (xs ys : List A) → length (xs ++ ys) ≡ length xs + length ys
  length-append [] ys = omega arith
  length-append (x ∷ xs) ys = omega (arith, length-append xs ys)

  pub take_left-append : (xs ys : List A) → take (length xs) (xs ++ ys) ≡ xs
  take_left-append [] ys = refl
  take_left-append (x ∷ xs) ys = ap (◌∷◌ x) (take_left-append xs ys)

  pub drop_left-append : (xs ys : List A) → drop (length xs) (xs ++ ys) ≡ ys
  drop_left-append [] ys = refl
  drop_left-append (x ∷ xs) ys = drop_left-append xs ys

  pub take-drop : (n : ℕ) (xs : List A) → take n xs ++ drop n xs ≡ xs
  take-drop zero xs = refl
  take-drop (suc n) [] = refl
  take-drop (suc n) (x ∷ xs) = ap (◌∷◌ x) (take-drop n xs)

  pub length-take : (n : ℕ) (xs : List A) → n ≤ length xs → length (take n xs) ≡ n
  length-take zero xs h = refl
  length-take (suc n) [] h = absurd (omega (arith, h))
  length-take (suc n) (x ∷ xs) h = ap suc (length-take n xs (omega (arith, h)))

abbrev pub All {ℓ κ} : {A : Type ℓ} → (A → Type κ) → List A → Type κ
All P [] = Unit
All P (x ∷ xs) = P x × All P xs

module _ {ℓ κ} {A : Type ℓ} (P : A → Type κ) where
  pub All-append : (xs ys : List A) → All P xs → All P ys → All P (xs ++ ys)
  All-append [] ys h k = k
  All-append (x ∷ xs) ys h k = (h.0, All-append xs ys h.1 k)

  pub All-left : (xs ys : List A) → All P (xs ++ ys) → All P xs
  All-left [] ys h = tt
  All-left (x ∷ xs) ys h = (h.0, All-left xs ys h.1)

  pub All-right : (xs ys : List A) → All P (xs ++ ys) → All P ys
  All-right [] ys h = h
  All-right (x ∷ xs) ys h = All-right xs ys h.1

  pub All-reverse : (xs : List A) → All P xs → All P (reverse xs)
  All-reverse [] h = tt
  All-reverse (x ∷ xs) h =
      subst (All P) (sym (reverse-cons x xs))
        (All-append (reverse xs) (x ∷ []) (All-reverse xs h.1) (h.0, tt))

-- Some member has the property; its place is kept.
pub data Any {ℓ κ} {A : Type ℓ} (P : A → Type κ) : List A → Type (ℓ ⊔ κ) where
  here : {x : A} (xs : List A) → P x → Any P (x ∷ xs)
  there : (x : A) {xs : List A} → Any P xs → Any P (x ∷ xs)

abbrev pub In {ℓ} : {A : Type ℓ} → A → List A → Type ℓ
In x = Any (λ y. y ≡ x)

module _ {ℓ} {A : Type ℓ} where
  pub In-take : (n : ℕ) (x : A) (xs : List A) → In x (take n xs) → In x xs
  In-take zero x xs h = elim h [ ]
  In-take (suc n) x [] h = elim h [ ]
  In-take (suc n) x (y ∷ xs) (here _ e) = here xs e
  In-take (suc n) x (y ∷ xs) (there _ h) = there y (In-take n x xs h)

  pub In-filter : (p : A → Bool) (x : A) (xs : List A) → In x (filter p xs) → In x xs
  In-filter p x [] = λ h. h
  In-filter p x (y ∷ xs) = elim (Bool-cases (p y)) [
    | inl e ↦ rw e (λ h. elim h [ here _ k ↦ here xs k | there _ k ↦ there y (In-filter p x xs k) ])
    | inr e ↦ rw e (λ h. there y (In-filter p x xs h))
  ]

  pub In-kept : (p : A → Bool) (x : A) (xs : List A) → In x (filter p xs) → p x ≡ true
  In-kept p x [] = λ h. elim h [ ]
  In-kept p x (y ∷ xs) = elim (Bool-cases (p y)) [
    | inl e ↦ rw e (λ h. elim h [ here _ k ↦ ap p (sym k) ∙ e | there _ k ↦ In-kept p x xs k ])
    | inr e ↦ rw e (In-kept p x xs)
  ]

  pub find_sound :
      (p : A → Bool) (x : A) (xs : List A) → find p xs ≡ some x → In x xs × (p x ≡ true)
  find_sound p x [] = λ h. absurd (ground (arith, h))
  find_sound p x (y ∷ xs) = elim (Bool-cases (p y)) [
    | inl e ↦ rw e (λ h. let same : y ≡ x = cc h in (here xs same, ap p (sym same) ∙ e))
    | inr e ↦ rw e (λ h. let (i, q) = find_sound p x xs h in (there y i, q))
  ]

  pub find_last_sound :
      (p : A → Bool) (x : A) (xs : List A) → find_last p xs ≡ some x → In x xs × (p x ≡ true)
  find_last_sound p x [] = λ h. absurd (ground (arith, h))
  find_last_sound p x (y ∷ xs) = elim (Option-cases (find_last p xs)) [
    | inr (z, e) ↦ rw e (λ h.
        let same : z ≡ x = cc h in
        let (i, q) = find_last_sound p x xs (e ∙ ap some same) in (there y i, q))
    | inl e ↦ elim (Bool-cases (p y)) [
      | inl q ↦ rw (e, q) (λ h. let same : y ≡ x = cc h in (here xs same, ap p (sym same) ∙ q))
      | inr q ↦ rw (e, q) (λ h. absurd (ground (arith, h)))
    ]
  ]

  pub filter-append :
      (p : A → Bool) (xs ys : List A) → filter p (xs ++ ys) ≡ filter p xs ++ filter p ys
  filter-append p [] ys = refl
  filter-append p (x ∷ xs) ys = elim (Bool-cases (p x)) [
    | inl e ↦ rw e (ap (◌∷◌ x) (filter-append p xs ys))
    | inr e ↦ rw e (filter-append p xs ys)
  ]

  pub take_full-append :
      (n : ℕ) (xs ys : List A) → length (take n xs) ≡ n → take n (xs ++ ys) ≡ take n xs
  take_full-append zero xs ys h = refl
  take_full-append (suc n) [] ys h = absurd (omega (arith, h))
  take_full-append (suc n) (x ∷ xs) ys h = ap (◌∷◌ x) (take_full-append n xs ys (omega (arith, h)))

module _ {ℓ κ} {A : Type ℓ} (P : A → Type κ) where
  pub All_In : (x : A) (xs : List A) → All P xs → In x xs → P x
  All_In x [] h k = elim k [ ]
  All_In x (y ∷ xs) h (here _ e) = subst P e h.0
  All_In x (y ∷ xs) h (there _ k) = All_In x xs h.1 k
