-- ===== src/Prelude/Maps.antt =====
-- Go maps as association lists. A key stands at most once in a map that is built by `insert`;
-- `delete_key` removes every entry of its key, so the laws hold of any list.
use mathlib.Core.Path.{◌≡◌, refl, ap, subst}
use mathlib.Core.Logic.{inl, inr, ◌≢◌}
use mathlib.Core.Bool.{Bool}
use mathlib.Core.Option.{Option, none, some}
use mathlib.Core.List.{List, [], ◌∷◌}
use native.Mathlib.Omega.{arith}
use go_modulith_template.Prelude.Tests.{Bool-cases, Comparable, ◌==◌, if◌then◌else◌}

module _ {ℓ κ} {K : Type ℓ} {V : Type κ} ⦃e : Comparable K⦄ where
  abbrev pub lookup : K → List (K × V) → Option V
  lookup k [] = none
  lookup k ((j, v) ∷ m) = let rest = lookup k m in if j == k then some v else rest

  abbrev pub insert : K → V → List (K × V) → List (K × V)
  insert k v [] = (k, v) ∷ []
  insert k v ((j, w) ∷ m) = let rest = insert k v m in if j == k then (k, v) ∷ m else (j, w) ∷ rest

  abbrev pub delete_key : K → List (K × V) → List (K × V)
  delete_key k [] = []
  delete_key k ((j, w) ∷ m) = let rest = delete_key k m in if j == k then rest else (j, w) ∷ rest

  pub lookup-insert :
      (k j : K) (v : V) (m : List (K × V))
      → lookup j (insert k v m) ≡ (if k == j then some v else lookup j m)
  lookup-insert k j v [] = refl
  lookup-insert k j v ((i, w) ∷ m) =
      ground (arith, e.same_iff k j, e.same_iff i k, e.same_iff i j, lookup-insert k j v m)

  pub lookup-delete_key :
      (k j : K) (m : List (K × V))
      → lookup j (delete_key k m) ≡ (if k == j then none else lookup j m)
  lookup-delete_key k j [] = ground arith
  lookup-delete_key k j ((i, w) ∷ m) =
      ground (arith, e.same_iff k j, e.same_iff i k, e.same_iff i j, lookup-delete_key k j m)

-- `for key, v := range m { if p { delete(m, key) } }`: every entry is visited once.
module _ {ℓ κ} {K : Type ℓ} {V : Type κ} where
  abbrev pub delete_where : (K → V → Bool) → List (K × V) → List (K × V)
  delete_where p [] = []
  delete_where p ((j, w) ∷ m) = let rest = delete_where p m in if p j w then rest else (j, w) ∷ rest

module _ {ℓ κ} {K : Type ℓ} {V : Type κ} ⦃e : Comparable K⦄ where
  -- No key stands twice.
  abbrev pub IsMap : List (K × V) → Type κ
  IsMap [] = Unit
  IsMap ((j, w) ∷ m) = (lookup j m ≡ none) × IsMap m

  abbrev pub kept : (K → V → Bool) → K → Option V → Option V
  kept p k none = none
  kept p k (some v) = if p k v then none else some v

  -- In a map the key of a visited entry is the key that is looked up.
  pub lookup-delete_where :
      (p : K → V → Bool) (k : K) (m : List (K × V))
      → IsMap m
      → lookup k (delete_where p m) ≡ kept p k (lookup k m)
  lookup-delete_where p k [] h = refl
  lookup-delete_where p k ((j, w) ∷ m) h = elim (Bool-cases (j == k)) [
    | inl q ↦
        let same = (e.same_iff j k).0 q in
        let absent : lookup k m ≡ none = subst (λ x. lookup x m ≡ none) same h.0 in
        ground (arith, ap (λ x. p x w) same, lookup-delete_where p k m)
    | inr q ↦ ground (arith, lookup-delete_where p k m)
  ]

  pub IsMap-insert : (k : K) (v : V) (m : List (K × V)) → IsMap m → IsMap (insert k v m)
  IsMap-insert k v [] h = (refl, tt)
  IsMap-insert k v ((i, w) ∷ m) h =
      ground (arith, e.same_iff i k, lookup-insert k i v m, e.same_iff k i, IsMap-insert k v m)

  pub IsMap-delete_key : (k : K) (m : List (K × V)) → IsMap m → IsMap (delete_key k m)
  IsMap-delete_key k [] h = tt
  IsMap-delete_key k ((i, w) ∷ m) h = ground (arith, lookup-delete_key k i m, IsMap-delete_key k m)

  pub IsMap-delete_where :
      (p : K → V → Bool) (m : List (K × V)) → IsMap m → IsMap (delete_where p m)
  IsMap-delete_where p [] h = tt
  IsMap-delete_where p ((i, w) ∷ m) h =
      ground (arith, lookup-delete_where p i m, IsMap-delete_where p m)

module _ {ℓ κ} {K : Type ℓ} {V : Type κ} ⦃e : Comparable K⦄ where
  pub lookup-insert_self : (k : K) (v : V) (m : List (K × V)) → lookup k (insert k v m) ≡ some v
  lookup-insert_self k v m = rw lookup-insert (rw ((e.same_iff k k).1 refl))

  pub lookup-insert_ne :
      (k j : K) (v : V) (m : List (K × V)) → k ≢ j → lookup j (insert k v m) ≡ lookup j m
  lookup-insert_ne k j v m h = rw lookup-insert (ground (arith, e.same_iff k j))
