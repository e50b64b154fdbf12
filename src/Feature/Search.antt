-- ===== src/Feature/Search.antt =====
-- The substring search of the operator "contains".
use go_modulith_template.Prelude.{
  ℕ, zero, suc, ◌+◌, ◌-◌, ◌<◌, ◌≡◌, ◌↔◌, refl, ap, sym, subst, true, [], ◌∷◌, ◌++◌, Bytes, leb,
  ◌==◌, eq_bytes, bytes_beq_iff, length, take, length-append, arith, Bool-cases, inl, inr,
}
use go_modulith_template.Feature.{contains_from, contains}

-- The text is somewhere in the other one.
abbrev pub Occurs : Bytes → Bytes → Type 0
Occurs substr s = (before : Bytes) × (after : Bytes) × (s ≡ before ++ (substr ++ after))

prefix_of_take : (p s : Bytes) → take (length p) s ≡ p → (rest : Bytes) × (s ≡ p ++ rest)
prefix_of_take [] s h = (s, refl)
prefix_of_take (b ∷ p) [] h = cc
prefix_of_take (b ∷ p) (c ∷ s) h =
    let (rest, e) = prefix_of_take p s (ground arith) in (rest, ground arith)

take_of_prefix : (p rest : Bytes) → take (length p) (p ++ rest) ≡ p
take_of_prefix [] rest = refl
take_of_prefix (b ∷ p) rest = ap (◌∷◌ b) (take_of_prefix p rest)

contains_from_sound : (n : ℕ) (s substr : Bytes) → contains_from n s substr ≡ true → Occurs substr s
unfolding contains_from
contains_from_sound zero s substr h = cc
contains_from_sound (suc n) [] substr h =
    let (rest, e) =
      prefix_of_take substr [] ((bytes_beq_iff (take (length substr) []) substr).0 h) in
    ([], rest, e)
contains_from_sound (suc n) (c ∷ s) substr h =
    elim (Bool-cases (take (length substr) (c ∷ s) == substr)) [
      | inl e ↦
          let (rest, q) =
            prefix_of_take substr (c ∷ s)
              ((bytes_beq_iff (take (length substr) (c ∷ s)) substr).0 e) in
          ([], rest, q)
      | inr e ↦
          let (before, after, q) = contains_from_sound n s substr (rw e at h) in
          (c ∷ before, after, ap (◌∷◌ c) q)
    ]

contains_from_complete :
    (n : ℕ) (before substr after : Bytes)
    → length before < n
    → contains_from n (before ++ (substr ++ after)) substr ≡ true
unfolding contains_from
contains_from_complete zero before substr after h = absurd (omega arith)
contains_from_complete (suc n) (c ∷ before) substr after h =
    ground (arith, contains_from_complete n before substr after)
contains_from_complete (suc n) [] [] [] h = refl
contains_from_complete (suc n) [] [] (c ∷ after) h = refl
contains_from_complete (suc n) [] (b ∷ substr) after h =
    let here =
      (bytes_beq_iff (take (length (b ∷ substr)) ((b ∷ substr) ++ after)) (b ∷ substr)).1
        (take_of_prefix (b ∷ substr) after) in
    rw here

sound : (s substr : Bytes) → contains s substr ≡ true → Occurs substr s
unfolding contains
sound s substr h = elim (Bool-cases (leb (length substr) (length s))) [
  | inl e ↦ contains_from_sound (length s - length substr + 1) s substr (rw e at h)
  | inr e ↦ absurd (ground arith)
]

complete : (before substr after : Bytes) → contains (before ++ (substr ++ after)) substr ≡ true
unfolding contains
complete before substr after =
    let n = length-append before (substr ++ after) in
    let m = length-append substr after in
    let fits : leb (length substr) (length (before ++ (substr ++ after))) ≡ true = ground arith in
    rw fits (
      contains_from_complete (length (before ++ (substr ++ after)) - length substr + 1) before
        substr after (omega arith))

-- The loop finds exactly the texts that occur somewhere in the other one; its bounds skip no place.
pub contains_iff : (s substr : Bytes) → (contains s substr ≡ true) ↔ Occurs substr s
contains_iff s substr = (
  sound s substr,
  λ (before, after, e).
      subst (λ x. contains x substr ≡ true) (sym e) (complete before substr after),
)
