-- ===== src/Saga/Undo.antt =====
-- What the compensations of a saga leave, and which error they tell.
use go_modulith_template.Prelude.{
  ◌≡◌, refl, sym, subst, inl, inr, Option, none, some, List, [], ◌∷◌, ◌++◌, append-nil,
  append_assoc, Option-cases, All, All-append,
}
use go_modulith_template.Saga.{Step, compensated, Compensated, or_last, compensate_from}

module _ {κ} {E : Type κ} where
  abbrev AllNone : List (Option E) → Type κ
  AllNone = All (λ r. r ≡ none)

  -- The last error among the results, if there is one.
  abbrev pub IsLastError : Option E → List (Option E) → Type κ
  IsLastError none results = AllNone results
  IsLastError (some e) results =
      (earlier later : List (Option E)) × (results ≡ earlier ++ some e ∷ later) × AllNone later

  IsLastError-or_last :
      (last result : Option E) (results : List (Option E))
      → IsLastError last results
      → IsLastError (or_last result last) (results ++ result ∷ [])
  IsLastError-or_last last (some e) results h = (results, [], refl, tt)
  IsLastError-or_last none none results h =
      All-append (λ r. r ≡ none) results (none ∷ []) h (refl, tt)
  IsLastError-or_last (some e) none results (earlier, later, split, quiet) = (
    earlier,
    later ++ none ∷ [],
    rw split (append_assoc earlier (some e ∷ later) (none ∷ [])),
    All-append (λ r. r ≡ none) later (none ∷ []) quiet (refl, tt),
  )

module _ {ℓ κ} {S : Type ℓ} {E : Type κ} where
  -- The compensations of a list, where there is one, have run in its order from `s` to `t`, with these
  -- results, whether or not one of them failed.
  pub data Undone : S → List (Step S E) → List (Option E) → S → Type (ℓ ⊔ κ) where
    all_undone : {s : S} → Undone s [] [] s
    without :
        {s t : S} {step : Step S E} {steps : List (Step S E)} {results : List (Option E)}
        → step.compensate ≡ none
        → Undone s steps results t
        → Undone s (step ∷ steps) results t
    undoing :
        {s t : S} {step : Step S E} {steps : List (Step S E)} {results : List (Option E)}
        (undo : S → S × Option E)
        → step.compensate ≡ some undo
        → Undone (undo s).0 steps results t
        → Undone s (step ∷ steps) ((undo s).1 ∷ results) t

  compensate_from_without :
      (step : Step S E) (steps : List (Step S E)) (last : Option E) (s : S)
      → step.compensate ≡ none
      → compensate_from (step ∷ steps) last s ≡ compensate_from steps last s
  unfolding compensate_from
  compensate_from_without step steps last s e = rw (e, compensate_from)

  compensate_from_undoing :
      (step : Step S E) (steps : List (Step S E)) (last : Option E) (s : S)
      (undo : S → S × Option E)
      → step.compensate ≡ some undo
      → let x = compensate_from steps (or_last (undo s).1 last) (undo s).0 in
        compensate_from (step ∷ steps) last s
        ≡ record x { events = compensated step.name ∷ x.events }
  unfolding compensate_from
  compensate_from_undoing step steps last s undo e = rw (e, compensate_from)

  abbrev Leaves : List (Step S E) → S → List (Option E) → Compensated S E → Type (ℓ ⊔ κ)
  Leaves steps s earlier x =
      (results : List (Option E)) × Undone s steps results x.state
      × IsLastError x.last_err (earlier ++ results)

  -- The loop of `compensate`, where `earlier` are the results before it.
  pub compensate_from-Leaves :
      (steps : List (Step S E)) (last : Option E) (s : S) (earlier : List (Option E))
      → IsLastError last earlier
      → Leaves steps s earlier (compensate_from steps last s)
  compensate_from-Leaves [] last s earlier h =
      unfold compensate_from in ([], all_undone, rw append-nil h)
  compensate_from-Leaves (step ∷ steps) last s earlier h = elim (Option-cases step.compensate) [
    | inl e ↦
        let (results, run, is_last) = compensate_from-Leaves steps last s earlier h in
        subst (λ x. Leaves (step ∷ steps) s earlier x)
          (sym (compensate_from_without step steps last s e)) (results, without e run, is_last)
    | inr (undo, e) ↦
        let last' = or_last (undo s).1 last in
        let (results, run, is_last) =
          compensate_from-Leaves steps last' (undo s).0 (earlier ++ (undo s).1 ∷ [])
            (IsLastError-or_last last (undo s).1 earlier h) in
        let x = compensate_from steps last' (undo s).0 in
        subst (λ x. Leaves (step ∷ steps) s earlier x)
          (sym (compensate_from_undoing step steps last s undo e))
          (
            (undo s).1 ∷ results,
            undoing undo e run,
            subst (IsLastError x.last_err) (append_assoc earlier ((undo s).1 ∷ []) results) is_last,
          )
  ]
