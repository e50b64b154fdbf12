-- ===== src/Saga/Atomic.antt =====
-- A saga whose steps can all be undone is atomic.
use go_modulith_template.Prelude.{
  ◌≡◌, ◌≢◌, ◌∙◌, refl, sym, ap, subst, inl, inr, Option, none, some, List, [], ◌∷◌, reverse,
  reverse-reverse, All, All-reverse, All-left, All-right, arith,
}
use go_modulith_template.Saga.{Step, Executed, execute}
use go_modulith_template.Saga.Undo.{Undone, all_undone, without, undoing}
use go_modulith_template.Saga.Order.{Ran, start, Failed, execute-outcome}

none-ne-some {ℓ} : {A : Type ℓ} {a : A} → none ≢ some a
none-ne-some e = ground (arith, e)

module _ {ℓ κ} {S : Type ℓ} {E : Type κ} where
  -- The step has a compensation, which brings back the state before a successful execution and
  -- does not fail there; a failed execution changes nothing.
  pub record IsUndoable (step : Step S E) : Type (ℓ ⊔ κ) where
    pub undo : S → S × Option E
    pub has_undo : step.compensate ≡ some undo
    pub undoes : (s : S) → (step.execute s).1 ≡ none → undo (step.execute s).0 ≡ (s, none)
    pub fails_cleanly : (s : S) {e : E} → (step.execute s).1 ≡ some e → (step.execute s).0 ≡ s

  Undone_undoes :
      (done : List (Step S E)) (s t u : S) (results : List (Option E))
      → All IsUndoable done
      → Ran s done t
      → Undone t done results u
      → u ≡ s
  Undone_undoes [] s _ _ _ h start all_undone = refl
  Undone_undoes (step ∷ done) s _ u results h (Ran.then {t = t} _ r ok) (without e run) =
      absurd (none-ne-some (sym e ∙ h.0.has_undo))
  Undone_undoes (step ∷ done) s _ u _ h (Ran.then {t = t} _ r ok) (undoing {results} undo e run) =
      let same : h.0.undo ≡ undo = cc (h.0.has_undo, e) in
      let back = subst (λ undo. undo (step.execute t).0 ≡ (t, none)) same (h.0.undoes t ok) in
      Undone_undoes done s t u results h.1 r
        (subst (λ v. Undone v done results u) (ap (λ x. x.0) back) run)

  undoes_failure :
      (steps : List (Step S E)) (s : S) (x : Executed S E)
      → All IsUndoable steps
      → Failed steps s x
      → x.state ≡ s
  undoes_failure steps s x u f =
      let u' = subst (All IsUndoable) f.split u in
      let ran_ok = subst (All IsUndoable) (reverse-reverse f.done) (
        All-reverse IsUndoable (reverse f.done)
          (All-left IsUndoable (reverse f.done) (f.step ∷ f.rest) u')) in
      let bad = (All-right IsUndoable (reverse f.done) (f.step ∷ f.rest) u').0 in
      Undone_undoes f.done s f.before x.state f.results ran_ok f.run
        (subst (λ t. Undone t f.done f.results x.state) (bad.fails_cleanly f.before f.fails) f.undo)

  -- If every step can be undone, a saga that returns an error leaves the state as it was.
  pub execute_atomic :
      (steps : List (Step S E)) (s : S)
      → All IsUndoable steps
      → (execute steps s).err ≢ none
      → (execute steps s).state ≡ s
  execute_atomic steps s u h = elim (execute-outcome steps s) [
    | inl done ↦ absurd (h done.no_err)
    | inr f ↦ undoes_failure steps s (execute steps s) u f
  ]
