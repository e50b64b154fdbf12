-- ===== src/Saga/Order.antt =====
-- Which functions of the steps a saga calls, and in which order.
use go_modulith_template.Prelude.{
  ◌≡◌, ◌∙◌, ap, sym, refl, ◌⊎◌, inl, inr, Option, none, some, List, [], ◌∷◌, ◌++◌, map, reverse,
  reverse-reverse, reverse-cons, append-nil, map-append, append_assoc, subst, subst₂, Option-cases,
}
use go_modulith_template.Saga.{
  Step, Event, executed, compensated, Executed, compensate, compensate_from, execute_from, execute,
}
use go_modulith_template.Saga.Undo.{Undone, IsLastError, compensate_from-Leaves}

module _ {ℓ κ} {S : Type ℓ} {E : Type κ} where
  -- The steps of a list, the last one first, have run from `s` to `t` without an error.
  pub data Ran (s : S) : List (Step S E) → S → Type (ℓ ⊔ κ) where
    start : Ran s [] s
    then :
        {done : List (Step S E)} {t : S} (step : Step S E)
        → Ran s done t
        → (step.execute t).1 ≡ none
        → Ran s (step ∷ done) (step.execute t).0

  abbrev pub ran : List (Step S E) → List Event
  ran = map (λ step. executed step.name)

  -- The compensations of the steps that have one, in the order of the list.
  abbrev pub undone : List (Step S E) → List Event
  undone [] = []
  undone (step ∷ steps) = elim step.compensate [
    | none ↦ undone steps
    | some _ ↦ compensated step.name ∷ undone steps
  ]

  events-compensate_from :
      (steps : List (Step S E)) (last : Option E) (s : S)
      → (compensate_from steps last s).events ≡ undone steps
  unfolding compensate_from
  events-compensate_from [] last s = refl
  events-compensate_from (step ∷ steps) last s = elim (Option-cases step.compensate) [
    | inl e ↦ rw e (events-compensate_from steps last s)
    | inr (undo, e) ↦ rw e (ap (◌∷◌ (compensated step.name)) (events-compensate_from steps _ _))
  ]

  -- What a failed saga has done: `done` are the steps before the failing one, the last one first.
  pub record Failed (steps : List (Step S E)) (s : S) (x : Executed S E) : Type (ℓ ⊔ κ) where
    pub done : List (Step S E)
    pub step : Step S E
    pub rest : List (Step S E)
    pub split : steps ≡ reverse done ++ step ∷ rest
    pub before : S
    pub run : Ran s done before
    pub cause : E
    pub fails : (step.execute before).1 ≡ some cause
    pub results : List (Option E)
    pub undo : Undone (step.execute before).0 done results x.state
    pub last : Option E
    pub last_error : IsLastError last results
    pub err : x.err ≡ some (record { step = step.name; cause = cause; compensation = last })
    pub events : x.events ≡ ran (reverse done) ++ executed step.name ∷ undone done

  pub record Completed (steps : List (Step S E)) (s : S) (x : Executed S E) : Type (ℓ ⊔ κ) where
    pub run : Ran s (reverse steps) x.state
    pub no_err : x.err ≡ none
    pub events : x.events ≡ ran steps

  abbrev Outcome : List (Step S E) → S → Executed S E → Type (ℓ ⊔ κ)
  Outcome steps s x = Completed steps s x ⊎ Failed steps s x

  -- The execution as seen from its start, when the steps of `earlier` have run.
  abbrev since : List Event → Executed S E → Executed S E
  since earlier x = record x { events = earlier ++ x.events }

  execute_from_fails :
      (step : Step S E) (rest completed : List (Step S E)) (t : S) (cause : E)
      → (step.execute t).1 ≡ some cause
      → let undone = compensate completed (step.execute t).0 in
        execute_from (step ∷ rest) completed t ≡ record {
          state = undone.state;
          err = some (record { step = step.name; cause = cause; compensation = undone.last_err });
          events = executed step.name ∷ undone.events;
        }
  unfolding execute_from
  execute_from_fails step rest completed t cause f = rw (f, execute_from)

  execute_from_goes_on :
      (step : Step S E) (rest completed : List (Step S E)) (t : S)
      → (step.execute t).1 ≡ none
      → let x = execute_from rest (completed ++ step ∷ []) (step.execute t).0 in
        execute_from (step ∷ rest) completed t ≡ record x { events = executed step.name ∷ x.events }
  unfolding execute_from
  execute_from_goes_on step rest completed t f = rw (f, execute_from)

  compensate_reverse :
      (done : List (Step S E)) (s : S) → compensate (reverse done) s ≡ compensate_from done none s
  unfolding compensate
  compensate_reverse done s = ap (λ l. compensate_from l none s) (reverse-reverse done)

  fail_outcome :
      (step : Step S E) (rest done : List (Step S E)) (s t : S) (cause : E)
      → Ran s done t
      → (step.execute t).1 ≡ some cause
      → Failed
          (reverse done ++ step ∷ rest)
          s
          (since (ran (reverse done)) (execute_from (step ∷ rest) (reverse done) t))
  fail_outcome step rest done s t cause r f =
      let (results, undo, last_error) = compensate_from-Leaves done none (step.execute t).0 [] tt in
      rw (execute_from_fails step rest (reverse done) t cause f, compensate_reverse)
        (record {
          done = done;
          step = step;
          rest = rest;
          split = refl;
          before = t;
          run = r;
          cause = cause;
          fails = f;
          results = results;
          undo = undo;
          last = (compensate_from done none (step.execute t).0).last_err;
          last_error = last_error;
          err = refl;
          events = rw events-compensate_from;
        })

  regroup :
      (step : Step S E) (rest done : List (Step S E)) (s u : S)
      → Outcome
          (reverse (step ∷ done) ++ rest)
          s
          (since (ran (reverse (step ∷ done))) (execute_from rest (reverse (step ∷ done)) u))
      → let x = execute_from rest (reverse done ++ step ∷ []) u in
        Outcome
          (reverse done ++ step ∷ rest)
          s
          (record x { events = ran (reverse done) ++ executed step.name ∷ x.events })
  regroup step rest done s u h =
      let x = execute_from rest (reverse done ++ step ∷ []) u in
      let h' =
        subst (λ c. Outcome (c ++ rest) s (since (ran c) (execute_from rest c u)))
          (reverse-cons step done) h in
      subst₂ (λ l ev. Outcome l s (record x { events = ev }))
        (append_assoc (reverse done) (step ∷ []) rest)
        (ap (λ l. l ++ x.events)
            (map-append (λ step. executed step.name) (reverse done) (step ∷ []))
          ∙ append_assoc (ran (reverse done)) (executed step.name ∷ []) x.events)
        h'

  Outcome-from :
      (steps done : List (Step S E)) (s t : S)
      → Ran s done t
      → Outcome
          (reverse done ++ steps)
          s
          (since (ran (reverse done)) (execute_from steps (reverse done) t))
  Outcome-from [] done s t r =
      unfold execute_from in
      inl (record {
        run = rw (append-nil, reverse-reverse) r;
        no_err = refl;
        events = append-nil _ ∙ ap ran (sym (append-nil (reverse done)));
      })
  Outcome-from (step ∷ rest) done s t r = elim (Option-cases (step.execute t).1) [
    | inr (cause, f) ↦ inr (fail_outcome step rest done s t cause r f)
    | inl ok ↦ rw (execute_from_goes_on step rest (reverse done) t ok) (
        regroup step rest done s (step.execute t).0
          (Outcome-from rest (step ∷ done) s (step.execute t).0 (Ran.then step r ok)))
  ]

  -- `Execute` either runs all steps in order, with no error, or the steps before some step run, that
  -- step fails, and the compensations of the steps before it run from the last to the first, each
  -- that there is, whether or not others fail, and leave the state; the error names the failed step,
  -- its cause and the last error that a compensation returned, if one did.
  pub execute-outcome :
      (steps : List (Step S E)) (s : S)
      → Completed steps s (execute steps s) ⊎ Failed steps s (execute steps s)
  unfolding execute
  execute-outcome steps s = Outcome-from steps [] s s start
