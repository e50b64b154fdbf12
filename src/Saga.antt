-- ===== src/Saga.antt =====
-- internal/saga/saga.go. A step acts on a state that all steps share (what `ctx` and the closures
-- reach), and may fail. The loops are recursions on lists; logging is left out.
pub mod Undo
pub mod Order
pub mod Atomic
pub mod Tests
use go_modulith_template.Prelude.{String, Option, none, some, List, [], ◌∷◌, ◌++◌, reverse}

pub record Step {ℓ κ} (S : Type ℓ) (E : Type κ) : Type (ℓ ⊔ κ) where
  pub name : String
  pub execute : S → S × Option E
  pub compensate : Option (S → S × Option E)  -- nil in the source is `none` here

-- `fmt.Errorf` with the step's name, its error, and the last error of the compensation, if any.
pub record StepFailed {ℓ} (E : Type ℓ) : Type ℓ where
  pub step : String
  pub cause : E
  pub compensation : Option E

-- The functions of the steps that were called, in order.
pub data Event : Type 0 where
  executed : String → Event
  compensated : String → Event

pub record Compensated {ℓ κ} (S : Type ℓ) (E : Type κ) : Type (ℓ ⊔ κ) where
  pub state : S
  pub last_err : Option E
  pub events : List Event

pub record Executed {ℓ κ} (S : Type ℓ) (E : Type κ) : Type (ℓ ⊔ κ) where
  pub state : S
  pub err : Option (StepFailed E)
  pub events : List Event

abbrev pub or_last {ℓ} : {E : Type ℓ} → Option E → Option E → Option E
or_last none last = last
or_last (some e) last = some e

module _ {ℓ κ} {S : Type ℓ} {E : Type κ} where
  unfoldable pub new : List (Step S E)
  new = []

  unfoldable pub add_step :
      String → (S → S × Option E) → Option (S → S × Option E) → List (Step S E) → List (Step S E)
  add_step name execute compensate steps =
      steps ++ record { name = name; execute = execute; compensate = compensate } ∷ []

  -- The loop of `compensate`, over the completed steps from the last to the first.
  unfoldable pub compensate_from : List (Step S E) → Option E → S → Compensated S E
  compensate_from [] last s = record { state = s; last_err = last; events = [] }
  compensate_from (step ∷ steps) last s = elim step.compensate [
    | none ↦ compensate_from steps last s
    | some undo ↦
        let rest = compensate_from steps (or_last (undo s).1 last) (undo s).0 in
        record rest { events = compensated step.name ∷ rest.events }
  ]

  unfoldable pub compensate : List (Step S E) → S → Compensated S E
  unfolding compensate_from
  compensate steps s = compensate_from (reverse steps) none s

  -- The loop of `Execute`; `completed` is `completedSteps`.
  unfoldable pub execute_from : List (Step S E) → List (Step S E) → S → Executed S E
  unfolding compensate
  execute_from [] completed s = record { state = s; err = none; events = [] }
  execute_from (step ∷ steps) completed s = elim (step.execute s).1 [
    | some cause ↦
        let undone = compensate completed (step.execute s).0 in
        record {
          state = undone.state;
          err = some (record { step = step.name; cause = cause; compensation = undone.last_err });
          events = executed step.name ∷ undone.events;
        }
    | none ↦
        let rest = execute_from steps (completed ++ step ∷ []) (step.execute s).0 in
        record rest { events = executed step.name ∷ rest.events }
  ]

  unfoldable pub execute : List (Step S E) → S → Executed S E
  unfolding execute_from
  execute steps s = execute_from steps [] s
