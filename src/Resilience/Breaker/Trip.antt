-- ===== src/Resilience/Breaker/Trip.antt =====
-- When `Execute` calls `fn`, and how failures open a closed breaker.
use Prim.Native.Nat.{max}
use go_modulith_template.Prelude.{
  ◌+◌, ◌≤◌, ◌<◌, ◌≡◌, ◌≢◌, ◌⊎◌, ◌↔◌, true, false, Option, none, some, List, [], ◌∷◌, arith, length,
  All,
}
use go_modulith_template.Resilience.Failure.{Failure, circuit_open, too_many_requests}
use go_modulith_template.Resilience.Breaker.{state_closed, state_open, Breaker, Times, execute}

-- A call that is refused changes nothing, and its error is one of the breaker's own two.
pub execute_refused :
    (cb : Breaker) (t : Times) (outcome : Option Failure)
    → (execute cb t outcome).called ≡ false
    → ((execute cb t outcome).breaker ≡ cb)
      × (((execute cb t outcome).err ≡ some circuit_open)
          ⊎ ((execute cb t outcome).err ≡ some too_many_requests))
unfolding execute
execute_refused cb t outcome h = ground arith

-- An open breaker calls `fn` exactly when its timeout has passed.
pub execute-state_open :
    (cb : Breaker) (t : Times) (outcome : Option Failure)
    → cb.state ≡ state_open
    → ((execute cb t outcome).called ≡ true) ↔ (cb.last_state_change + cb.config.timeout < t.asked)
unfolding execute
execute-state_open cb t outcome h = (λ c. ground arith, λ c. ground arith)

abbrev pub Attempt : Type 0
Attempt = Times × Option Failure

-- Calls of `Execute` one after the other.
unfoldable pub run : Breaker → List Attempt → Breaker
run cb [] = cb
run cb ((t, outcome) ∷ rest) = run (execute cb t outcome).breaker rest

abbrev pub IsFailing : Attempt → Type 0
IsFailing a = a.1 ≢ none

fail_closed :
    (cb : Breaker) (t : Times) (o : Option Failure)
    → o ≢ none
    → cb.state ≡ state_closed
    → let c = (execute cb t o).breaker in
      (c.failures ≡ cb.failures + 1)
      × (c.config ≡ cb.config)
      × ((c.failures < max c.config.max_failures 1) → c.state ≡ state_closed)
      × ((max c.config.max_failures 1 ≤ c.failures) → c.state ≡ state_open)
unfolding execute
fail_closed cb t o h e = ground arith

-- A closed breaker that has `limit - failures` calls fail in a row, with no success between, is
-- open after the last of them and not before; `limit` is `max_failures`, or 1 if that is 0.
pub run_failing :
    (cb : Breaker) (attempts : List Attempt)
    → All IsFailing attempts
    → cb.state ≡ state_closed
    → cb.failures < max cb.config.max_failures 1
    → cb.failures + length attempts ≤ max cb.config.max_failures 1
    → ((run cb attempts).failures ≡ cb.failures + length attempts)
      × (((run cb attempts).state ≡ state_open)
          ↔ (cb.failures + length attempts ≡ max cb.config.max_failures 1))
unfolding run
run_failing cb [] f e lt le = ground arith
run_failing cb ((t, o) ∷ []) f e lt le = ground (arith, fail_closed cb t o f.0 e)
run_failing cb ((t, o) ∷ b ∷ rest) f e lt le =
    let step = fail_closed cb t o f.0 e in
    let ih =
      run_failing (execute cb t o).breaker (b ∷ rest) f.1 (step.2 (ground arith)) (ground arith)
        (ground arith) in
    ground arith
