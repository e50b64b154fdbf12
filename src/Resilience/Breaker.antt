-- ===== src/Resilience/Breaker.antt =====
-- internal/resilience/circuit_breaker.go. A method that mutates `*CircuitBreaker` returns the new
-- record. The mutex makes `beforeRequest`, `afterRequest` and `Reset` atomic, so an execution of
-- many goroutines is a sequence of these three. Each call of `time.Now()` is an argument.
-- Times are nanoseconds. The counters count calls of one process, and stand for Go ints that stay
-- far below 2^63; a limit of the configuration that is negative acts as 0 does.
pub mod Invariant
pub mod Recovery
pub mod Trip
use go_modulith_template.Prelude.{
  ℕ, ◌+◌, ◌*◌, String, Bool, true, false, Option, none, some, List, [], ◌∷◌, if◌then◌else◌, leb,
  ltb,
}
use go_modulith_template.Resilience.Failure.{Failure, circuit_open, too_many_requests}

pub data State : Type 0 where
  state_closed state_open state_half_open : State

unfoldable pub string : State → String
string state_closed = "closed"
string state_open = "open"
string state_half_open = "half-open"

abbrev pub same_state : State → State → Bool
same_state state_closed state_closed = true
same_state state_open state_open = true
same_state state_half_open state_half_open = true
same_state _ _ = false

pub record Config : Type 0 where
  pub max_failures : ℕ
  pub timeout : ℕ
  pub max_half_open_requests : ℕ
  pub success_threshold : ℕ
  pub on_state_change : Bool  -- whether the callback is not nil

abbrev pub default_config : Config
default_config = record {
  max_failures = 5;
  timeout = 30 * 1000000000;
  max_half_open_requests = 3;
  success_threshold = 2;
  on_state_change = false;
}

-- `spawned` lists the goroutines that `setState` starts for the callback, the last one first.
pub record Breaker : Type 0 where
  pub name : String
  pub config : Config
  pub state : State
  pub failures : ℕ
  pub half_open_requests : ℕ
  pub last_state_change : ℕ
  pub consecutive_success : ℕ
  pub spawned : List (String × State × State)

unfoldable pub new_circuit_breaker : String → Config → ℕ → Breaker
new_circuit_breaker name config now = record {
  name = name;
  config = config;
  state = state_closed;
  failures = 0;
  half_open_requests = 0;
  last_state_change = now;
  consecutive_success = 0;
  spawned = [];
}

unfoldable pub set_state : State → ℕ → Breaker → Breaker
set_state to now cb = if same_state cb.state to then cb else record cb {
  state = to;
  last_state_change = now;
  spawned = if cb.config.on_state_change then (cb.name, cb.state, to) ∷ cb.spawned else cb.spawned;
}

-- The `switch` of `beforeRequest`. `now` is read at its start, `later` in `setState`.
unfoldable pub before_in : State → ℕ → ℕ → Breaker → Breaker × Option Failure
unfolding set_state
before_in state_closed now later cb = (cb, none)
before_in state_open now later cb =
    if ltb (cb.last_state_change + cb.config.timeout) now
    then (
      record (set_state state_half_open later cb) {
        half_open_requests = 1;
        consecutive_success = 0;
      },
      none,
    )
    else (cb, some circuit_open)
before_in state_half_open now later cb =
    if leb cb.config.max_half_open_requests cb.half_open_requests
    then (cb, some too_many_requests)
    else (record cb { half_open_requests = cb.half_open_requests + 1 }, none)

unfoldable pub before_request : ℕ → ℕ → Breaker → Breaker × Option Failure
unfolding before_in
before_request now later cb = before_in cb.state now later cb

unfoldable pub on_success : State → ℕ → Breaker → Breaker
unfolding set_state
on_success state_closed now cb = record cb { failures = 0 }
on_success state_open now cb = cb
on_success state_half_open now cb =
    let counted = record cb { consecutive_success = cb.consecutive_success + 1 } in
    if leb cb.config.success_threshold counted.consecutive_success
    then record (set_state state_closed now counted) { failures = 0 }
    else counted

unfoldable pub on_failure : State → ℕ → Breaker → Breaker
unfolding set_state
on_failure state_closed now cb =
    let counted = record cb { failures = cb.failures + 1 } in
    if leb cb.config.max_failures counted.failures
    then set_state state_open now counted
    else counted
on_failure state_open now cb = record cb { failures = cb.failures + 1 }
on_failure state_half_open now cb =
    set_state state_open now (record cb { failures = cb.failures + 1 })

unfoldable pub after_request : Option Failure → ℕ → Breaker → Breaker
unfolding on_success on_failure
after_request (some err) now cb = on_failure cb.state now cb
after_request none now cb = on_success cb.state now cb

unfoldable pub reset : ℕ → Breaker → Breaker
unfolding set_state
reset now cb = record (set_state state_closed now cb) {
  failures = 0;
  half_open_requests = 0;
  consecutive_success = 0;
}

-- One call of `Execute` with no other between its two halves. `outcome` is what `fn` returns if it
-- is called; the Boolean says whether it was.
pub record Times : Type 0 where
  pub asked : ℕ  -- `now` of `beforeRequest`
  pub opened : ℕ  -- `time.Now()` in the `setState` of `beforeRequest`
  pub finished : ℕ  -- `time.Now()` in the `setState` of `afterRequest`

pub record Executed : Type 0 where
  pub breaker : Breaker
  pub err : Option Failure
  pub called : Bool

unfoldable pub execute_after : Breaker × Option Failure → Times → Option Failure → Executed
execute_after (cb, some err) t outcome = record { breaker = cb; err = some err; called = false }
execute_after (cb, none) t outcome = record {
  breaker = after_request outcome t.finished cb;
  err = outcome;
  called = true;
}

unfoldable pub execute : Breaker → Times → Option Failure → Executed
unfolding execute_after before_request after_request
execute cb t outcome = execute_after (before_request t.asked t.opened cb) t outcome
