-- ===== src/Resilience/Breaker/Invariant.antt =====
-- What holds of a circuit breaker after any interleaving of its critical sections.
use go_modulith_template.Prelude.{ℕ, ◌≤◌, ◌<◌, ◌≡◌, String, Option, arith}
use Prim.Native.Nat.{max}
use go_modulith_template.Resilience.Failure.{Failure}
use go_modulith_template.Resilience.Breaker.{
  state_closed, state_half_open, Config, Breaker, new_circuit_breaker, before_request,
  after_request, reset,
}

-- One critical section, of any goroutine: results may arrive in any order and in any state.
pub data Step : Breaker → Breaker → Type 0 where
  before : (now later : ℕ) (cb : Breaker) → Step cb (before_request now later cb).0
  after :
      (outcome : Option Failure) (now : ℕ) (cb : Breaker) → Step cb (after_request outcome now cb)
  resetting : (now : ℕ) (cb : Breaker) → Step cb (reset now cb)

pub data Reach (s : Breaker) : Breaker → Type 0 where
  here : Reach s s
  next : {t u : Breaker} → Reach s t → Step t u → Reach s u

pub record Inv (cb : Breaker) : Type 0 where
  pub below_limit : cb.state ≡ state_closed → cb.failures < max cb.config.max_failures 1
  pub testing :
      cb.state ≡ state_half_open → cb.consecutive_success < max cb.config.success_threshold 1
  pub some_admitted : cb.state ≡ state_half_open → 0 < cb.half_open_requests
  pub few_admitted :
      cb.state ≡ state_half_open → cb.half_open_requests ≤ max cb.config.max_half_open_requests 1

before_request-Inv : (now later : ℕ) (cb : Breaker) → Inv cb → Inv (before_request now later cb).0
unfolding before_request
before_request-Inv now later cb h = ground arith

after_request-Inv :
    (o : Option Failure) (now : ℕ) (cb : Breaker) → Inv cb → Inv (after_request o now cb)
unfolding after_request
after_request-Inv o now cb h = ground arith

reset-Inv : (now : ℕ) (cb : Breaker) → Inv (reset now cb)
unfolding reset
reset-Inv now cb = ground arith

Step-Inv : {s t : Breaker} → Step s t → Inv s → Inv t
Step-Inv (before now later cb) h = before_request-Inv now later cb h
Step-Inv (after outcome now cb) h = after_request-Inv outcome now cb h
Step-Inv (resetting now cb) h = reset-Inv now cb

new-Inv : (name : String) (config : Config) (now : ℕ) → Inv (new_circuit_breaker name config now)
unfolding new_circuit_breaker
new-Inv name config now = ground arith

Reach-Inv : {s t : Breaker} → Reach s t → Inv s → Inv t
Reach-Inv here h = h
Reach-Inv (next r step) h = Step-Inv step (Reach-Inv r h)

-- After any interleaving of the critical sections of a new breaker: a closed breaker has fewer
-- failures than its limit, and a half-open one has let at least one and at most
-- `max_half_open_requests` calls through (one, if that is 0) and still lacks successes.
pub new-Reach-Inv :
    (name : String) (config : Config) (now : ℕ) {cb : Breaker}
    → Reach (new_circuit_breaker name config now) cb
    → Inv cb
new-Reach-Inv name config now r = Reach-Inv r (new-Inv name config now)
