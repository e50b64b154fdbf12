-- ===== src/Resilience/Tests.antt =====
-- The properties of the breaker and of the retry loop at concrete calls.
use go_modulith_template.Prelude.{
  ℕ, zero, suc, ◌≡◌, ◌+◌, ◌*◌, ◌↔◌, refl, subst, false, Option, none, some, [], ◌∷◌, length, arith,
}
use go_modulith_template.Resilience.Failure.{errors_is, Failure, too_many_requests, other}
use go_modulith_template.Resilience.Breaker.{
  Config, default_config, Breaker, state_open, state_closed, state_half_open, new_circuit_breaker,
  before_request, after_request, execute, Times,
}
use go_modulith_template.Resilience.Breaker.Invariant.{
  before, after, Reach, here, next, Inv, new-Reach-Inv,
}
use go_modulith_template.Resilience.Breaker.Trip.{run}
use go_modulith_template.Resilience.Breaker.Recovery.{run-closes, run-starves}
use go_modulith_template.Resilience.Retry.{RetryConfig, World, gives_up, retry, is_retryable}
use go_modulith_template.Resilience.Retry.Laws.{last_result, retry-eq-none, retry_exhausts}
use go_modulith_template.Resilience.Retry.Behind.{guarded, retry_refused}

abbrev at : ℕ → Times
at now = record { asked = now; opened = now; finished = now }

-- It opened at 100.
abbrev tripped : Config → Breaker
tripped config = record {
  name = "db";
  config = config;
  state = state_open;
  failures = 5;
  half_open_requests = 0;
  last_state_change = 100;
  consecutive_success = 0;
  spawned = [];
}

abbrev careful : Config
careful = record default_config { max_half_open_requests = 1; success_threshold = 2 }

abbrev late : ℕ
late = 30 * 1000000000 + 101

abbrev unlucky : Option Failure
unlucky = some (other "down")

abbrev a_failure :
    Reach
      (new_circuit_breaker "db" default_config 0)
      (after_request unlucky 7 (before_request 5 6 (new_circuit_breaker "db" default_config 0)).0)
a_failure = next (next here (before 5 6 _)) (after unlucky 7 _)

new-Reach-Inv_example :
    Inv (after_request unlucky 7 (before_request 5 6 (new_circuit_breaker "db" default_config 0)).0)
new-Reach-Inv_example = new-Reach-Inv "db" default_config 0 a_failure

run-closes_example :
    ((run (tripped default_config) ((at late, none) ∷ (at (late + 1), none) ∷ [])).state
      ≡ state_closed)
    × ((run (tripped default_config) ((at late, none) ∷ (at (late + 1), none) ∷ [])).failures ≡ 0)
run-closes_example =
    run-closes (tripped default_config) (at late) ((at (late + 1), none) ∷ []) refl (omega arith)
      (refl, tt) refl (omega arith)

run-starves_example :
    let stuck = run (tripped careful) ((at late, none) ∷ []) in
    (stuck.state ≡ state_half_open)
    × (run stuck ((at (2 * late), none) ∷ []) ≡ stuck)
    × (execute stuck (at (3 * late)) none
        ≡ record { breaker = stuck; err = some too_many_requests; called = false })
run-starves_example =
    run-starves (tripped careful) (at late) [] ((at (2 * late), none) ∷ []) (at (3 * late)) none
      refl (omega arith) tt refl (omega arith)

refusal : (execute (tripped default_config) (at 101) none).called ≡ false
unfolding execute before_request
refusal = refl

abbrev thrice : RetryConfig
thrice = record {
  max_attempts = 3;
  initial_delay = 100;
  max_delay = 150;
  scale = λ d. d * 2;
  jitter = false;
  retry_if = none;
}

abbrev calm : World
calm = record { ctx_err = λ _. none; interrupt = λ _. none; jittered = λ _ d. d }

-- The state counts the calls; the third one succeeds.
abbrev third : ℕ → ℕ → ℕ × Option Failure
third zero n = (n + 1, unlucky)
third (suc zero) n = (n + 1, unlucky)
third _ n = (n + 1, none)

retry-eq-none_example :
    ((retry thrice calm third 0).err ≡ none)
    ↔ (last_result (retry thrice calm third 0).results ≡ some none)
retry-eq-none_example = retry-eq-none thrice calm third 0 (omega arith)

abbrev choosy : RetryConfig
choosy = record thrice { retry_if = some (λ e. is_retryable (some e)) }

unlucky_retried : (k n : ℕ) (e : Failure) → unlucky ≡ some e → gives_up choosy.retry_if e ≡ false
unfolding is_retryable errors_is
unlucky_retried k n e h =
    let same : other "down" ≡ e = cc h in subst (λ e. gives_up choosy.retry_if e ≡ false) same refl

retry_exhausts_example : length (retry choosy calm (λ _ n. (n + 1, unlucky)) 0).results ≡ 3
retry_exhausts_example =
    retry_exhausts choosy calm (λ _ n. (n + 1, unlucky)) 0 (λ _. refl) (λ _. refl) (λ _ _ e. cc)
      unlucky_retried

retry_refused_example :
    let err = (execute (tripped default_config) (at 101) none).err in
    retry choosy calm (guarded (λ i. at (101 + i)) (λ _. none)) (tripped default_config)
    ≡ record { state = tripped default_config; err = err; results = err ∷ []; waits = [] }
retry_refused_example =
    retry_refused choosy calm (λ i. at (101 + i)) (λ _. none) (tripped default_config) (omega arith)
      refl refl refusal
