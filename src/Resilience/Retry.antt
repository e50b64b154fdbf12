-- ===== src/Resilience/Retry.antt =====
-- internal/resilience/retry.go. The loop over the attempts recurs on the attempts that are left.
-- What the loop meets outside is its parameters: the context at each check and each wait, the
-- function that is called (with a state of its own), and the products of floats, which stay
-- abstract. A negative `MaxAttempts` acts as 0 does; durations are nanoseconds.
pub mod Laws
pub mod Waits
pub mod Behind
use Prim.Native.Nat.{min}
use go_modulith_template.Prelude.{
  ℕ, zero, suc, ◌+◌, Bool, true, false, not, Option, none, some, List, [], ◌∷◌, ◌||◌, ◌&&◌, nat_eq,
}
use go_modulith_template.Resilience.Failure.{
  Failure, errors_is, err_canceled, err_deadline_exceeded, err_circuit_open, err_too_many_requests,
}

pub record RetryConfig : Type 0 where
  pub max_attempts : ℕ
  pub initial_delay : ℕ
  pub max_delay : ℕ
  pub scale : ℕ → ℕ  -- `time.Duration(float64(delay) * config.Multiplier)`
  pub jitter : Bool  -- whether `Jitter` is above 0
  pub retry_if : Option (Failure → Bool)

-- `ctx_err i` is `ctx.Err()` at the check before attempt `i`, and `interrupt i` is `ctx.Err()` where
-- the wait after attempt `i` ends by the context. `jittered i d` is the product with the `i`-th
-- random factor.
pub record World : Type 0 where
  pub ctx_err : ℕ → Option Failure
  pub interrupt : ℕ → Option Failure
  pub jittered : ℕ → ℕ → ℕ

-- The error that `Retry` returns, with what each call of `fn` returned and the lengths of the waits.
pub record Retried {ℓ} (S : Type ℓ) : Type ℓ where
  pub state : S
  pub err : Option Failure
  pub results : List (Option Failure)
  pub waits : List ℕ

unfoldable pub add_jitter : RetryConfig → World → ℕ → ℕ → ℕ
add_jitter config world i delay = elim config.jitter [
  | true ↦ world.jittered i delay
  | false ↦ delay
]

abbrev pub gives_up : Option (Failure → Bool) → Failure → Bool
gives_up none err = false
gives_up (some retry_if) err = not (retry_if err)

module _ {ℓ} {S : Type ℓ} where
  abbrev pub stop : S → Option Failure → Retried S
  stop s err = record { state = s; err = err; results = []; waits = [] }

  abbrev pub after_call : Option Failure → Retried S → Retried S
  after_call result r = record r { results = result ∷ r.results }

  abbrev pub after_wait : ℕ → Retried S → Retried S
  after_wait delay r = record r { waits = delay ∷ r.waits }

module _ {ℓ} {S : Type ℓ} (config : RetryConfig) (world : World)
    (fn : ℕ → S → S × Option Failure) where
  -- The rounds from attempt `i` on; `last_err` and `delay` are the variables of the loop.
  unfoldable pub attempts_from : ℕ → ℕ → ℕ → Option Failure → S → Retried S
  unfolding add_jitter
  attempts_from zero i delay last_err s = stop s last_err
  attempts_from (suc left) i delay last_err s = elim (world.ctx_err i) [
    | some err ↦ stop s (some err)
    | none ↦
        let s' = (fn i s).0 in
        elim (fn i s).1 [
          | none ↦ after_call none (stop s' none)
          | some err ↦ after_call (some err) (elim (gives_up config.retry_if err) [
            | true ↦ stop s' (some err)
            | false ↦ elim (nat_eq (i + 1) config.max_attempts) [
              | true ↦ stop s' (some err)
              | false ↦ after_wait (add_jitter config world i delay) (elim (world.interrupt i) [
                | some cause ↦ stop s' (some cause)
                | none ↦
                    attempts_from left (suc i) (min (config.scale delay) config.max_delay)
                      (some err) s'
              ])
            ]
          ])
        ]
  ]

  unfoldable pub retry : S → Retried S
  unfolding attempts_from
  retry s = attempts_from config.max_attempts 0 config.initial_delay none s

unfoldable pub is_retryable : Option Failure → Bool
unfolding errors_is
is_retryable none = false
is_retryable (some err) =
    not (errors_is err err_canceled || errors_is err err_deadline_exceeded)
    && not (errors_is err err_circuit_open || errors_is err err_too_many_requests)
