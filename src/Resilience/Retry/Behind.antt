-- ===== src/Resilience/Retry/Behind.antt =====
-- A circuit breaker called through the retry loop, with `IsRetryable` for `RetryIf`.
use go_modulith_template.Prelude.{
  ℕ, suc, ◌-◌, sym, subst, ◌<◌, ◌≡◌, ◌⊎◌, refl, true, false, Option, none, some, [], ◌∷◌, arith,
  inl, inr,
}
use go_modulith_template.Resilience.Failure.{Failure, circuit_open, too_many_requests}
use go_modulith_template.Resilience.Breaker.{Breaker, Times, execute}
use go_modulith_template.Resilience.Breaker.Trip.{execute_refused}
use go_modulith_template.Resilience.Retry.{
  RetryConfig, World, attempts_from, gives_up, retry, is_retryable,
}

-- Attempt `i` is a call of `Execute` at the times `times i`; `outcome i` is what the service returns.
abbrev pub guarded : (ℕ → Times) → (ℕ → Option Failure) → ℕ → Breaker → Breaker × Option Failure
guarded times outcome i cb = let x = execute cb (times i) (outcome i) in (x.breaker, x.err)

module _ (config : RetryConfig) (world : World) (fn : ℕ → Breaker → Breaker × Option Failure) where
  first_try :
      (left : ℕ) (cb : Breaker) (err : Failure)
      → config.retry_if ≡ some (λ e. is_retryable (some e))
      → world.ctx_err 0 ≡ none
      → (fn 0 cb).0 ≡ cb
      → (fn 0 cb).1 ≡ some err
      → is_retryable (some err) ≡ false
      → attempts_from config world fn (suc left) 0 config.initial_delay none cb
        ≡ record { state = cb; err = some err; results = some err ∷ []; waits = [] }
  unfolding attempts_from
  first_try left cb err r c s f n =
      let g : gives_up config.retry_if err ≡ true = rw r (rw n refl) in
      rw (c, f, g, s, attempts_from)

refusal_is_final :
    (o : Option Failure)
    → (o ≡ some circuit_open) ⊎ (o ≡ some too_many_requests)
    → (err : Failure) × (o ≡ some err) × (is_retryable (some err) ≡ false)
unfolding is_retryable
refusal_is_final o (inl e) = (circuit_open, e, refl)
refusal_is_final o (inr e) = (too_many_requests, e, refl)

-- With `IsRetryable` for `RetryIf`, and the context alive at the start: if the breaker refuses the
-- first attempt, `Retry` makes no other, does not wait, leaves the breaker as it was and returns the
-- breaker's error.
pub retry_refused :
    (config : RetryConfig) (world : World) (times : ℕ → Times) (outcome : ℕ → Option Failure)
    (cb : Breaker)
    → 0 < config.max_attempts
    → config.retry_if ≡ some (λ e. is_retryable (some e))
    → world.ctx_err 0 ≡ none
    → (execute cb (times 0) (outcome 0)).called ≡ false
    → let err = (execute cb (times 0) (outcome 0)).err in
      retry config world (guarded times outcome) cb
      ≡ record { state = cb; err = err; results = err ∷ []; waits = [] }
unfolding retry
retry_refused config world times outcome cb h r c no_call =
    let (kept, which) = execute_refused cb (times 0) (outcome 0) no_call in
    let (err, is_err, final) = refusal_is_final _ which in
    let e : config.max_attempts ≡ suc (config.max_attempts - 1) = omega arith in
    rw is_err (
      subst
        (λ m.
          attempts_from config world (guarded times outcome) m 0 config.initial_delay none cb
          ≡ record { state = cb; err = some err; results = some err ∷ []; waits = [] })
        (sym e)
        (first_try config world (guarded times outcome) (config.max_attempts - 1) cb err r c kept
          is_err final))
