-- ===== src/Resilience/Retry/Waits.antt =====
-- How long the retry loop waits.
use Prim.Native.Nat.{min, max}
use go_modulith_template.Prelude.{ℕ, zero, suc, ◌≤◌, ◌≡◌, false, Option, none, some, arith, All}
use go_modulith_template.Resilience.Failure.{Failure}
use go_modulith_template.Resilience.Retry.{RetryConfig, World, add_jitter, attempts_from, retry}
use go_modulith_template.Resilience.Retry.Laws.{
  refused, succeeded, failed, interrupted, continued, round,
}

module _ {ℓ} {S : Type ℓ} (config : RetryConfig) (world : World)
    (fn : ℕ → S → S × Option Failure) where
  add_jitter_off : (i delay : ℕ) → config.jitter ≡ false → add_jitter config world i delay ≡ delay
  unfolding add_jitter
  add_jitter_off i delay j = ground arith

  attempts_from-waits :
      (left i delay bound : ℕ) (last : Option Failure) (s : S)
      → config.jitter ≡ false
      → delay ≤ bound
      → config.max_delay ≤ bound
      → All (λ d. d ≤ bound) (attempts_from config world fn left i delay last s).waits
  attempts_from-waits zero i delay bound last s j h k = unfold attempts_from in tt
  attempts_from-waits (suc left) i delay bound last s j h k =
      elim (round config world fn left i delay last s) [
        | refused e _ r ↦ rw r tt
        | succeeded _ r ↦ rw r tt
        | failed e _ _ r ↦ rw r tt
        | interrupted e c _ _ r ↦ rw (r, add_jitter_off i delay j) (h, tt)
        | continued e _ g _ r ↦
            rw (r, add_jitter_off i delay j)
              (
                h,
                attempts_from-waits left (suc i) (min (config.scale delay) config.max_delay) bound
                    (some e) (fn i s).0 j (omega arith) k,
              )
      ]

  -- Without jitter no wait is longer than the larger of `InitialDelay` and `MaxDelay`.
  pub retry-waits :
      (s : S)
      → config.jitter ≡ false
      → All (λ d. d ≤ max config.initial_delay config.max_delay) (retry config world fn s).waits
  unfolding retry
  retry-waits s j =
      attempts_from-waits config.max_attempts 0 config.initial_delay
        (max config.initial_delay config.max_delay) none s j (omega arith) (omega arith)
