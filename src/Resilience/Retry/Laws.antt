-- ===== src/Resilience/Retry/Laws.antt =====
-- How often the retry loop calls its function, and what it returns.
use Prim.Native.Nat.{min}
use go_modulith_template.Prelude.{
  ℕ, zero, suc, ◌+◌, ◌≤◌, ◌<◌, ◌≡◌, refl, ap, true, false, Option, none, some, List, [], ◌∷◌, arith,
  length, ◌≢◌, ◌↔◌, ◌⊎◌, Bool-cases, Option-cases, inl, inr, nat_eq,
}
use go_modulith_template.Resilience.Failure.{Failure}
use go_modulith_template.Resilience.Retry.{
  RetryConfig, World, Retried, gives_up, add_jitter, attempts_from, retry, stop, after_call,
  after_wait,
}

-- A result after which the loop goes on: a failure that `RetryIf` accepts.
abbrev pub IsRetried : RetryConfig → Option Failure → Type 0
IsRetried config none = ⊥
IsRetried config (some err) = gives_up config.retry_if err ≡ false

abbrev pub AllButLast : (Option Failure → Type 0) → List (Option Failure) → Type 0
AllButLast P [] = Unit
AllButLast P (x ∷ []) = Unit
AllButLast P (x ∷ y ∷ l) = P x × AllButLast P (y ∷ l)

abbrev pub last_result : List (Option Failure) → Option (Option Failure)
last_result [] = none
last_result (x ∷ []) = some x
last_result (x ∷ y ∷ l) = last_result (y ∷ l)

module _ {ℓ} {S : Type ℓ} (config : RetryConfig) (world : World)
    (fn : ℕ → S → S × Option Failure) where
  -- The ways in which one round can go; `go` is what the later rounds give.
  pub data Round (i delay : ℕ) (s : S) (go : Failure → Retried S) (r : Retried S) : Type ℓ where
    refused : (e : Failure) → world.ctx_err i ≡ some e → r ≡ stop s (some e) → Round i delay s go r
    succeeded :
        (fn i s).1 ≡ none → r ≡ after_call none (stop (fn i s).0 none) → Round i delay s go r
    failed :
        (e : Failure)
        → (fn i s).1 ≡ some e
        → (gives_up config.retry_if e ≡ true) ⊎ (i + 1 ≡ config.max_attempts)
        → r ≡ after_call (some e) (stop (fn i s).0 (some e))
        → Round i delay s go r
    interrupted :
        (e c : Failure)
        → (fn i s).1 ≡ some e
        → world.interrupt i ≡ some c
        → r
          ≡ after_call
              (some e)
              (after_wait (add_jitter config world i delay) (stop (fn i s).0 (some c)))
        → Round i delay s go r
    continued :
        (e : Failure)
        → (fn i s).1 ≡ some e
        → gives_up config.retry_if e ≡ false
        → i + 1 ≢ config.max_attempts
        → r ≡ after_call (some e) (after_wait (add_jitter config world i delay) (go e))
        → Round i delay s go r

  pub round :
      (left i delay : ℕ) (last : Option Failure) (s : S)
      → Round i delay s
          (λ e.
            attempts_from config world fn left
              (suc i)
              (min (config.scale delay) config.max_delay)
              (some e)
              (fn i s).0)
          (attempts_from config world fn (suc left) i delay last s)
  unfolding attempts_from
  round left i delay last s = elim (Option-cases (world.ctx_err i)) [
    | inr (e, p) ↦ refused e p (rw (p, attempts_from))
    | inl p ↦ elim (Option-cases (fn i s).1) [
      | inl q ↦ succeeded q (rw (p, q, attempts_from))
      | inr (e, q) ↦ elim (Bool-cases (gives_up config.retry_if e)) [
        | inl g ↦ failed e q (inl g) (rw (p, q, g, attempts_from))
        | inr g ↦ elim (Bool-cases (nat_eq (i + 1) config.max_attempts)) [
          | inl m ↦ failed e q (inr (ground arith)) (rw (p, q, g, m, attempts_from))
          | inr m ↦ elim (Option-cases (world.interrupt i)) [
            | inr (c, w) ↦ interrupted e c q w (rw (p, q, g, m, w, attempts_from))
            | inl w ↦ continued e q g (ground arith) (rw (p, q, g, m, w, attempts_from))
          ]
        ]
      ]
    ]
  ]

  attempts_from-length :
      (left i delay : ℕ) (last : Option Failure) (s : S)
      → length (attempts_from config world fn left i delay last s).results ≤ left
  attempts_from-length zero i delay last s = unfold attempts_from in omega arith
  attempts_from-length (suc left) i delay last s = elim (round left i delay last s) [
    | refused e _ r ↦ rw r (omega arith)
    | succeeded _ r ↦ rw r (omega arith)
    | failed e _ _ r ↦ rw r (omega arith)
    | interrupted e c _ _ r ↦ rw r (omega arith)
    | continued e _ _ _ r ↦ rw r (
        omega (
          arith,
          attempts_from-length left (suc i) (min (config.scale delay) config.max_delay) (some e)
              (fn i s).0,
        ))
  ]

  -- `Retry` calls `fn` at most `MaxAttempts` times.
  pub retry-length : (s : S) → length (retry config world fn s).results ≤ config.max_attempts
  unfolding retry
  retry-length s = attempts_from-length config.max_attempts 0 config.initial_delay none s

  AllButLast-cons :
      (P : Option Failure → Type 0) (x : Option Failure) (l : List (Option Failure))
      → P x
      → AllButLast P l
      → AllButLast P (x ∷ l)
  AllButLast-cons P x [] p h = tt
  AllButLast-cons P x (y ∷ l) p h = (p, h)

  attempts_from-IsRetried :
      (left i delay : ℕ) (last : Option Failure) (s : S)
      → AllButLast (IsRetried config) (attempts_from config world fn left i delay last s).results
  attempts_from-IsRetried zero i delay last s = unfold attempts_from in tt
  attempts_from-IsRetried (suc left) i delay last s = elim (round left i delay last s) [
    | refused e _ r ↦ rw r tt
    | succeeded _ r ↦ rw r tt
    | failed e _ _ r ↦ rw r tt
    | interrupted e c _ _ r ↦ rw r tt
    | continued e _ g _ r ↦ rw r (
        AllButLast-cons (IsRetried config) (some e) _ g (
          attempts_from-IsRetried left (suc i) (min (config.scale delay) config.max_delay) (some e)
            (fn i s).0))
  ]

  -- Every call but the last one failed, with an error that `RetryIf` accepts.
  pub retry-IsRetried : (s : S) → AllButLast (IsRetried config) (retry config world fn s).results
  unfolding retry
  retry-IsRetried s = attempts_from-IsRetried config.max_attempts 0 config.initial_delay none s

  last_result-cons :
      (e : Failure) (l : List (Option Failure))
      → (last_result (some e ∷ l) ≡ some none) ↔ (last_result l ≡ some none)
  last_result-cons e [] = ground arith
  last_result-cons e (y ∷ l) = (λ h. h, λ h. h)

  attempts_from-eq-none :
      (left i delay : ℕ) (last : Option Failure) (s : S)
      → 0 < left
      → i + left ≡ config.max_attempts
      → ((attempts_from config world fn left i delay last s).err ≡ none)
        ↔ (last_result (attempts_from config world fn left i delay last s).results ≡ some none)
  attempts_from-eq-none zero i delay last s h e = absurd (omega arith)
  attempts_from-eq-none (suc left) i delay last s h e = elim (round left i delay last s) [
    | refused e _ r ↦ rw r (ground arith)
    | succeeded _ r ↦ rw r (ground arith)
    | failed e _ _ r ↦ rw r (ground arith)
    | interrupted e c _ _ r ↦ rw r (ground arith)
    | continued x _ g m r ↦
        let delay' = min (config.scale delay) config.max_delay in
        let rest = attempts_from config world fn left (suc i) delay' (some x) (fn i s).0 in
        let ih =
          attempts_from-eq-none left (suc i) delay' (some x) (fn i s).0 (omega arith)
            (omega arith) in
        let more = last_result-cons x rest.results in
        rw r (λ p. more.1 (ih.0 p), λ p. ih.1 (more.0 p))
  ]

  -- Where at least one attempt is allowed, `Retry` returns nil exactly when its last call succeeded.
  pub retry-eq-none :
      (s : S)
      → 0 < config.max_attempts
      → ((retry config world fn s).err ≡ none)
        ↔ (last_result (retry config world fn s).results ≡ some none)
  unfolding retry
  retry-eq-none s h =
      attempts_from-eq-none config.max_attempts 0 config.initial_delay none s h (omega arith)

  attempts_from_exhausts :
      (left i delay : ℕ) (last : Option Failure) (s : S)
      → ((k : ℕ) → world.ctx_err k ≡ none)
      → ((k : ℕ) → world.interrupt k ≡ none)
      → ((k : ℕ) (t : S) → (fn k t).1 ≢ none)
      → ((k : ℕ) (t : S) (e : Failure) → (fn k t).1 ≡ some e → gives_up config.retry_if e ≡ false)
      → i + left ≡ config.max_attempts
      → length (attempts_from config world fn left i delay last s).results ≡ left
  attempts_from_exhausts zero i delay last s c w f n e = unfold attempts_from in refl
  attempts_from_exhausts (suc left) i delay last s c w f n e = elim (round left i delay last s) [
    | refused x p _ ↦ cc (c i)
    | succeeded p _ ↦ absurd (f i s p)
    | failed x p why r ↦ rw r (ground (arith, n i s x p))
    | interrupted x y _ p _ ↦ cc (w i)
    | continued x _ _ m r ↦ rw r (
        ap suc (
          attempts_from_exhausts left (suc i) (min (config.scale delay) config.max_delay) (some x)
            (fn i s).0 c w f n (omega arith)))
  ]

  -- While the context stays alive, every call fails, and `RetryIf` is nil or accepts every error that
  -- a call returns, `fn` is called exactly `MaxAttempts` times.
  pub retry_exhausts :
      (s : S)
      → ((k : ℕ) → world.ctx_err k ≡ none)
      → ((k : ℕ) → world.interrupt k ≡ none)
      → ((k : ℕ) (t : S) → (fn k t).1 ≢ none)
      → ((k : ℕ) (t : S) (e : Failure) → (fn k t).1 ≡ some e → gives_up config.retry_if e ≡ false)
      → length (retry config world fn s).results ≡ config.max_attempts
  unfolding retry
  retry_exhausts s c w f n =
      attempts_from_exhausts config.max_attempts 0 config.initial_delay none s c w f n (omega arith)
