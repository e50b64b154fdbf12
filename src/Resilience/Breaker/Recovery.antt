-- ===== src/Resilience/Breaker/Recovery.antt =====
-- How an open breaker closes again, and how it can be kept from closing.
use Prim.Native.Nat.{max}
use go_modulith_template.Prelude.{
  ℕ, suc, ◌+◌, ◌≤◌, ◌<◌, ◌≡◌, ◌∙◌, refl, false, Option, none, some, List, [], ◌∷◌, arith, length,
  All,
}
use native.Mathlib.Nat.{add-zero, add-suc, suc-add}
use go_modulith_template.Resilience.Failure.{Failure, too_many_requests}
use go_modulith_template.Resilience.Breaker.{
  state_closed, state_open, state_half_open, Breaker, Times, execute,
}
use go_modulith_template.Resilience.Breaker.Trip.{Attempt, run}

abbrev pub IsSuccess : Attempt → Type 0
IsSuccess a = a.1 ≡ none

-- A half-open breaker in which every call that was let through has succeeded.
record IsTesting (n : ℕ) (cb : Breaker) : Type 0 where
  half : cb.state ≡ state_half_open
  admitted : cb.half_open_requests ≡ n
  succeeded : cb.consecutive_success ≡ n

IsTesting-execute :
    (n : ℕ) (cb : Breaker) (t : Times)
    → IsTesting n cb
    → n < cb.config.max_half_open_requests
    → suc n < cb.config.success_threshold
    → IsTesting (suc n) (execute cb t none).breaker
      × ((execute cb t none).breaker.config ≡ cb.config)
unfolding execute
IsTesting-execute n cb t h p q = ground arith

last_success :
    (n : ℕ) (cb : Breaker) (t : Times)
    → IsTesting n cb
    → n < cb.config.max_half_open_requests
    → cb.config.success_threshold ≤ suc n
    → let c = (execute cb t none).breaker in (c.state ≡ state_closed) × (c.failures ≡ 0)
unfolding execute
last_success n cb t h p q = ground arith

run_testing :
    (n : ℕ) (cb : Breaker) (attempts : List Attempt)
    → All IsSuccess attempts
    → IsTesting n cb
    → cb.config.success_threshold ≤ cb.config.max_half_open_requests
    → suc n ≤ cb.config.success_threshold
    → n + length attempts ≡ cb.config.success_threshold
    → ((run cb attempts).state ≡ state_closed) × ((run cb attempts).failures ≡ 0)
unfolding run
run_testing n cb [] s h fits more e = absurd (omega arith)
run_testing n cb ((t, o) ∷ []) s h fits more e =
    rw s.0 (last_success n cb t h (omega arith) (omega arith))
run_testing n cb ((t, o) ∷ b ∷ rest) s h fits more e =
    let step = IsTesting-execute n cb t h (omega arith) (omega arith) in
    rw s.0 (
      run_testing (suc n) (execute cb t none).breaker (b ∷ rest) s.1 step.0 (rw step.1 fits)
        (rw step.1 (omega arith)) (rw step.1 (omega arith)))

-- The first call after the timeout.
open_success :
    (cb : Breaker) (t : Times)
    → cb.state ≡ state_open
    → cb.last_state_change + cb.config.timeout < t.asked
    → let c = (execute cb t none).breaker in
      (c.config ≡ cb.config)
      × (1 < cb.config.success_threshold → IsTesting 1 c)
      × (cb.config.success_threshold ≤ 1 → (c.state ≡ state_closed) × (c.failures ≡ 0))
unfolding execute
open_success cb t e late = ground arith

-- An open breaker whose timeout has passed closes, with no failure on its count, after
-- `success_threshold` successful calls in a row (one, if that is 0), where `success_threshold` is
-- not above `max_half_open_requests`.
pub run-closes :
    (cb : Breaker) (t : Times) (rest : List Attempt)
    → cb.state ≡ state_open
    → cb.last_state_change + cb.config.timeout < t.asked
    → All IsSuccess rest
    → suc (length rest) ≡ max cb.config.success_threshold 1
    → cb.config.success_threshold ≤ cb.config.max_half_open_requests
    → ((run cb ((t, none) ∷ rest)).state ≡ state_closed)
      × ((run cb ((t, none) ∷ rest)).failures ≡ 0)
unfolding run
run-closes cb t [] e late s n fits = (open_success cb t e late).2 (omega arith)
run-closes cb t (b ∷ rest) e late s n fits =
    let (same, test, _) = open_success cb t e late in
    run_testing 1 (execute cb t none).breaker (b ∷ rest) s (test (omega arith)) (rw same fits)
      (rw same (omega arith)) (rw same (omega arith))

run_admitted :
    (n : ℕ) (cb : Breaker) (attempts : List Attempt)
    → All IsSuccess attempts
    → IsTesting n cb
    → n + length attempts ≡ cb.config.max_half_open_requests
    → cb.config.max_half_open_requests < cb.config.success_threshold
    → IsTesting (n + length attempts) (run cb attempts) × ((run cb attempts).config ≡ cb.config)
unfolding run
run_admitted n cb [] s h e short = (rw add-zero h, refl)
run_admitted n cb ((t, o) ∷ rest) s h e short =
    let step = IsTesting-execute n cb t h (omega arith) (omega arith) in
    let ih =
      run_admitted (suc n) (execute cb t none).breaker rest s.1 step.0 (rw step.1 (omega arith))
        (rw step.1 short) in
    rw s.0 (rw (add-suc, ← suc-add) ih.0, ih.1 ∙ step.1)

exhausted_refuses :
    (cb : Breaker) (t : Times) (outcome : Option Failure)
    → cb.state ≡ state_half_open
    → cb.config.max_half_open_requests ≤ cb.half_open_requests
    → execute cb t outcome ≡ record { breaker = cb; err = some too_many_requests; called = false }
unfolding execute
exhausted_refuses cb t outcome e full = ground arith

exhausted_run :
    (cb : Breaker) (attempts : List Attempt)
    → cb.state ≡ state_half_open
    → cb.config.max_half_open_requests ≤ cb.half_open_requests
    → run cb attempts ≡ cb
unfolding run
exhausted_run cb [] e full = refl
exhausted_run cb ((t, o) ∷ rest) e full =
    rw (exhausted_refuses cb t o e full) (exhausted_run cb rest e full)

run_exhausts :
    (cb : Breaker) (t : Times) (rest : List Attempt)
    → cb.state ≡ state_open
    → cb.last_state_change + cb.config.timeout < t.asked
    → All IsSuccess rest
    → suc (length rest) ≡ cb.config.max_half_open_requests
    → cb.config.max_half_open_requests < cb.config.success_threshold
    → let stuck = run cb ((t, none) ∷ rest) in
      (stuck.state ≡ state_half_open)
      × (stuck.config.max_half_open_requests ≤ stuck.half_open_requests)
unfolding run
run_exhausts cb t rest e late s n short =
    let (same, test, _) = open_success cb t e late in
    let (now, kept) =
      run_admitted 1 (execute cb t none).breaker rest s (test (omega arith)) (rw same (omega arith))
        (rw same short) in
    (now.half, rw (kept, same) (omega arith))

-- Where `max_half_open_requests` lies below `success_threshold` (and is not 0), and the calls run
-- one after the other, none between the two critical sections of another: after the timeout,
-- `max_half_open_requests` successful calls leave an open breaker half-open, and every later call,
-- at any time and in any number, is refused and changes nothing.
pub run-starves :
    (cb : Breaker) (t : Times) (rest later : List Attempt) (t' : Times) (o : Option Failure)
    → cb.state ≡ state_open
    → cb.last_state_change + cb.config.timeout < t.asked
    → All IsSuccess rest
    → suc (length rest) ≡ cb.config.max_half_open_requests
    → cb.config.max_half_open_requests < cb.config.success_threshold
    → let stuck = run cb ((t, none) ∷ rest) in
      (stuck.state ≡ state_half_open)
      × (run stuck later ≡ stuck)
      × (execute stuck t' o
          ≡ record { breaker = stuck; err = some too_many_requests; called = false })
run-starves cb t rest later t' o e late s n short =
    let (half, full) = run_exhausts cb t rest e late s n short in
    (half, exhausted_run _ later half full, exhausted_refuses _ t' o half full)
