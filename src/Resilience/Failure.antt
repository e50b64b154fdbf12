-- ===== src/Resilience/Failure.antt =====
-- The errors that the package internal/resilience returns or tells apart, as Go error chains:
-- the sentinels of the package and of `context`, any other error, and `fmt.Errorf` with `%w`.
use go_modulith_template.Prelude.{Bool, true, false, String}

pub data Failure : Type 0 where
  circuit_open too_many_requests canceled deadline_exceeded : Failure
  other : String → Failure
  wrapped : String → Failure → Failure

-- `errors.Is(err, s)` for one of the four sentinels: the walk along the chain of wrapped errors.
pub data Sentinel : Type 0 where
  err_circuit_open err_too_many_requests err_canceled err_deadline_exceeded : Sentinel

unfoldable pub errors_is : Failure → Sentinel → Bool
errors_is circuit_open err_circuit_open = true
errors_is too_many_requests err_too_many_requests = true
errors_is canceled err_canceled = true
errors_is deadline_exceeded err_deadline_exceeded = true
errors_is (wrapped text inner) s = errors_is inner s
errors_is _ _ = false
