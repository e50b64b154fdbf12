-- ===== src/Prelude/Int64.antt =====
-- Go's int64: the integers from -2^63 to 2^63 - 1, with `++` and `--` that wrap around.
use Prim.Native.Nat.{ℕ, zero, suc, ◌+◌}
use mathlib.Core.Bool.{Bool, false}
use go_modulith_template.Prelude.Tests.{nat_eq, ltb, if◌then◌else◌}

-- `negsuc n` is -(n + 1).
pub data ℤ : Type 0 where
  pos : ℕ → ℤ
  negsuc : ℕ → ℤ

abbrev pub max_int64 : ℕ
max_int64 = 9223372036854775807

abbrev pub succ_int64 : ℤ → ℤ
succ_int64 (pos n) = if nat_eq n max_int64 then negsuc max_int64 else pos (n + 1)
succ_int64 (negsuc zero) = pos 0
succ_int64 (negsuc (suc n)) = negsuc n

abbrev pub pred_int64 : ℤ → ℤ
pred_int64 (pos zero) = negsuc 0
pred_int64 (pos (suc n)) = pos n
pred_int64 (negsuc n) = if nat_eq n max_int64 then pos max_int64 else negsuc (n + 1)

-- `v > n` for a natural number `n`.
abbrev pub gt_int64 : ℤ → ℕ → Bool
gt_int64 (pos v) n = ltb n v
gt_int64 (negsuc _) n = false
