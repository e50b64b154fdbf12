-- ===== src/Middleware/RateLimit.antt =====
-- internal/middleware/rate_limit.go, over the cache in memory. `rate.Limiter` of golang.org/x/time
-- is a parameter; each call of `time.Now()` is an argument. The lock makes `getLimiter` atomic.
-- Times are nanoseconds.
pub mod Window
pub mod Keys
use go_modulith_template.Prelude.{
  ℕ, ◌+◌, ◌-◌, ◌*◌, Bool, true, false, not, Option, none, some, List, [], ◌∷◌, ◌++◌, Bytes, ltb,
  nat_eq, ◌==◌, eq_bytes, if◌then◌else◌, lookup, insert, delete_where, ℤ, pos, negsuc, gt_int64,
}
use go_modulith_template.Cache.Memory.{MemoryCache, Decimal, Result, ok, err, increment, expire}

-- `rate.NewLimiter(rate, burst)` and `Allow()` at a time.
pub record Limiter : Type 1 where
  pub State : Type 0
  pub new_limiter : State
  pub allow : ℕ → State → State × Bool

pub record WithUsage (L : Type 0) : Type 0 where
  pub limiter : L
  pub last_access : ℕ

pub record RateLimiter (L : Type 0) : Type 0 where
  pub limiters : List (Bytes × WithUsage L)
  pub burst : ℕ
  pub cache : Option MemoryCache
  pub max_age : ℕ

abbrev pub second : ℕ
second = 1000000000

unfoldable pub new_rate_limiter : {L : Type 0} → ℕ → Option MemoryCache → RateLimiter L
new_rate_limiter burst cache = record {
  limiters = [];
  burst = burst;
  cache = cache;
  max_age = 600 * second;
}

-- The clock as one request reads it.
pub record Times : Type 0 where
  pub incremented : ℕ  -- in `Increment`
  pub expiring : ℕ  -- in `isExpired` of `Expire`
  pub deadline_from : ℕ  -- for the new deadline in `Expire`
  pub accessed : ℕ  -- in `getLimiter`
  pub allowed : ℕ  -- in `Allow`

-- "ratelimit:" + ip
abbrev pub limit_key : Bytes → Bytes
limit_key ip = (b'r' ∷ b'a' ∷ b't' ∷ b'e' ∷ b'l' ∷ b'i' ∷ b'm' ∷ b'i' ∷ b't' ∷ b':' ∷ []) ++ ip

abbrev pub is_one : ℤ → Bool
is_one (pos n) = nat_eq n 1
is_one (negsuc _) = false

-- What follows `Increment`: a new counter gets its second, and a failed one never blocks.
abbrev pub judge : ℕ → Times → Bytes → MemoryCache × Result ℤ → MemoryCache × Bool
judge burst t key (mc, err _) = (mc, false)
judge burst t key (mc, ok count) = (
  if is_one count then (expire t.expiring t.deadline_from mc key second).0 else mc,
  gt_int64 count (burst * 2),
)

unfoldable pub check_centralized_limit :
    Decimal → ℕ → Times → MemoryCache → Bytes → MemoryCache × Bool
check_centralized_limit d burst t mc ip =
    let key = limit_key ip in judge burst t key (increment d t.incremented mc key)

pub data Response : Type 0 where
  served too_many_requests too_many_requests_centralized : Response

-- The part of `X-Forwarded-For` before its first comma.
abbrev pub before_comma : Bytes → Bytes
before_comma [] = []
before_comma (c ∷ s) = let rest = before_comma s in if nat_eq c b',' then [] else c ∷ rest

pub record Request : Type 0 where
  pub x_forwarded_for : Bytes
  pub x_real_ip : Bytes
  pub remote_addr : Bytes

-- `trim_space` is `strings.TrimSpace`.
unfoldable pub get_ip_address : (Bytes → Bytes) → Request → Bytes
get_ip_address trim_space r =
    if not (r.x_forwarded_for == [])
    then trim_space (before_comma r.x_forwarded_for)
    else if not (r.x_real_ip == [])
    then r.x_real_ip
    else r.remote_addr

module _ (L : Limiter) where
  open L use {State, new_limiter, allow}

  -- `getLimiter` with the `Allow` that follows it, which changes the limiter that the map points to.
  abbrev pub use_limiter : Times → RateLimiter State → Bytes → State → RateLimiter State × Response
  use_limiter t rl ip l =
      let (l', passes) = allow t.allowed l in
      (
        record rl {
          limiters = insert ip (record { limiter = l'; last_access = t.accessed }) rl.limiters;
        },
        if passes then served else too_many_requests,
      )

  abbrev pub limiter_of : Option (WithUsage State) → State
  limiter_of none = new_limiter
  limiter_of (some u) = u.limiter

  unfoldable pub get_limiter_and_allow :
      Times → RateLimiter State → Bytes → RateLimiter State × Response
  get_limiter_and_allow t rl ip = use_limiter t rl ip (limiter_of (lookup ip rl.limiters))

  abbrev pub after_check :
      Times → RateLimiter State → Bytes → MemoryCache × Bool → RateLimiter State × Response
  unfolding get_limiter_and_allow
  after_check t rl ip (mc, true) = (record rl { cache = some mc }, too_many_requests_centralized)
  after_check t rl ip (mc, false) = get_limiter_and_allow t (record rl { cache = some mc }) ip

  -- The handler of `Middleware`, up to `next.ServeHTTP`.
  unfoldable pub middleware :
      Decimal → (Bytes → Bytes) → Times → RateLimiter State → Request → RateLimiter State × Response
  unfolding after_check get_ip_address check_centralized_limit
  middleware d trim_space t rl r =
      let ip = get_ip_address trim_space r in
      elim rl.cache [
        | none ↦ get_limiter_and_allow t rl ip
        | some mc ↦ after_check t rl ip (check_centralized_limit d rl.burst t mc ip)
      ]

-- A tick of `CleanupExpired`. `now.Sub` of a later time is negative, hence not above `maxAge`.
unfoldable pub cleanup_expired : {L : Type 0} → ℕ → RateLimiter L → RateLimiter L
cleanup_expired now rl = record rl {
  limiters = delete_where (λ _ l. ltb rl.max_age (now - l.last_access)) rl.limiters;
}
