-- ===== src/Middleware/RateLimit/Keys.antt =====
-- What one request and one cleanup do to the limiters of the addresses.
use go_modulith_template.Prelude.{
  ℕ, ◌+◌, ◌-◌, ◌≡◌, refl, Bool, true, false, Option, none, some, Bytes, ltb, ◌==◌, eq_bytes,
  if◌then◌else◌, lookup, lookup-insert, lookup-delete_where, IsMap, arith, Option-cases, inl, inr,
}
use go_modulith_template.Cache.Memory.{MemoryCache, Decimal}
use go_modulith_template.Middleware.RateLimit.{
  Limiter, WithUsage, RateLimiter, Times, Response, Request, served, too_many_requests,
  too_many_requests_centralized, get_ip_address, check_centralized_limit, limiter_of,
  get_limiter_and_allow, after_check, middleware, cleanup_expired,
}

abbrev pub blocked_centrally : Decimal → ℕ → Times → Option MemoryCache → Bytes → Bool
blocked_centrally d burst t none ip = false
blocked_centrally d burst t (some mc) ip = (check_centralized_limit d burst t mc ip).1

module _ (L : Limiter) where
  open L use {State, new_limiter, allow}

  -- What the request of `ip` leaves at address `j`, and its answer.
  abbrev pub Handled :
      Times → RateLimiter State → Bytes → Bytes → Bool → RateLimiter State × Response → Type 0
  Handled t rl ip j blocked r =
      let now = allow t.allowed (limiter_of L (lookup ip rl.limiters)) in
      (r.1 ≡ (
        if blocked
        then too_many_requests_centralized
        else if now.1
        then served
        else too_many_requests))
      × (lookup j r.0.limiters ≡ (
          if blocked
          then lookup j rl.limiters
          else if ip == j
          then some (record { limiter = now.0; last_access = t.accessed })
          else lookup j rl.limiters))

  local-Handled :
      (t : Times) (rl : RateLimiter State) (ip j : Bytes)
      → Handled t rl ip j false (get_limiter_and_allow L t rl ip)
  unfolding get_limiter_and_allow
  local-Handled t rl ip j = (refl, lookup-insert ip j _ rl.limiters)

  after_check-Handled :
      (t : Times) (rl : RateLimiter State) (ip j : Bytes) (mc : MemoryCache) (blocked : Bool)
      → Handled t rl ip j blocked (after_check L t rl ip (mc, blocked))
  unfolding after_check
  after_check-Handled t rl ip j mc true = (refl, refl)
  after_check-Handled t rl ip j mc false = local-Handled t (record rl { cache = some mc }) ip j

  -- A request is refused centrally if the shared counter says so, and then no limiter changes;
  -- otherwise it is served exactly if the limiter of its address, new where there was none, allows
  -- it, and that is the only limiter that changes.
  pub middleware-Handled :
      (d : Decimal) (trim_space : Bytes → Bytes) (t : Times) (rl : RateLimiter State) (r : Request)
      (j : Bytes)
      → let ip = get_ip_address trim_space r in
        Handled t rl ip j
          (blocked_centrally d rl.burst t rl.cache ip)
          (middleware L d trim_space t rl r)
  unfolding middleware
  middleware-Handled d trim_space t rl r j = elim (Option-cases rl.cache) [
    | inl e ↦ rw (e, middleware) (local-Handled t rl (get_ip_address trim_space r) j)
    | inr (mc, e) ↦
        let ip = get_ip_address trim_space r in
        let x = check_centralized_limit d rl.burst t mc ip in
        rw (e, middleware) (after_check-Handled t rl ip j x.0 x.1)
  ]

abbrev pub idle : ℕ → ℕ → {L : Type 0} → WithUsage L → Bool
idle now max_age l = ltb max_age (now - l.last_access)

-- The cleanup drops exactly the limiters that have been idle for longer than `max_age`.
pub lookup-cleanup_expired :
    {L : Type 0} (now : ℕ) (rl : RateLimiter L) (ip : Bytes)
    → IsMap rl.limiters
    → lookup ip (cleanup_expired now rl).limiters ≡ elim (lookup ip rl.limiters) [
      | none ↦ none
      | some l ↦ if ltb (rl.max_age + l.last_access) now then none else some l
    ]
unfolding cleanup_expired
lookup-cleanup_expired now rl ip h = rw (lookup-delete_where _ ip rl.limiters h) (ground arith)
