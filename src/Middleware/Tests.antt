-- ===== src/Middleware/Tests.antt =====
-- The properties of the rate limiter at a few requests.
use go_modulith_template.Prelude.{
  ℕ, ◌≡◌, ◌*◌, refl, Bool, true, false, none, some, List, [], ◌∷◌, Bytes, codes, eq_bytes,
  if◌then◌else◌, pos, negsuc, arith,
}
use go_modulith_template.Cache.Memory.{Decimal, new_memory_cache}
use go_modulith_template.Middleware.RateLimit.{
  Limiter, RateLimiter, Times, Request, second, get_ip_address, middleware,
}
use go_modulith_template.Middleware.RateLimit.Window.{
  RoundTrips, checks, verdicts_from, checks_window,
}
use go_modulith_template.Middleware.RateLimit.Keys.{Handled, blocked_centrally, middleware-Handled}

-- A number as one byte of its value, with a sign before it.
abbrev coded : Decimal
coded = record {
  print = λ z. elim z [ pos n ↦ n ∷ [] | negsuc n ↦ b'-' ∷ n ∷ [] ];
  scan = λ s. elim s [
    | [] ↦ none
    | ◌∷◌ n rest ↦ elim rest [ [] ↦ some (pos n) | ◌∷◌ m _ ↦ some (negsuc m) ]
  ];
}

coded-RoundTrips : RoundTrips coded
coded-RoundTrips = record { scan-print = λ n le. refl }

abbrev home : Bytes
home = codes "10.0.0.1"

abbrev at : ℕ → Times
at now = record {
  incremented = now;
  expiring = now;
  deadline_from = now;
  accessed = now;
  allowed = now;
}

abbrev close_by : List Times
close_by = at 20 ∷ at 30 ∷ []

checks_window_example :
    checks coded 1 (at 10 ∷ close_by) new_memory_cache home
    ≡ verdicts_from (1 * 2) 1 (at 10 ∷ close_by)
checks_window_example =
    checks_window coded 1 (at 10) close_by new_memory_cache home coded-RoundTrips
      (unfold new_memory_cache in refl) (omega arith, (omega arith, tt)) (omega arith)

-- The third of them is refused.
third_refused : verdicts_from (1 * 2) 1 (at 10 ∷ close_by) ≡ false ∷ false ∷ true ∷ []
third_refused = refl

-- A limiter that lets every second call pass.
abbrev toggle : Limiter
toggle = record {
  State = Bool;
  new_limiter = true;
  allow = λ now s. (if s then false else true, s);
}

abbrev known : RateLimiter Bool
known = record {
  limiters = (home, record { limiter = false; last_access = 5 }) ∷ [];
  burst = 1;
  cache = none;
  max_age = 600 * second;
}

abbrev request : Request
request = record {
  x_forwarded_for = codes "10.0.0.1, 8.8.8.8";
  x_real_ip = [];
  remote_addr = codes "9.9.9.9";
}

middleware-Handled_example :
    let ip = get_ip_address (λ s. s) request in
    Handled toggle
      (at 7)
      known
      ip
      home
      (blocked_centrally coded 1 (at 7) none ip)
      (middleware toggle coded (λ s. s) (at 7) known request)
middleware-Handled_example = middleware-Handled toggle coded (λ s. s) (at 7) known request home
