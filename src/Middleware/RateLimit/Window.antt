-- ===== src/Middleware/RateLimit/Window.antt =====
-- The centralized limit over one window of a second.
use go_modulith_template.Prelude.{
  ℕ, ◌+◌, ◌*◌, ◌≤◌, ◌<◌, ◌≡◌, refl, Bool, true, false, none, some, List, [], ◌∷◌, Bytes, ltb,
  nat_eq, eq_bytes, lookup, insert, pos, max_int64, succ_int64, lookup-insert_self, arith, All,
  length,
}
use go_modulith_template.Cache.Memory.{
  Item, MemoryCache, Decimal, ok, live, counted, increment, expire,
}
use go_modulith_template.Middleware.RateLimit.{Times, second, limit_key, check_centralized_limit}

-- What the code relies on of `fmt`: a printed int64 is scanned back.
pub record RoundTrips (d : Decimal) : Type 0 where
  pub scan-print : (n : ℕ) → n ≤ max_int64 → d.scan (d.print (pos n)) ≡ some (pos n)

-- The counter of `key` stands at `n` and lives until `deadline`.
record Counting (d : Decimal) (key : Bytes) (n deadline : ℕ) (mc : MemoryCache) : Type 0 where
  entry :
      lookup key mc.items
      ≡ some (record { value = d.print (pos n); expires_at = deadline; has_expiry = true })

abbrev counter : Decimal → ℕ → ℕ → Item
counter d n deadline = record { value = d.print (pos n); expires_at = deadline; has_expiry = true }

first_count :
    (d : Decimal) (now : ℕ) (mc : MemoryCache) (key : Bytes)
    → live now (lookup key mc.items) ≡ none
    → increment d now mc key ≡ (
      record mc {
        items =
            insert key
              (record { value = d.print (pos 1); expires_at = 0; has_expiry = false })
              mc.items;
      },
      ok (pos 1),
    )
unfolding increment
first_count d now mc key e = rw (e, increment)

scanned :
    (d : Decimal) (mc : MemoryCache) (key : Bytes) (n deadline : ℕ)
    → RoundTrips d
    → 0 < n
    → n < max_int64
    → counted d (pos 1) succ_int64 mc key (some (counter d n deadline))
      ≡ (record mc { items = insert key (counter d (n + 1) deadline) mc.items }, ok (pos (n + 1)))
scanned d mc key n deadline law p lt =
    let step : succ_int64 (pos n) ≡ pos (n + 1) = ground arith in
    rw (law.scan-print n (omega arith), counted) (rw step)

next_count :
    (d : Decimal) (now : ℕ) (mc : MemoryCache) (key : Bytes) (n deadline : ℕ)
    → RoundTrips d
    → Counting d key n deadline mc
    → now ≤ deadline
    → 0 < n
    → n < max_int64
    → increment d now mc key
      ≡ (record mc { items = insert key (counter d (n + 1) deadline) mc.items }, ok (pos (n + 1)))
unfolding increment
next_count d now mc key n deadline law c le p lt =
    let alive : live now (lookup key mc.items) ≡ some (counter d n deadline) =
      rw c.entry (ground arith) in
    rw (alive, increment) (scanned d mc key n deadline law p lt)

set_deadline :
    (d : Decimal) (t : Times) (mc : MemoryCache) (key : Bytes)
    → Counting d key 1
        (t.deadline_from + second)
        (expire t.expiring t.deadline_from
          (record mc {
            items =
                insert key
                  (record { value = d.print (pos 1); expires_at = 0; has_expiry = false })
                  mc.items;
          })
          key
          second).0
unfolding expire
set_deadline d t mc key =
    let fresh : Item = record { value = d.print (pos 1); expires_at = 0; has_expiry = false } in
    record {
      entry = rw (lookup-insert_self key fresh mc.items, expire) (lookup-insert_self key _ _);
    }

first_check :
    (d : Decimal) (burst : ℕ) (t : Times) (mc : MemoryCache) (ip : Bytes)
    → live t.incremented (lookup (limit_key ip) mc.items) ≡ none
    → let r = check_centralized_limit d burst t mc ip in
      Counting d (limit_key ip) 1 (t.deadline_from + second) r.0 × (r.1 ≡ ltb (burst * 2) 1)
unfolding check_centralized_limit
first_check d burst t mc ip e =
    rw (first_count d t.incremented mc (limit_key ip) e) (set_deadline d t mc (limit_key ip), refl)

next_check :
    (d : Decimal) (burst : ℕ) (t : Times) (mc : MemoryCache) (ip : Bytes) (n deadline : ℕ)
    → RoundTrips d
    → Counting d (limit_key ip) n deadline mc
    → t.incremented ≤ deadline
    → 0 < n
    → n < max_int64
    → let r = check_centralized_limit d burst t mc ip in
      Counting d (limit_key ip) (n + 1) deadline r.0 × (r.1 ≡ ltb (burst * 2) (n + 1))
unfolding check_centralized_limit
next_check d burst t mc ip n deadline law c le p lt =
    let not_first : nat_eq (n + 1) 1 ≡ false = ground arith in
    rw (next_count d t.incremented mc (limit_key ip) n deadline law c le p lt)
      (rw not_first (record { entry = lookup-insert_self (limit_key ip) _ mc.items }, refl))

-- The verdicts on the requests of one address, one after the other.
unfoldable pub checks : Decimal → ℕ → List Times → MemoryCache → Bytes → List Bool
checks d burst [] mc ip = []
checks d burst (t ∷ ts) mc ip =
    let r = check_centralized_limit d burst t mc ip in r.1 ∷ checks d burst ts r.0 ip

-- The requests number n, n + 1, … of a window: blocked are those above `limit`.
abbrev pub verdicts_from : ℕ → ℕ → List Times → List Bool
verdicts_from limit n [] = []
verdicts_from limit n (t ∷ ts) = ltb limit n ∷ verdicts_from limit (n + 1) ts

checks-Counting :
    (d : Decimal) (burst : ℕ) (ts : List Times) (mc : MemoryCache) (ip : Bytes) (n deadline : ℕ)
    → RoundTrips d
    → Counting d (limit_key ip) n deadline mc
    → All (λ t. t.incremented ≤ deadline) ts
    → 0 < n
    → n + length ts ≤ max_int64
    → checks d burst ts mc ip ≡ verdicts_from (burst * 2) (n + 1) ts
unfolding checks
checks-Counting d burst [] mc ip n deadline law c le p fits = refl
checks-Counting d burst (t ∷ ts) mc ip n deadline law c le p fits =
    let (c', blocked) = next_check d burst t mc ip n deadline law c le.0 p (omega arith) in
    let mc' = (check_centralized_limit d burst t mc ip).0 in
    cc (
      blocked,
      checks-Counting d burst ts mc' ip (n + 1) deadline law c' le.1 (omega arith) (omega arith),
    )

-- Of the requests of one address that come within the second after its first, of which no live
-- counter was there before, exactly the first `burst * 2` pass the centralized check, whatever the
-- times between them.
pub checks_window :
    (d : Decimal) (burst : ℕ) (t : Times) (ts : List Times) (mc : MemoryCache) (ip : Bytes)
    → RoundTrips d
    → live t.incremented (lookup (limit_key ip) mc.items) ≡ none
    → All (λ u. u.incremented ≤ t.deadline_from + second) ts
    → length ts < max_int64
    → checks d burst (t ∷ ts) mc ip ≡ verdicts_from (burst * 2) 1 (t ∷ ts)
unfolding checks
checks_window d burst t ts mc ip law fresh le fits =
    let (c, blocked) = first_check d burst t mc ip fresh in
    let mc' = (check_centralized_limit d burst t mc ip).0 in
    let later =
      checks-Counting d burst ts mc' ip 1 (t.deadline_from + second) law c le (omega arith)
        (omega arith) in
    cc (blocked, later)
