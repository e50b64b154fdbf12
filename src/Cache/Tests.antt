-- ===== src/Cache/Tests.antt =====
-- The properties of the cache at small caches.
use go_modulith_template.Prelude.{
  ◌≡◌, ◌+◌, ◌&&◌, ltb, true, false, [], ◌∷◌, Bytes, ◌==◌, eq_bytes, if◌then◌else◌, codes,
}
use go_modulith_template.Cache.Memory.{MemoryCache, get, set, ok, err, not_found}
use go_modulith_template.Cache.Memory.Reads.{get-set}

abbrev user : Bytes
user = codes "user:1"

abbrev filled : MemoryCache
filled = record {
  items =
      (user, record { value = codes "a"; expires_at = 50; has_expiry = true })
      ∷ (codes "job:1", record { value = codes "b"; expires_at = 0; has_expiry = false })
      ∷ [];
  stopped = false;
}

get-set_example : get 16 (set 5 filled user (codes "c") 10) user ≡ (
    if user == user
    then (if ltb 0 10 && ltb (5 + 10) 16 then err not_found else ok (codes "c"))
    else get 16 filled user)
get-set_example = get-set 5 16 filled user user (codes "c") 10
