-- ===== src/Cache/Memory/Reads.antt =====
-- What `Get` returns after each operation.
use go_modulith_template.Prelude.{
  ℕ, ◌+◌, ◌≤◌, ◌≡◌, refl, true, ◌&&◌, none, some, List, [], ◌∷◌, ◌++◌, Bytes, ltb, ◌==◌, eq_bytes,
  if◌then◌else◌, any, lookup, delete_key, arith, lookup-insert, lookup-delete_key,
  lookup-delete_where, Option-cases, inl, inr, Bool-cases, ◌⊎◌,
}
use go_modulith_template.Cache.Memory.Invariant.{IsValid}
use go_modulith_template.Cache.Memory.{
  Item, is_expired, MemoryCache, not_found, ok, err, live, get, set, delete_keys, delete_many,
  has_prefix, delete_by_prefix, expire, delete_expired,
}

-- A `Get` after a `Set` of the same key returns the value up to the deadline `t + ttl`, and for
-- ever if `ttl` is 0; every other key reads as before.
pub get-set :
    (t now : ℕ) (mc : MemoryCache) (key j value : Bytes) (ttl : ℕ)
    → get now (set t mc key value ttl) j ≡ (
        if key == j
        then (if ltb 0 ttl && ltb (t + ttl) now then err not_found else ok value)
        else get now mc j)
unfolding get set
get-set t now mc key j value ttl = rw lookup-insert (ground arith)

lookup-delete_keys :
    (j : Bytes) (keys : List Bytes) (m : List (Bytes × Item))
    → lookup j (delete_keys keys m) ≡ (if any (λ key. key == j) keys then none else lookup j m)
unfolding delete_keys
lookup-delete_keys j [] m = refl
lookup-delete_keys j (key ∷ keys) m =
    rw (lookup-delete_keys j keys (delete_key key m), lookup-delete_key) (ground arith)

-- After `DeleteMany` a key reads as missing exactly if it is one of the given ones; every other
-- key reads as before.
pub get-delete_many :
    (now : ℕ) (mc : MemoryCache) (keys : List Bytes) (j : Bytes)
    → get now (delete_many mc keys) j
      ≡ (if any (λ key. key == j) keys then err not_found else get now mc j)
unfolding get delete_many
get-delete_many now mc keys j = rw lookup-delete_keys (ground arith)

has_prefix_sound : (p key : Bytes) → has_prefix p key ≡ true → (rest : Bytes) × (key ≡ p ++ rest)
has_prefix_sound [] key h = (key, refl)
has_prefix_sound (b ∷ p) [] h = absurd (ground arith)
has_prefix_sound (b ∷ p) (c ∷ key) h =
    let (rest, e) = has_prefix_sound p key (ground arith) in (rest, ground arith)

has_prefix_complete : (p rest : Bytes) → has_prefix p (p ++ rest) ≡ true
has_prefix_complete [] rest = ground arith
has_prefix_complete (b ∷ p) rest = ground (arith, has_prefix_complete p rest)

-- After `DeleteByPrefix` the keys that begin with the prefix read as missing, and every other key
-- reads as before.
pub get-delete_by_prefix :
    (now : ℕ) (mc : MemoryCache) (prefix j : Bytes)
    → IsValid mc
    → ((rest : Bytes) → get now (delete_by_prefix mc prefix) (prefix ++ rest) ≡ err not_found)
      × ((¬ ((rest : Bytes) × (j ≡ prefix ++ rest)))
          → get now (delete_by_prefix mc prefix) j ≡ get now mc j)
unfolding get delete_by_prefix
get-delete_by_prefix now mc prefix j h = (
  λ rest.
      let there = has_prefix_complete prefix rest in
      let found =
        lookup-delete_where (λ key _. has_prefix prefix key) (prefix ++ rest) mc.items h in
      rw found (ground (arith, there)),
  λ other. elim (Bool-cases (has_prefix prefix j)) [
    | inl p ↦ absurd (other (has_prefix_sound prefix j p))
    | inr p ↦
        rw (lookup-delete_where (λ key _. has_prefix prefix key) j mc.items h) (ground (arith, p))
  ],
)

-- The cleanup cannot be observed: at a time that is not before the one at which the item of the key
-- was visited, the key reads as if the cleanup had not run.
pub get-delete_expired :
    (now : ℕ) (clock : Bytes → ℕ) (mc : MemoryCache) (key : Bytes)
    → IsValid mc
    → clock key ≤ now
    → get now (delete_expired clock mc) key ≡ get now mc key
unfolding get delete_expired
get-delete_expired now clock mc key h le =
    rw (lookup-delete_where (λ k i. is_expired (clock k) i) key mc.items h) (ground arith)

expire_missing :
    (t later : ℕ) (mc : MemoryCache) (key : Bytes) (ttl : ℕ)
    → live t (lookup key mc.items) ≡ none
    → expire t later mc key ttl ≡ (mc, some not_found)
unfolding expire
expire_missing t later mc key ttl e = rw (e, expire)

expire-live :
    (t later now : ℕ) (mc : MemoryCache) (key j : Bytes) (ttl : ℕ) (i : Item)
    → live t (lookup key mc.items) ≡ some i
    → ((expire t later mc key ttl).1 ≡ none)
      × (get now (expire t later mc key ttl).0 j ≡ (
          if key == j
          then (if ltb 0 ttl && ltb (later + ttl) now then err not_found else ok i.value)
          else get now mc j))
unfolding expire get
expire-live t later now mc key j ttl i e =
    (rw (e, expire), rw (e, expire) (rw lookup-insert (ground arith)))

-- `Expire` on a key that is live at `t` moves its deadline to `later + ttl`, or takes it away if
-- `ttl` is 0, and every other key reads as before; on any other key it fails and changes nothing.
pub get-expire :
    (t later now : ℕ) (mc : MemoryCache) (key j : Bytes) (ttl : ℕ)
    → let r = expire t later mc key ttl in
      ((get t mc key ≡ err not_found) × (r ≡ (mc, some not_found)))
      ⊎ ((value : Bytes) × (get t mc key ≡ ok value)
          × (r.1 ≡ none)
          × (get now r.0 j ≡ (
              if key == j
              then (if ltb 0 ttl && ltb (later + ttl) now then err not_found else ok value)
              else get now mc j)))
unfolding get
get-expire t later now mc key j ttl = elim (Option-cases (live t (lookup key mc.items))) [
  | inl e ↦ inl (rw e, expire_missing t later mc key ttl e)
  | inr (i, e) ↦
      let (done, reads) = expire-live t later now mc key j ttl i e in
      inr (i.value, rw e, done, reads)
]
