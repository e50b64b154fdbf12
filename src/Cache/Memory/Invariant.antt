-- ===== src/Cache/Memory/Invariant.antt =====
-- Each operation of the cache keeps its keys distinct.
use go_modulith_template.Prelude.{
  ℕ, Option, none, some, List, [], ◌∷◌, Bytes, eq_bytes, lookup, delete_key, IsMap, IsMap-insert,
  IsMap-delete_key, IsMap-delete_where, Option-cases, inl, inr, Bool-cases, ℤ,
}
use go_modulith_template.Cache.Memory.{
  Item, MemoryCache, live, set, delete, delete_keys, delete_many, delete_by_prefix, expire, close,
  cleanup_tick, Decimal, increment, decrement, counted,
}

abbrev pub IsValid : MemoryCache → Type 0
IsValid mc = IsMap mc.items

-- The operations that change the cache, the tick of the cleanup among them.
pub data Op : Type 0 where
  op_set : ℕ → Bytes → Bytes → ℕ → Op
  op_delete : Bytes → Op
  op_delete_many : List Bytes → Op
  op_delete_by_prefix : Bytes → Op
  op_increment op_decrement : ℕ → Bytes → Op
  op_expire : ℕ → ℕ → Bytes → ℕ → Op
  op_close : Op
  op_cleanup : (Bytes → ℕ) → Op

unfoldable apply : Decimal → Op → MemoryCache → MemoryCache
apply d (op_set now key value ttl) mc = set now mc key value ttl
apply d (op_delete key) mc = delete mc key
apply d (op_delete_many keys) mc = delete_many mc keys
apply d (op_delete_by_prefix prefix) mc = delete_by_prefix mc prefix
apply d (op_increment now key) mc = (increment d now mc key).0
apply d (op_decrement now key) mc = (decrement d now mc key).0
apply d (op_expire now later key ttl) mc = (expire now later mc key ttl).0
apply d op_close mc = close mc
apply d (op_cleanup clock) mc = cleanup_tick clock mc

IsMap-delete_keys :
    (keys : List Bytes) (m : List (Bytes × Item)) → IsMap m → IsMap (delete_keys keys m)
unfolding delete_keys
IsMap-delete_keys [] m h = h
IsMap-delete_keys (key ∷ keys) m h =
    IsMap-delete_keys keys (delete_key key m) (IsMap-delete_key key m h)

counted-IsValid :
    (d : Decimal) (first : ℤ) (step : ℤ → ℤ) (mc : MemoryCache) (key : Bytes) (o : Option Item)
    → IsValid mc
    → IsValid (counted d first step mc key o).0
counted-IsValid d first step mc key none h = IsMap-insert key _ mc.items h
counted-IsValid d first step mc key (some i) h = elim (Option-cases (d.scan i.value)) [
  | inl e ↦ rw (e, counted) h
  | inr (v, e) ↦ rw (e, counted) (IsMap-insert key _ mc.items h)
]

expire-IsValid :
    (now later : ℕ) (mc : MemoryCache) (key : Bytes) (ttl : ℕ)
    → IsValid mc
    → IsValid (expire now later mc key ttl).0
unfolding expire
expire-IsValid now later mc key ttl h = elim (Option-cases (live now (lookup key mc.items))) [
  | inl e ↦ rw (e, expire) h
  | inr (i, e) ↦ rw (e, expire) (IsMap-insert key _ mc.items h)
]

cleanup_tick-IsValid :
    (clock : Bytes → ℕ) (mc : MemoryCache) → IsValid mc → IsValid (cleanup_tick clock mc)
unfolding cleanup_tick
cleanup_tick-IsValid clock mc h = elim (Bool-cases mc.stopped) [
  | inl e ↦ rw (e, cleanup_tick) h
  | inr e ↦ rw (e, cleanup_tick) (IsMap-delete_where _ mc.items h)
]

-- Every operation keeps the keys distinct.
apply-IsValid : (d : Decimal) (op : Op) (mc : MemoryCache) → IsValid mc → IsValid (apply d op mc)
unfolding apply set delete delete_many delete_by_prefix increment decrement close
apply-IsValid d (op_set now key value ttl) mc h = IsMap-insert key _ mc.items h
apply-IsValid d (op_delete key) mc h = IsMap-delete_key key mc.items h
apply-IsValid d (op_delete_many keys) mc h = IsMap-delete_keys keys mc.items h
apply-IsValid d (op_delete_by_prefix prefix) mc h = IsMap-delete_where _ mc.items h
apply-IsValid d (op_increment now key) mc h = counted-IsValid d _ _ mc key _ h
apply-IsValid d (op_decrement now key) mc h = counted-IsValid d _ _ mc key _ h
apply-IsValid d (op_expire now later key ttl) mc h = expire-IsValid now later mc key ttl h
apply-IsValid d op_close mc h = tt
apply-IsValid d (op_cleanup clock) mc h = cleanup_tick-IsValid clock mc h
