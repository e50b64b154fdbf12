-- ===== src/Cache/Memory.antt =====
-- internal/cache/memory.go. The map of pointers to items is an association list of items: no
-- other pointer to an item is kept, so a write through one is a write of the entry. The lock makes
-- each operation atomic. Times and `ttl` are nanoseconds, and each call of `time.Now()` is an
-- argument; a negative `ttl` acts as 0 does. Values are copied in and out, as lists are.
pub mod Invariant
pub mod Reads
use go_modulith_template.Prelude.{
  ℕ, ◌+◌, ◌≡◌, Bool, true, false, not, ◌&&◌, Option, none, some, List, [], ◌∷◌, Bytes, ltb, leb,
  ◌==◌, eq_bytes, if◌then◌else◌, length, take, lookup, insert, delete_key, delete_where, ℤ, pos,
  negsuc, succ_int64, pred_int64,
}

pub record Item : Type 0 where
  pub value : Bytes
  pub expires_at : ℕ
  pub has_expiry : Bool

abbrev pub is_expired : ℕ → Item → Bool
is_expired now i = if not i.has_expiry then false else ltb i.expires_at now

-- `stopped` says that `stopCh` is closed; `stopOnce` lets it be closed once.
pub record MemoryCache : Type 0 where
  pub items : List (Bytes × Item)
  pub stopped : Bool

pub data CacheError : Type 0 where
  not_found parse_failed : CacheError

pub data Result {ℓ} (A : Type ℓ) : Type ℓ where
  ok : A → Result A
  err : CacheError → Result A

unfoldable pub new_memory_cache : MemoryCache
new_memory_cache = record { items = []; stopped = false }

-- `i, ok := mc.items[key]` followed by the tests of `ok` and `i.isExpired()`.
abbrev pub live : ℕ → Option Item → Option Item
live now none = none
live now (some i) = if is_expired now i then none else some i

abbrev pub value_of : Option Item → Result Bytes
value_of none = err not_found
value_of (some i) = ok i.value

unfoldable pub get : ℕ → MemoryCache → Bytes → Result Bytes
get now mc key = value_of (live now (lookup key mc.items))

unfoldable pub exists : ℕ → MemoryCache → Bytes → Bool
exists now mc key = elim (live now (lookup key mc.items)) [ none ↦ false | some _ ↦ true ]

unfoldable pub set : ℕ → MemoryCache → Bytes → Bytes → ℕ → MemoryCache
set now mc key value ttl =
    let i : Item =
      if ltb 0 ttl
      then record { value = value; expires_at = now + ttl; has_expiry = true }
      else record { value = value; expires_at = 0; has_expiry = false } in
    record mc { items = insert key i mc.items }

unfoldable pub delete : MemoryCache → Bytes → MemoryCache
delete mc key = record mc { items = delete_key key mc.items }

delete_keys : List Bytes → List (Bytes × Item) → List (Bytes × Item)
delete_keys [] items = items
delete_keys (key ∷ keys) items = delete_keys keys (delete_key key items)

unfoldable pub delete_many : MemoryCache → List Bytes → MemoryCache
unfolding delete_keys
delete_many mc keys = record mc { items = delete_keys keys mc.items }

abbrev pub has_prefix : Bytes → Bytes → Bool
has_prefix prefix key =
    if leb (length prefix) (length key) then take (length prefix) key == prefix else false

unfoldable pub delete_by_prefix : MemoryCache → Bytes → MemoryCache
delete_by_prefix mc prefix = record mc {
  items = delete_where (λ key _. has_prefix prefix key) mc.items;
}

-- `fmt.Appendf(nil, "%d", v)`, and `fmt.Sscanf(s, "%d", &v)` with `none` for its error.
pub record Decimal : Type 0 where
  pub print : ℤ → Bytes
  pub scan : Bytes → Option ℤ

-- The common body of `Increment` and `Decrement`: `first` is the value of a new entry.
abbrev pub counted :
    Decimal → ℤ → (ℤ → ℤ) → MemoryCache → Bytes → Option Item → MemoryCache × Result ℤ
counted d first step mc key none = (
  record mc {
    items =
        insert key (record { value = d.print first; expires_at = 0; has_expiry = false }) mc.items;
  },
  ok first,
)
counted d first step mc key (some i) = elim (d.scan i.value) [
  | none ↦ (mc, err parse_failed)
  | some v ↦ (
    record mc { items = insert key (record i { value = d.print (step v) }) mc.items },
    ok (step v),
  )
]

unfoldable pub increment : Decimal → ℕ → MemoryCache → Bytes → MemoryCache × Result ℤ
increment d now mc key = counted d (pos 1) succ_int64 mc key (live now (lookup key mc.items))

unfoldable pub decrement : Decimal → ℕ → MemoryCache → Bytes → MemoryCache × Result ℤ
decrement d now mc key = counted d (negsuc 0) pred_int64 mc key (live now (lookup key mc.items))

-- `now` is read by `isExpired`, `later` for the new deadline.
unfoldable pub expire : ℕ → ℕ → MemoryCache → Bytes → ℕ → MemoryCache × Option CacheError
expire now later mc key ttl = elim (live now (lookup key mc.items)) [
  | none ↦ (mc, some not_found)
  | some i ↦
      let i' : Item =
        if ltb 0 ttl
        then record i { expires_at = later + ttl; has_expiry = true }
        else record i { has_expiry = false } in
      (record mc { items = insert key i' mc.items }, none)
]

unfoldable pub close : MemoryCache → MemoryCache
close mc = record { items = []; stopped = true }

unfoldable pub len : MemoryCache → ℕ
len mc = length mc.items

-- `clock key` is the time at which the item of `key` is visited.
unfoldable pub delete_expired : (Bytes → ℕ) → MemoryCache → MemoryCache
delete_expired clock mc = record mc {
  items = delete_where (λ key i. is_expired (clock key) i) mc.items;
}

-- A tick of the goroutine `cleanup`, which has returned once `stopCh` is closed and seen.
unfoldable pub cleanup_tick : (Bytes → ℕ) → MemoryCache → MemoryCache
unfolding delete_expired
cleanup_tick clock mc = if mc.stopped then mc else delete_expired clock mc
