-- ===== src/Pac/Cache.antt =====
-- internal/pac/cache.go: `resultCache`, a bounded cache with a lifetime, a generation and
-- least-recently-used eviction. `items` maps a key to a list element, which is a pointer in the
-- source and an identity `id` here; `order` is the linked list, most recently used first.
-- Times and durations are nanoseconds; the clock's reading is an argument `now`.
pub mod Order
pub mod Invariant
pub mod Eviction
pub mod Reads
pub mod Refinement
pub mod Recency
use px_go.Prelude.{
  ℕ, zero, suc, ◌+◌, ◌*◌, ◌%◌, ◌^◌, Bool, true, false, not, ◌||◌, List, [], ◌∷◌, ◌++◌, Option, none,
  some, ltb, leb, ◌==◌, if◌then◌else◌, length,
}
use px_go.Strings.{Bytes}
use px_go.Dict.{lookup, insert, delete}

abbrev pub default_cache_ttl : ℕ
default_cache_ttl = 30 * 1_000_000_000

abbrev pub default_cache_cap : ℕ
default_cache_cap = 4096

pub record CacheEntry : Type 0 where
  pub key : Bytes
  pub result : Bytes
  pub expires : ℕ
  pub gen : ℕ  -- uint64

-- `list.Element`; the identity stands for its address.
pub record Element : Type 0 where
  pub id : ℕ
  pub value : CacheEntry

pub record ResultCache : Type 0 where
  pub ttl : ℕ
  pub cap : ℕ
  pub gen : ℕ  -- uint64
  pub items : List (Bytes × ℕ)
  pub order : List Element
  -- The next address that is not in use.
  pub next_id : ℕ

-- The source's tests are `ttl <= 0` and `cap <= 0`; a number at most 0 is 0 here.
unfoldable pub new_result_cache : ℕ → ℕ → ResultCache
new_result_cache ttl cap = record {
  ttl = if ttl == 0 then default_cache_ttl else ttl;
  cap = if cap == 0 then default_cache_cap else cap;
  gen = 0;
  items = [];
  order = [];
  next_id = 0;
}

unfoldable pub cache_key : Bytes → Bytes → Bytes
cache_key raw_url host = raw_url ++ (0 ∷ host)

-- `el.Value`
unfoldable pub value_at : ℕ → List Element → Option CacheEntry
value_at i [] = none
value_at i (e ∷ o) = if e.id == i then some e.value else value_at i o

-- `order.Remove(el)`
unfoldable pub unlink : ℕ → List Element → List Element
unlink i [] = []
unlink i (e ∷ o) = if e.id == i then o else e ∷ unlink i o

-- A write through the entry pointer `el.Value`.
unfoldable pub modify : ℕ → (CacheEntry → CacheEntry) → List Element → List Element
modify i f [] = []
modify i f (e ∷ o) = if e.id == i then record e { value = f e.value } ∷ o else e ∷ modify i f o

-- `order.MoveToFront(el)`
unfoldable pub move_to_front : ℕ → List Element → List Element
unfolding value_at unlink
move_to_front i o = elim (value_at i o) [
  | none ↦ o
  | some v ↦ record { id = i; value = v } ∷ unlink i o
]

-- `order.Back()`
unfoldable pub back : List Element → Option Element
back [] = none
back (e ∷ []) = some e
back (e ∷ f ∷ o) = back (f ∷ o)

unfoldable pub remove_element : ResultCache → ℕ → ResultCache
unfolding value_at unlink
remove_element c el = elim (value_at el c.order) [
  | none ↦ c
  | some ent ↦ record c { items = delete ent.key c.items; order = unlink el c.order }
]

-- The rest of `get` once the element is found. The first case is a dangling pointer.
get_found : ResultCache → ℕ → ℕ → Option CacheEntry → ResultCache × Option Bytes
unfolding remove_element move_to_front
get_found c now el none = (c, none)
get_found c now el (some ent) =
    if not (ent.gen == c.gen) || ltb ent.expires now
    then (remove_element c el, none)
    else (record c { order = move_to_front el c.order }, some ent.result)

unfoldable pub get : ResultCache → ℕ → Bytes → ResultCache × Option Bytes
unfolding get_found value_at
get c now key = elim (lookup key c.items) [
  | none ↦ (c, none)
  | some el ↦ get_found c now el (value_at el c.order)
]

unfoldable pub generation : ResultCache → ℕ
generation c = c.gen

-- `removeElement(order.Back())`, which does nothing at `nil`
pub remove_back : ResultCache → ResultCache
unfolding remove_element back
remove_back c = elim (back c.order) [ none ↦ c | some e ↦ remove_element c e.id ]

-- `for order.Len() >= cap`, on fuel
pub evict : ℕ → ResultCache → ResultCache
unfolding remove_back
evict zero c = c
evict (suc n) c =
    let rest = evict n (remove_back c) in if leb c.cap (length c.order) then rest else c

-- `items[key] = order.PushFront(ent)`
pub push_front : ResultCache → CacheEntry → ResultCache
push_front c ent = record c {
  items = insert ent.key c.next_id c.items;
  order = record { id = c.next_id; value = ent } ∷ c.order;
  next_id = c.next_id + 1;
}

unfoldable pub put_locked : ResultCache → ℕ → Bytes → Bytes → ℕ → ResultCache
unfolding move_to_front modify evict push_front
put_locked c now key result gen = elim (lookup key c.items) [
  | some el ↦
      let write =
        λ (ent : CacheEntry). record ent { result = result; expires = now + c.ttl; gen = gen } in
      record c { order = move_to_front el (modify el write c.order) }
  | none ↦
      push_front (evict (length c.order) c)
        (record { key = key; result = result; expires = now + c.ttl; gen = gen })
]

unfoldable pub put : ResultCache → ℕ → Bytes → Bytes → ResultCache
unfolding put_locked
put c now key result = put_locked c now key result c.gen

unfoldable pub put_if_gen : ResultCache → ℕ → Bytes → Bytes → ℕ → ResultCache
unfolding put_locked
put_if_gen c now key result gen = if not (gen == c.gen) then c else put_locked c now key result gen

unfoldable pub invalidate : ResultCache → ResultCache
invalidate c = record c { gen = (c.gen + 1) % 2 ^ 64; items = []; order = [] }
