-- ===== src/Pac/Cache/Invariant.antt =====
-- The invariant that ties the map of internal/pac/cache.go to its linked list, and what each
-- operation computes on a cache that satisfies it.
use px_go.Prelude.{
  refl, ℕ, ◌<◌, ◌≤◌, ◌≡◌, inl, inr, Bool, not, ◌||◌, ◌∷◌, Option, none, some, arith, ◌==◌, ltb,
  if◌then◌else◌, length, Bool-cases, Option-cases,
}
use px_go.Strings.{Bytes}
use px_go.Strings.Laws.{equal_iff}
use px_go.Dict.{lookup, delete, lookup-delete}
use px_go.Pac.Cache.{
  CacheEntry, Element, ResultCache, unlink, remove_element, get, invalidate, new_result_cache,
}
use px_go.Pac.Cache.Order.{
  find, IsDistinct, IsFresh, All-find, find-key, value_at-find, All-unlink, unlink-IsDistinct,
  find-unlink, length-unlink, unlink-apart,
}

abbrev pub id_of : Option Element → Option ℕ
id_of none = none
id_of (some e) = some e.id

-- The map holds exactly the addresses of the list's elements under their keys, no key and no
-- address stands twice, and the list is not longer than the capacity.
pub record IsLinked (c : ResultCache) : Type 0 where
  pub positive : 0 < c.cap
  pub bounded : length c.order ≤ c.cap
  pub distinct : IsDistinct c.order
  pub fresh : IsFresh c.next_id c.order
  pub indexed : (k : Bytes) → lookup k c.items ≡ id_of (find k c.order)

abbrev pub dropped : ResultCache → Bytes → Element → ResultCache
dropped c k e = record c { items = delete k c.items; order = unlink e.id c.order }

-- The element moved to the front, with its entry rewritten.
abbrev pub fronted : ResultCache → Element → CacheEntry → ResultCache
fronted c e v = record c { order = record e { value = v } ∷ unlink e.id c.order }

pub remove_element-dropped :
    (c : ResultCache) (k : Bytes) (e : Element)
    → IsLinked c
    → find k c.order ≡ some e
    → remove_element c e.id ≡ dropped c k e
unfolding remove_element
remove_element-dropped c k e l h =
    ground (arith, value_at-find k c.order e l.distinct h, find-key k c.order e h)

pub dropped-IsLinked :
    (c : ResultCache) (k : Bytes) (e : Element)
    → IsLinked c
    → find k c.order ≡ some e
    → IsLinked (dropped c k e)
dropped-IsLinked c k e l h = record {
  positive = l.positive;
  bounded = omega (arith, length-unlink k c.order e h, l.bounded);
  distinct = unlink-IsDistinct e.id c.order l.distinct;
  fresh = All-unlink _ e.id c.order l.fresh;
  indexed = λ j.
      ground
        (arith, l.indexed j, lookup-delete k j c.items, find-unlink k j c.order e l.distinct h);
}

pub fronted-IsLinked :
    (c : ResultCache) (k : Bytes) (e : Element) (v : CacheEntry)
    → IsLinked c
    → find k c.order ≡ some e
    → v.key ≡ k
    → IsLinked (fronted c e v)
unfolding find
fronted-IsLinked c k e v l h same = record {
  positive = l.positive;
  bounded = omega (arith, length-unlink k c.order e h, l.bounded);
  distinct =
      (rw same (unlink-apart k c.order e l.distinct h), unlink-IsDistinct e.id c.order l.distinct);
  fresh =
      (All-find (λ g. g.id < c.next_id) k c.order e l.fresh h, All-unlink _ e.id c.order l.fresh);
  indexed =
      λ j. ground (arith, l.indexed j, same, equal_iff k j, find-unlink k j c.order e l.distinct h);
}

-- Stale: of another generation, or past its lifetime.
abbrev pub is_stale : ResultCache → ℕ → CacheEntry → Bool
is_stale c now v = not (v.gen == c.gen) || ltb v.expires now

pub get_absent :
    (c : ResultCache) (now : ℕ) (k : Bytes)
    → IsLinked c
    → find k c.order ≡ none
    → get c now k ≡ (c, none)
unfolding get
get_absent c now k l h = ground (arith, l.indexed k)

pub get_present :
    (c : ResultCache) (now : ℕ) (k : Bytes) (e : Element)
    → IsLinked c
    → find k c.order ≡ some e
    → get c now k ≡ (
        if is_stale c now e.value
        then (dropped c k e, none)
        else (fronted c e e.value, some e.value.result))
unfolding get
get_present c now k e l h =
    ground
      (arith, l.indexed k, value_at-find k c.order e l.distinct h, remove_element-dropped c k e l h)

-- `get` keeps the invariant.
pub get-IsLinked : (c : ResultCache) (now : ℕ) (k : Bytes) → IsLinked c → IsLinked (get c now k).0
get-IsLinked c now k l = elim (Option-cases (find k c.order)) [
  | inl h ↦ rw (get_absent c now k l h) l
  | inr (e, h) ↦ elim (Bool-cases (is_stale c now e.value)) [
    | inl t ↦ rw (get_present c now k e l h) (rw t (dropped-IsLinked c k e l h))
    | inr t ↦
        rw (get_present c now k e l h)
          (rw t (fronted-IsLinked c k e e.value l h (find-key k c.order e h)))
  ]
]

pub invalidate-IsLinked : (c : ResultCache) → IsLinked c → IsLinked (invalidate c)
unfolding invalidate find lookup
invalidate-IsLinked c l = record {
  positive = l.positive;
  bounded = omega arith;
  distinct = tt;
  fresh = tt;
  indexed = λ j. refl;
}

pub new-IsLinked : (ttl limit : ℕ) → IsLinked (new_result_cache ttl limit)
unfolding new_result_cache find lookup
new-IsLinked ttl limit = record {
  positive = ground arith;
  bounded = omega arith;
  distinct = tt;
  fresh = tt;
  indexed = λ j. refl;
}
