-- ===== src/Pac/Cache/Eviction.antt =====
-- Eviction and insertion in internal/pac/cache.go: what `putLocked` computes on a linked cache.
use px_go.Prelude.{
  ℕ, zero, suc, ◌+◌, ◌<◌, ◌≤◌, ◌≡◌, inl, inr, refl, none, some, arith, ltb, length, Bool-cases,
  Option-cases,
}
use px_go.Strings.{Bytes}
use px_go.Strings.Laws.{equal_iff}
use px_go.Dict.{lookup-insert}
use px_go.Pac.Cache.{
  CacheEntry, Element, ResultCache, back, remove_back, evict, push_front, put_locked,
}
use px_go.Pac.Cache.Order.{
  find, find-key, find-unlink, IsFresh-suc, apart_of_absent, length-unlink, move_to_front-modify,
  find-back,
}
use px_go.Pac.Cache.Invariant.{
  IsLinked, dropped, fronted, remove_element-dropped, dropped-IsLinked, fronted-IsLinked,
}

-- The cache after `for order.Len() >= cap` makes room for one element: at most the element at
-- the back is gone.
pub data MakesRoom (c : ResultCache) : ResultCache → Type 0 where
  already : {d : ResultCache} → d ≡ c → length c.order < c.cap → MakesRoom c d
  evicted :
      {d : ResultCache} (e : Element)
      → length c.order ≡ c.cap
      → back c.order ≡ some e
      → find e.value.key c.order ≡ some e
      → d ≡ dropped c e.value.key e
      → MakesRoom c d

evict_small : (n : ℕ) (c : ResultCache) → length c.order < c.cap → evict n c ≡ c
unfolding evict
evict_small zero c h = refl
evict_small (suc n) c h = ground arith

remove_back-dropped :
    (c : ResultCache) (e : Element)
    → IsLinked c
    → back c.order ≡ some e
    → find e.value.key c.order ≡ some e
    → remove_back c ≡ dropped c e.value.key e
unfolding remove_back
remove_back-dropped c e l last found =
    rw (last, remove_back) (remove_element-dropped c e.value.key e l found)

evict_full :
    (n : ℕ) (c : ResultCache) (e : Element)
    → IsLinked c
    → length c.order ≡ c.cap
    → c.cap ≤ n
    → back c.order ≡ some e
    → find e.value.key c.order ≡ some e
    → evict n c ≡ dropped c e.value.key e
unfolding evict
evict_full zero c e l full n last found = absurd (omega (arith, l.positive))
evict_full (suc n) c e l full m last found =
    let next = dropped c e.value.key e in
    ground (
      arith,
      remove_back-dropped c e l last found,
      evict_small n next (omega (arith, length-unlink e.value.key c.order e found)),
    )

pub evict-MakesRoom : (c : ResultCache) → IsLinked c → MakesRoom c (evict (length c.order) c)
evict-MakesRoom c l = elim (Bool-cases (ltb (length c.order) c.cap)) [
  | inl t ↦ already (evict_small _ c (ground arith)) (ground arith)
  | inr t ↦
      let full : length c.order ≡ c.cap = ground (arith, l.bounded) in
      let (e, last, found) = find-back c.order (omega (arith, l.positive)) l.distinct in
      evicted e full last found (evict_full _ c e l full (omega arith) last found)
]

-- A cache with room takes a new key at the front.
push_front-IsLinked :
    (c : ResultCache) (v : CacheEntry)
    → IsLinked c
    → find v.key c.order ≡ none
    → length c.order < c.cap
    → IsLinked (push_front c v)
unfolding push_front find
push_front-IsLinked c v l h room = record {
  positive = l.positive;
  bounded = omega arith;
  distinct = (apart_of_absent v.key c.next_id c.order l.fresh h, l.distinct);
  fresh = (omega arith, IsFresh-suc c.next_id c.order l.fresh);
  indexed =
      λ j. ground (arith, l.indexed j, equal_iff v.key j, lookup-insert v.key j c.next_id c.items);
}

pub room-IsLinked :
    (c d : ResultCache) → IsLinked c → MakesRoom c d → IsLinked d × (length d.order < d.cap)
room-IsLinked c d l (already e h) = rw e (l, h)
room-IsLinked c d l (evicted e full last found p) = rw p (
  dropped-IsLinked c e.value.key e l found,
  omega (arith, length-unlink e.value.key c.order e found, l.positive),
)

find-room :
    (c d : ResultCache) (k : Bytes)
    → IsLinked c
    → MakesRoom c d
    → find k c.order ≡ none
    → find k d.order ≡ none
find-room c d k l (already e h) miss = rw e miss
find-room c d k l (evicted e full last found p) miss =
    rw p (ground (arith, find-unlink e.value.key k c.order e l.distinct found))

-- What `putLocked` writes.
abbrev pub entry_of : ResultCache → ℕ → Bytes → Bytes → ℕ → CacheEntry
entry_of c now k r g = record { key = k; result = r; expires = now + c.ttl; gen = g }

pub put_locked_present :
    (c : ResultCache) (now : ℕ) (k r : Bytes) (g : ℕ) (e : Element)
    → IsLinked c
    → find k c.order ≡ some e
    → put_locked c now k r g ≡ fronted c e (entry_of c now k r g)
unfolding put_locked
put_locked_present c now k r g e l h =
    let write = λ (v : CacheEntry). record v { result = r; expires = now + c.ttl; gen = g } in
    ground (
      arith,
      l.indexed k,
      find-key k c.order e h,
      move_to_front-modify k write c.order e l.distinct h,
    )

pub put_locked_absent :
    (c : ResultCache) (now : ℕ) (k r : Bytes) (g : ℕ)
    → IsLinked c
    → find k c.order ≡ none
    → put_locked c now k r g ≡ push_front (evict (length c.order) c) (entry_of c now k r g)
unfolding put_locked
put_locked_absent c now k r g l h = ground (arith, l.indexed k)

pub put_locked-IsLinked :
    (c : ResultCache) (now : ℕ) (k r : Bytes) (g : ℕ)
    → IsLinked c
    → IsLinked (put_locked c now k r g)
put_locked-IsLinked c now k r g l = elim (Option-cases (find k c.order)) [
  | inr (e, h) ↦
      rw (put_locked_present c now k r g e l h)
        (fronted-IsLinked c k e (entry_of c now k r g) l h refl)
  | inl h ↦
      let d = evict (length c.order) c in
      let room = evict-MakesRoom c l in
      let (linked, free) = room-IsLinked c d l room in
      rw (put_locked_absent c now k r g l h)
        (push_front-IsLinked d (entry_of c now k r g) linked (find-room c d k l room h) free)
]
