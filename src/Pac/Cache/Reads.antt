-- ===== src/Pac/Cache/Reads.antt =====
-- What can be read from the cache of internal/pac/cache.go after an operation.
use px_go.Prelude.{ℕ, ◌+◌, ◌≤◌, ◌≡◌, ◌≢◌, inl, inr, refl, false, some, arith, length, Option-cases}
use px_go.Strings.{Bytes}
use px_go.Strings.Laws.{equal_iff}
use px_go.Pac.Cache.{Element, ResultCache, evict, push_front, get, put_locked, put}
use px_go.Pac.Cache.Order.{find, find-key, find-unlink}
use px_go.Pac.Cache.Invariant.{IsLinked, is_stale, get_absent, get_present}
use px_go.Pac.Cache.Eviction.{
  MakesRoom, already, evicted, evict-MakesRoom, entry_of, put_locked_present, put_locked_absent,
  put_locked-IsLinked,
}

find-room_ne :
    (c d : ResultCache) (j : Bytes) (x : Element)
    → IsLinked c
    → MakesRoom c d
    → find j d.order ≡ some x
    → find j c.order ≡ some x
find-room_ne c d j x l (already e h) hit = rw e at hit
find-room_ne c d j x l (evicted e full last found p) hit =
    ground (arith, find-unlink e.value.key j c.order e l.distinct found)

room-gen : (c d : ResultCache) → MakesRoom c d → (d.gen ≡ c.gen) × (d.ttl ≡ c.ttl)
room-gen c d (already e h) = rw e (refl, refl)
room-gen c d (evicted e full last found p) = rw p (refl, refl)

pub get-gen :
    (c : ResultCache) (now : ℕ) (k : Bytes)
    → IsLinked c
    → ((get c now k).0.gen ≡ c.gen) × ((get c now k).0.ttl ≡ c.ttl)
get-gen c now k l = elim (Option-cases (find k c.order)) [
  | inl h ↦ rw (get_absent c now k l h) (refl, refl)
  | inr (e, h) ↦ rw (get_present c now k e l h) (ground arith)
]

-- A stored key is found, with what was stored.
pub find-put_locked_self :
    (c : ResultCache) (now : ℕ) (k r : Bytes) (g : ℕ)
    → IsLinked c
    → (e : Element) × (find k (put_locked c now k r g).order ≡ some e)
      × (e.value ≡ entry_of c now k r g)
unfolding find push_front
find-put_locked_self c now k r g l = elim (Option-cases (find k c.order)) [
  | inr (e, h) ↦ (
    record e { value = entry_of c now k r g },
    rw (put_locked_present c now k r g e l h) (ground (arith, equal_iff k k)),
    refl,
  )
  | inl h ↦ (
    record { id = (evict (length c.order) c).next_id; value = entry_of c now k r g },
    rw (put_locked_absent c now k r g l h) (ground (arith, equal_iff k k)),
    refl,
  )
]

-- What is found under another key was there before.
pub find-put_locked_ne :
    (c : ResultCache) (now : ℕ) (k r : Bytes) (g : ℕ) (j : Bytes) (x : Element)
    → IsLinked c
    → j ≢ k
    → find j (put_locked c now k r g).order ≡ some x
    → find j c.order ≡ some x
unfolding find push_front
find-put_locked_ne c now k r g j x l ne hit = elim (Option-cases (find k c.order)) [
  | inr (e, h) ↦
      let same = put_locked_present c now k r g e l h in
      ground (arith, same, equal_iff k j, find-unlink k j c.order e l.distinct h)
  | inl h ↦
      let d = evict (length c.order) c in
      let step = find-room_ne c d j x l (evict-MakesRoom c l) in
      step (ground (arith, put_locked_absent c now k r g l h, equal_iff k j))
]

-- What is found after a `get` was there before.
pub find-get :
    (c : ResultCache) (now : ℕ) (k j : Bytes) (x : Element)
    → IsLinked c
    → find j (get c now k).0.order ≡ some x
    → find j c.order ≡ some x
unfolding find
find-get c now k j x l hit = elim (Option-cases (find k c.order)) [
  | inl h ↦ ground (arith, get_absent c now k l h)
  | inr (e, h) ↦ ground (
    arith,
    get_present c now k e l h,
    find-key k c.order e h,
    equal_iff k j,
    find-unlink k j c.order e l.distinct h,
  )
]

-- A hit is a live entry found under the key.
pub get_hit :
    (c : ResultCache) (now : ℕ) (k : Bytes) (r : Bytes)
    → IsLinked c
    → (get c now k).1 ≡ some r
    → (e : Element) × (find k c.order ≡ some e)
      × (is_stale c now e.value ≡ false)
      × (e.value.result ≡ r)
get_hit c now k r l hit = elim (Option-cases (find k c.order)) [
  | inl h ↦ absurd (ground (arith, get_absent c now k l h))
  | inr (e, h) ↦
      (e, h, ground (arith, get_present c now k e l h), ground (arith, get_present c now k e l h))
]

pub put_locked-gen :
    (c : ResultCache) (now : ℕ) (k r : Bytes) (g : ℕ)
    → IsLinked c
    → ((put_locked c now k r g).gen ≡ c.gen) × ((put_locked c now k r g).ttl ≡ c.ttl)
unfolding push_front
put_locked-gen c now k r g l = elim (Option-cases (find k c.order)) [
  | inr (e, h) ↦ rw (put_locked_present c now k r g e l h) (refl, refl)
  | inl h ↦ rw (put_locked_absent c now k r g l h) (room-gen c _ (evict-MakesRoom c l))
]

-- A result that was stored is returned as long as it lives, whatever the cache held before.
pub get-put :
    (c : ResultCache) (now later : ℕ) (k r : Bytes)
    → IsLinked c
    → later ≤ now + c.ttl
    → (get (put c now k r) later k).1 ≡ some r
unfolding put
get-put c now later k r l h =
    let d = put_locked c now k r c.gen in
    let (e, found, v) = find-put_locked_self c now k r c.gen l in
    ground (
      arith,
      get_present d later k e (put_locked-IsLinked c now k r c.gen l) found,
      (put_locked-gen c now k r c.gen l).0,
      v,
    )
