-- ===== src/Pac/Cache/Refinement.antt =====
-- The cache of internal/pac/cache.go against a memory that never evicts: whatever a `get` returns
-- after any calls is what the memory would return.
use px_go.Prelude.{
  ℕ, ◌+◌, ◌%◌, ◌^◌, ◌≡◌, ◌≢◌, inl, inr, refl, ap, ◌∙◌, List, [], ◌∷◌, Option, none, some, arith,
  ltb, ◌==◌, if◌then◌else◌, Bool-cases,
}
use mathlib.Core.Path.{subst}
use px_go.Dict.{lookup}
use px_go.Strings.{Bytes, equal}
use px_go.Strings.Laws.{equal_iff}
use px_go.Pac.Cache.{
  Element, ResultCache, new_result_cache, get, put_locked, put, put_if_gen, invalidate,
}
use px_go.Pac.Cache.Order.{find}
use px_go.Pac.Cache.Invariant.{IsLinked, get-IsLinked, invalidate-IsLinked, new-IsLinked}
use px_go.Pac.Cache.Eviction.{put_locked-IsLinked}
use px_go.Pac.Cache.Reads.{
  find-put_locked_self, find-put_locked_ne, find-get, get_hit, get-gen, put_locked-gen,
}

-- The calls that the evaluator makes, each with the clock's reading.
pub data Call : Type 0 where
  get_call : ℕ → Bytes → Call
  put_call : ℕ → Bytes → Bytes → Call
  put_if_gen_call : ℕ → Bytes → Bytes → ℕ → Call
  invalidate_call : Call

unfoldable pub step : Call → ResultCache → ResultCache
unfolding put put_if_gen invalidate
step (get_call now k) c = (get c now k).0
step (put_call now k r) c = put c now k r
step (put_if_gen_call now k r g) c = put_if_gen c now k r g
step invalidate_call c = invalidate c

unfoldable pub run : List Call → ResultCache → ResultCache
unfolding step
run [] c = c
run (x ∷ xs) c = run xs (step x c)

-- For each key the last result stored since the last invalidation, with the end of its life.
pub record Memory : Type 0 where
  pub gen : ℕ
  pub table : Bytes → Option (Bytes × ℕ)

abbrev pub store : Memory → Bytes → Bytes → ℕ → Memory
store m k r x = record m { table = λ j. if equal k j then some (r, x) else m.table j }

unfoldable pub note : ℕ → Call → Memory → Memory
note ttl (get_call now k) m = m
note ttl (put_call now k r) m = store m k r (now + ttl)
note ttl (put_if_gen_call now k r g) m = if g == m.gen then store m k r (now + ttl) else m
note ttl invalidate_call m = record { gen = (m.gen + 1) % 2 ^ 64; table = λ j. none }

unfoldable pub note_all : ℕ → List Call → Memory → Memory
unfolding note
note_all ttl [] m = m
note_all ttl (x ∷ xs) m = note_all ttl xs (note ttl x m)

abbrev pub blank : Memory
blank = record { gen = 0; table = λ j. none }

unfoldable pub recall : Memory → ℕ → Bytes → Option Bytes
recall m now k = elim (m.table k) [ none ↦ none | some (r, x) ↦ if ltb x now then none else some r ]

record Refines (c : ResultCache) (m : Memory) : Type 0 where
  linked : IsLinked c
  same_gen : c.gen ≡ m.gen
  held :
      (k : Bytes) (e : Element)
      → find k c.order ≡ some e
      → (m.table k ≡ some (e.value.result, e.value.expires)) × (e.value.gen ≡ c.gen)

put-Refines :
    (c : ResultCache) (m : Memory) (now : ℕ) (k r : Bytes)
    → Refines c m
    → Refines (put_locked c now k r c.gen) (store m k r (now + c.ttl))
put-Refines c m now k r h = record {
  linked = put_locked-IsLinked c now k r c.gen h.linked;
  same_gen = ground (arith, (put_locked-gen c now k r c.gen h.linked).0, h.same_gen);
  held = λ j e found. elim (Bool-cases (equal k j)) [
    | inl t ↦
        let (e', found', v) = find-put_locked_self c now k r c.gen h.linked in
        ground (arith, (equal_iff k j).0 t, (put_locked-gen c now k r c.gen h.linked).0, v)
    | inr t ↦
        let ne : j ≢ k = λ q. ground (arith, equal_iff k j) in
        let before = find-put_locked_ne c now k r c.gen j e h.linked ne found in
        ground (arith, h.held j e before, (put_locked-gen c now k r c.gen h.linked).0)
  ];
}

put_if_gen-Refines :
    (c : ResultCache) (m : Memory) (now : ℕ) (k r : Bytes) (g : ℕ)
    → Refines c m
    → Refines (put_if_gen c now k r g) (if g == m.gen then store m k r (now + c.ttl) else m)
      × ((put_if_gen c now k r g).ttl ≡ c.ttl)
put_if_gen-Refines c m now k r g h = elim (Bool-cases (g == c.gen)) [
  | inl t ↦
      let put_is : put_if_gen c now k r g ≡ put_locked c now k r c.gen =
        unfold put_if_gen in ground arith in
      let noted : (if g == m.gen then store m k r (now + c.ttl) else m)
          ≡ store m k r (now + c.ttl) =
        ground (arith, h.same_gen) in
      rw (put_is, noted) (put-Refines c m now k r h, (put_locked-gen c now k r c.gen h.linked).1)
  | inr t ↦
      let put_is : put_if_gen c now k r g ≡ c = unfold put_if_gen in ground arith in
      let noted : (if g == m.gen then store m k r (now + c.ttl) else m) ≡ m =
        ground (arith, h.same_gen) in
      rw (put_is, noted) (h, refl)
]

invalidate-Refines :
    (c : ResultCache) (m : Memory)
    → Refines c m
    → Refines (invalidate c) (record { gen = (m.gen + 1) % 2 ^ 64; table = λ j. none })
unfolding invalidate find lookup
invalidate-Refines c m h = record {
  linked = invalidate-IsLinked c h.linked;
  same_gen = ap (λ (g : ℕ). (g + 1) % 2 ^ 64) h.same_gen;
  held = λ j e found. absurd (cc found);
}

-- Every call keeps the cache below the memory, and the lifetime as it was.
step-Refines :
    (x : Call) (c : ResultCache) (m : Memory)
    → Refines c m
    → Refines (step x c) (note c.ttl x m) × ((step x c).ttl ≡ c.ttl)
unfolding step note
step-Refines (get_call now k) c m h = (
  record {
    linked = get-IsLinked c now k h.linked;
    same_gen = (get-gen c now k h.linked).0 ∙ h.same_gen;
    held = λ j e found.
        ground
          (arith, h.held j e (find-get c now k j e h.linked found), (get-gen c now k h.linked).0);
  },
  (get-gen c now k h.linked).1,
)
step-Refines (put_call now k r) c m h =
    (put-Refines c m now k r h, (put_locked-gen c now k r c.gen h.linked).1)
step-Refines (put_if_gen_call now k r g) c m h = put_if_gen-Refines c m now k r g h
step-Refines invalidate_call c m h = (invalidate-Refines c m h, refl)

run-Refines :
    (xs : List Call) (c : ResultCache) (m : Memory)
    → Refines c m
    → Refines (run xs c) (note_all c.ttl xs m)
unfolding run note_all
run-Refines [] c m h = h
run-Refines (x ∷ xs) c m h =
    let (next, same) = step-Refines x c m h in
    subst (λ t. Refines (run xs (step x c)) (note_all t xs (note c.ttl x m))) same
      (run-Refines xs (step x c) (note c.ttl x m) next)

new-Refines : (ttl limit : ℕ) → Refines (new_result_cache ttl limit) blank
unfolding new_result_cache find lookup
new-Refines ttl limit = record {
  linked = new-IsLinked ttl limit;
  same_gen = refl;
  held = λ j e found. absurd (cc found);
}

-- After any calls from `newResultCache` the map and the linked list agree: every key of the map
-- leads to the list element that holds it, no key stands twice, and there are at most `cap`
-- elements.
pub run-IsLinked : (ttl limit : ℕ) (xs : List Call) → IsLinked (run xs (new_result_cache ttl limit))
run-IsLinked ttl limit xs = (run-Refines xs _ _ (new-Refines ttl limit)).linked

-- After any calls from `newResultCache`, a result that `get` returns is the one last stored under
-- the key since the last invalidation by a `put` or by a `putIfGen` of the generation then
-- current, and its life is not over.
pub run-get_sound :
    (ttl limit : ℕ) (xs : List Call) (now : ℕ) (k r : Bytes)
    → let c = new_result_cache ttl limit in
      (get (run xs c) now k).1 ≡ some r → recall (note_all c.ttl xs blank) now k ≡ some r
unfolding recall
run-get_sound ttl limit xs now k r hit =
    let h = run-Refines xs _ _ (new-Refines ttl limit) in
    let (e, found, live, same) = get_hit _ now k r h.linked hit in ground (arith, h.held k e found)
