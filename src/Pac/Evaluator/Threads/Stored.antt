-- ===== src/Pac/Evaluator/Threads/Stored.antt =====
-- The results that the cache of internal/pac/pac.go holds come from the script loaded last.
use px_go.Prelude.{
  ℕ, ◌+◌, ◌^◌, ◌<◌, ◌≡◌, ◌≢◌, refl, ◌∙◌, inl, inr, [], ◌∷◌, Option, some, arith, ◌==◌, ==_iff,
  Bool-cases,
}
use px_go.Strings.{Bytes, equal}
use px_go.Strings.Laws.{equal_iff}
use px_go.Pac.Result.{normalize_proxy_result}
use px_go.Pac.Cache.{Element, ResultCache, cache_key, get, put_locked, put_if_gen, invalidate}
use px_go.Pac.Cache.Order.{find}
use px_go.Pac.Cache.Invariant.{IsLinked, get-IsLinked, invalidate-IsLinked}
use px_go.Pac.Cache.Eviction.{put_locked-IsLinked}
use px_go.Pac.Cache.Reads.{
  find-put_locked_self, find-put_locked_ne, find-get, get-gen, put_locked-gen,
}
use px_go.Pac.Evaluator.{RuntimePool}
use px_go.Pac.Evaluator.Threads.{HasNoNul, Answering}

-- The result is what a run of the script of the pool published last made of the request whose
-- key it is stored under.
pub record Explains (Answers : Answering) (last : Option RuntimePool) (k r : Bytes) : Type 0 where
  pub pool : RuntimePool
  pub url : Bytes
  pub host : Bytes
  pub raw : Bytes
  pub is_last : last ≡ some pool
  pub no_nul : HasNoNul url
  pub key_is : k ≡ cache_key url host
  pub answers : Answers pool.script url host raw
  pub result_is : r ≡ normalize_proxy_result raw

-- The NUL byte between URL and host keeps the keys of different requests apart.
pub cache_key-injective :
    (u v g h : Bytes) → HasNoNul u → HasNoNul v → cache_key u g ≡ cache_key v h → (u ≡ v) × (g ≡ h)
unfolding cache_key
cache_key-injective [] [] g h a b e = (refl, ground arith)
cache_key-injective [] (y ∷ v) g h a b e = absurd (ground arith)
cache_key-injective (x ∷ u) [] g h a b e = absurd (ground arith)
cache_key-injective (x ∷ u) (y ∷ v) g h a b e =
    let (tails, hosts) = cache_key-injective u v g h a.1 b.1 (ground arith) in (ground arith, hosts)

pub record CacheIsFresh (Answers : Answering) (last : Option RuntimePool) (loads : ℕ)
    (c : ResultCache) : Type 0 where
  pub linked : IsLinked c
  pub counted : c.gen ≡ loads
  pub explained :
      (k : Bytes) (e : Element) → find k c.order ≡ some e → Explains Answers last k e.value.result

module _ {Answers : Answering} (last : Option RuntimePool) (loads : ℕ) (c : ResultCache)
    (f : CacheIsFresh Answers last loads c) where
  pub get-CacheIsFresh : (now : ℕ) (k : Bytes) → CacheIsFresh Answers last loads (get c now k).0
  get-CacheIsFresh now k = record {
    linked = get-IsLinked c now k f.linked;
    counted = (get-gen c now k f.linked).0 ∙ f.counted;
    explained = λ j e found. f.explained j e (find-get c now k j e f.linked found);
  }

  put_locked-CacheIsFresh :
      (now g : ℕ) (k r : Bytes)
      → Explains Answers last k r
      → CacheIsFresh Answers last loads (put_locked c now k r g)
  put_locked-CacheIsFresh now g k r x = record {
    linked = put_locked-IsLinked c now k r g f.linked;
    counted = (put_locked-gen c now k r g f.linked).0 ∙ f.counted;
    explained = λ j e found. elim (Bool-cases (equal j k)) [
      | inl t ↦
          let same : j ≡ k = (equal_iff j k).0 t in
          let (e', found', v) = find-put_locked_self c now k r g f.linked in
          let result_same : e.value.result ≡ r = ground (arith, same, v) in rw (same, result_same) x
      | inr t ↦
          let ne : j ≢ k = λ q. ground (arith, equal_iff j k) in
          f.explained j e (find-put_locked_ne c now k r g j e f.linked ne found)
    ];
  }

  pub put_if_gen-CacheIsFresh :
      (now g : ℕ) (k r : Bytes)
      → (g ≡ loads → Explains Answers last k r)
      → CacheIsFresh Answers last loads (put_if_gen c now k r g)
  unfolding put_if_gen
  put_if_gen-CacheIsFresh now g k r x = elim (Bool-cases (g == c.gen)) [
    | inl t ↦ rw t (put_locked-CacheIsFresh now g k r (x ((==_iff g c.gen).0 t ∙ f.counted)))
    | inr t ↦ rw t f
  ]

pub invalidate-CacheIsFresh :
    {Answers : Answering} (last : Option RuntimePool) (loads : ℕ) (c : ResultCache)
    → IsLinked c
    → c.gen ≡ loads
    → loads + 1 < 2 ^ 64
    → CacheIsFresh Answers last (loads + 1) (invalidate c)
unfolding invalidate find
invalidate-CacheIsFresh last loads c l e b = record {
  linked = unfold invalidate in invalidate-IsLinked c l;
  counted = omega arith;
  explained = λ k x found. absurd (cc found);
}
