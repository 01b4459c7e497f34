-- ===== src/Pac/Evaluator/Threads/Freshness.antt =====
-- The answers of internal/pac/pac.go come from the script loaded last: a result computed by a
-- pool that a reload has replaced is never served.
use px_go.Prelude.{
  ℕ, ◌+◌, ◌^◌, ◌<◌, ◌≤◌, ◌≡◌, refl, sym, ◌∙◌, inl, inr, Option, some, arith, ◌==◌, Bool-cases,
}
use px_go.Strings.{Bytes}
use px_go.Pac.Result.{normalize_proxy_result}
use px_go.Pac.Cache.{
  cache_key, invalidate, generation, default_cache_ttl, default_cache_cap, new_result_cache,
}
use px_go.Pac.Cache.Order.{find}
use px_go.Pac.Cache.Invariant.{new-IsLinked}
use px_go.Pac.Cache.Reads.{get_hit}
use px_go.Pac.Evaluator.{
  RuntimePool, Evaluator, new, kick_reload_if_stale, ensure_loaded, swap, finish_load, fail_reload,
  close, look_up, remember,
}
use px_go.Pac.Evaluator.Threads.{
  Local, idle, start, ensuring, fetching, finishing, looking, choosing, running, done, reloading,
  ending, over, System, set, moves, spawns, publishes, HasNoNul, Answering, Step, Reach, initial,
  here, next,
}
use px_go.Pac.Evaluator.Threads.Stored.{
  cache_key-injective, CacheIsFresh, get-CacheIsFresh, put_if_gen-CacheIsFresh,
  invalidate-CacheIsFresh,
}

-- What a thread holds: a pool of an older generation, or the one published last.
abbrev LocalIsFresh : Option RuntimePool → ℕ → Local → Type 0
LocalIsFresh last loads (start u h) = HasNoNul u
LocalIsFresh last loads (ensuring u h) = HasNoNul u
LocalIsFresh last loads (fetching u h) = HasNoNul u
LocalIsFresh last loads (finishing u h) = HasNoNul u
LocalIsFresh last loads (looking u h) = HasNoNul u
LocalIsFresh last loads (choosing u h) = HasNoNul u
LocalIsFresh last loads (running u h p) =
    HasNoNul u × (p.gen ≤ loads) × (p.gen ≡ loads → last ≡ some p)
LocalIsFresh last loads _ = Unit {0}

pub record IsFresh (Answers : Answering) (s : System) : Type 0 where
  pool_last : (p : RuntimePool) → s.shared.pool ≡ some p → s.last ≡ some p
  last_gen : (p : RuntimePool) → s.last ≡ some p → p.gen ≡ s.loads
  cache_fresh : CacheIsFresh Answers s.last s.loads s.shared.cache
  local_fresh : (i : ℕ) → LocalIsFresh s.last s.loads (s.threads i)

set-all :
    (P : Local → Type 0) (f : ℕ → Local) (i : ℕ) (l : Local)
    → ((j : ℕ) → P (f j))
    → P l
    → (j : ℕ) → P (set f i l j)
set-all P f i l all new j = elim (Bool-cases (i == j)) [ inl t ↦ rw t new | inr t ↦ rw t (all j) ]

-- A step that publishes no pool.
moves-IsFresh :
    {Answers : Answering} (s : System) (i : ℕ) (l : Local) (e : Evaluator)
    → IsFresh Answers s
    → ((p : RuntimePool) → e.pool ≡ some p → s.shared.pool ≡ some p)
    → CacheIsFresh Answers s.last s.loads e.cache
    → LocalIsFresh s.last s.loads l
    → IsFresh Answers (moves s i l e)
moves-IsFresh s i l e f pools cache new = record {
  pool_last = λ p h. f.pool_last p (pools p h);
  last_gen = f.last_gen;
  cache_fresh = cache;
  local_fresh = set-all (LocalIsFresh s.last s.loads) s.threads i l f.local_fresh new;
}

-- What a thread holds is still good when a new pool is published.
LocalIsFresh-suc :
    (last : Option RuntimePool) (p : RuntimePool) (loads : ℕ) (l : Local)
    → LocalIsFresh last loads l
    → LocalIsFresh (some p) (loads + 1) l
LocalIsFresh-suc last p loads idle h = h
LocalIsFresh-suc last p loads (running u host q) h =
    (h.0, omega (arith, h.1), λ e. absurd (omega (arith, h.1)))
LocalIsFresh-suc last p loads _ h = h

-- The evaluator and the pool after a load of an open evaluator.
abbrev new_pool : System → Bytes → RuntimePool
new_pool s script = record { script = script; gen = (invalidate s.shared.cache).gen }

abbrev published : System → ℕ → Local → ℕ → Bytes → System
published s i l now script = record {
  shared = record (s.shared) {
    cache = invalidate s.shared.cache;
    pool = some (new_pool s script);
    last_load = now;
  };
  threads = set s.threads i l;
  last = some (new_pool s script);
  loads = s.loads + 1;
}

published-IsFresh :
    {Answers : Answering} (s : System) (i now : ℕ) (l : Local) (script : Bytes)
    → IsFresh Answers s
    → LocalIsFresh s.last s.loads l
    → s.loads + 1 < 2 ^ 64
    → IsFresh Answers (published s i l now script)
published-IsFresh s i now l script f new b =
    let p = new_pool s script in
    let cache =
      invalidate-CacheIsFresh (some p) s.loads s.shared.cache f.cache_fresh.linked
        f.cache_fresh.counted b in
    record {
      pool_last = λ q h. h;
      last_gen = λ q h. ground (arith, cache.counted);
      cache_fresh = cache;
      local_fresh =
          set-all (LocalIsFresh (some p) (s.loads + 1)) s.threads i l
            (λ j. LocalIsFresh-suc s.last p s.loads (s.threads j) (f.local_fresh j))
            (LocalIsFresh-suc s.last p s.loads l new);
    }

publishes-IsFresh :
    {Answers : Answering} (s : System) (i now : ℕ) (l : Local) (script : Bytes)
    → IsFresh Answers s
    → LocalIsFresh s.last s.loads l
    → (publishes s i l (swap s.shared now script)).loads < 2 ^ 64
    → IsFresh Answers (publishes s i l (swap s.shared now script))
unfolding swap generation
publishes-IsFresh s i now l script f new b = elim (Bool-cases s.shared.closed) [
  | inl t ↦
      let same : publishes s i l (swap s.shared now script) ≡ moves s i l s.shared = ground arith in
      rw same (moves-IsFresh s i l s.shared f (λ p h. h) f.cache_fresh new)
  | inr t ↦
      let same : publishes s i l (swap s.shared now script) ≡ published s i l now script =
        ground arith in
      rw same (published-IsFresh s i now l script f new (ground arith))
]

kick-keeps :
    (e : Evaluator) (now : ℕ)
    → ((kick_reload_if_stale e now).0.cache ≡ e.cache)
      × ((kick_reload_if_stale e now).0.pool ≡ e.pool)
unfolding kick_reload_if_stale
kick-keeps e now = (ground arith, ground arith)

ensure-keeps :
    (e : Evaluator) (now : ℕ)
    → ((ensure_loaded e now).0.cache ≡ e.cache) × ((ensure_loaded e now).0.pool ≡ e.pool)
unfolding ensure_loaded
ensure-keeps e now = (ground arith, ground arith)

-- A step whose section leaves cache and pool alone.
keeps-IsFresh :
    {Answers : Answering} (s : System) (i : ℕ) (l : Local) (e : Evaluator)
    → IsFresh Answers s
    → (e.cache ≡ s.shared.cache) × (e.pool ≡ s.shared.pool)
    → LocalIsFresh s.last s.loads l
    → IsFresh Answers (moves s i l e)
keeps-IsFresh s i l e f same new =
    moves-IsFresh s i l e f (λ p h. sym same.1 ∙ h) (rw same.0 f.cache_fresh) new

look_up-IsFresh :
    {Answers : Answering} (s : System) (i now : ℕ) (u h : Bytes) (l : Local)
    → IsFresh Answers s
    → LocalIsFresh s.last s.loads l
    → IsFresh Answers (moves s i l (look_up s.shared now u h).0)
unfolding look_up
look_up-IsFresh s i now u h l f new =
    moves-IsFresh s i l _ f (λ p e. e)
      (get-CacheIsFresh s.last s.loads s.shared.cache f.cache_fresh now _) new

spawns-IsFresh :
    {Answers : Answering} (s : System) (i b : ℕ) (l : Local) (e : Evaluator)
    → IsFresh Answers s
    → (e.cache ≡ s.shared.cache) × (e.pool ≡ s.shared.pool)
    → LocalIsFresh s.last s.loads l
    → IsFresh Answers (spawns s i l b e)
spawns-IsFresh s i b l e f same new =
    keeps-IsFresh (moves s i l e) b reloading e (keeps-IsFresh s i l e f same new) (refl, refl) tt

-- What a thread holds, read off the place where it stands.
holds :
    {Answers : Answering} (s : System) (i : ℕ) (l : Local)
    → IsFresh Answers s
    → s.threads i ≡ l
    → LocalIsFresh s.last s.loads l
holds s i l f at = rw at at (f.local_fresh i)

answer-IsFresh :
    {Answers : Answering} (s : System) (i now : ℕ) (u h : Bytes) (p : RuntimePool) (raw : Bytes)
    → IsFresh Answers s
    → LocalIsFresh s.last s.loads (running u h p)
    → Answers p.script u h raw
    → IsFresh Answers
        (moves s i (done (remember s.shared now u h p raw).1) (remember s.shared now u h p raw).0)
unfolding remember
answer-IsFresh s i now u h p raw f held says =
    moves-IsFresh s i (done _) _ f (λ q e. e)
      (put_if_gen-CacheIsFresh s.last s.loads s.shared.cache f.cache_fresh now p.gen _ _ (λ e.
        record {
          pool = p;
          url = u;
          host = h;
          raw = raw;
          is_last = held.2 e;
          no_nul = held.0;
          key_is = refl;
          answers = says;
          result_is = refl;
        }))
      tt

Step-IsFresh :
    {Answers : Answering} {s t : System}
    → Step Answers s t
    → t.loads < 2 ^ 64
    → IsFresh Answers s
    → IsFresh Answers t
unfolding finish_load fail_reload close
Step-IsFresh {s = s} (Step.request i u h at url p) b f =
    rw p (keeps-IsFresh s i (start u h) s.shared f (refl, refl) url)
Step-IsFresh {s = s} (Step.closing p) b f = rw p (record {
  pool_last = λ q e. absurd (cc e);
  last_gen = f.last_gen;
  cache_fresh = f.cache_fresh;
  local_fresh = f.local_fresh;
})
Step-IsFresh {s = s} (Step.first_hit i now u h r at _ p) b f =
    rw p (look_up-IsFresh s i now u h _ f tt)
Step-IsFresh {s = s} (Step.first_miss i now u h at _ p) b f =
    rw p (look_up-IsFresh s i now u h (ensuring u h) f (holds s i (start u h) f at))
Step-IsFresh {s = s} (Step.kick i now r at _ p) b f =
    rw p (keeps-IsFresh s i (done r) _ f (kick-keeps s.shared now) tt)
Step-IsFresh {s = s} (Step.kick_reload i now c r at _ _ p) b f =
    rw p (spawns-IsFresh s i c (done r) _ f (kick-keeps s.shared now) tt)
Step-IsFresh {s = s} (Step.ensure_ready i now u h at _ p) b f = rw p (
    keeps-IsFresh s i (looking u h) _ f (ensure-keeps s.shared now) (holds s i (ensuring u h) f at))
Step-IsFresh {s = s} (Step.ensure_wait i now u h at _ p) b f = rw p (
    keeps-IsFresh s i (ensuring u h) _ f (ensure-keeps s.shared now)
      (holds s i (ensuring u h) f at))
Step-IsFresh {s = s} (Step.ensure_reload i now c u h at _ _ p) b f = rw p (
    spawns-IsFresh s i c (looking u h) _ f (ensure-keeps s.shared now)
      (holds s i (ensuring u h) f at))
Step-IsFresh {s = s} (Step.ensure_load i now u h at _ p) b f = rw p (
    keeps-IsFresh s i (fetching u h) _ f (ensure-keeps s.shared now)
      (holds s i (ensuring u h) f at))
Step-IsFresh {s = s} (Step.load_ok i now u h script at p) b f =
    rw p (
      publishes-IsFresh s i now (finishing u h) script f (holds s i (fetching u h) f at)
        (rw p at b))
Step-IsFresh {s = s} (Step.load_error i u h at p) b f =
    rw p (keeps-IsFresh s i (finishing u h) s.shared f (refl, refl) (holds s i (fetching u h) f at))
Step-IsFresh {s = s} (Step.load_end i u h at p) b f =
    rw p (keeps-IsFresh s i (looking u h) _ f (refl, refl) (holds s i (finishing u h) f at))
Step-IsFresh {s = s} (Step.reload_ok i now script at p) b f =
    rw p (publishes-IsFresh s i now ending script f tt (rw p at b))
Step-IsFresh {s = s} (Step.reload_end i at p) b f =
    rw p (keeps-IsFresh s i over _ f (refl, refl) tt)
Step-IsFresh {s = s} (Step.reload_error i now at p) b f =
    rw p (keeps-IsFresh s i over _ f (refl, refl) tt)
Step-IsFresh {s = s} (Step.second_hit i now u h r at _ p) b f =
    rw p (look_up-IsFresh s i now u h (done r) f tt)
Step-IsFresh {s = s} (Step.second_miss i now u h at _ p) b f =
    rw p (look_up-IsFresh s i now u h (choosing u h) f (holds s i (looking u h) f at))
Step-IsFresh {s = s} (Step.no_pool i u h at _ p) b f =
    rw p (keeps-IsFresh s i (done _) s.shared f (refl, refl) tt)
Step-IsFresh {s = s} (Step.take_pool i u h q at e p) b f =
    let newest = f.pool_last q e in
    rw p (
      keeps-IsFresh s i (running u h q) s.shared f (refl, refl)
        (holds s i (choosing u h) f at, omega (arith, f.last_gen q newest), λ _. newest))
Step-IsFresh {s = s} (Step.answer i now u h q raw at says p) b f =
    rw p (answer-IsFresh s i now u h q raw f (holds s i (running u h q) f at) says)
Step-IsFresh {s = s} (Step.no_answer i u h q at p) b f =
    rw p (keeps-IsFresh s i (done _) s.shared f (refl, refl) tt)

-- The number of pools published never falls.
Step-loads : {Answers : Answering} {s t : System} → Step Answers s t → s.loads ≤ t.loads
Step-loads (Step.request _ _ _ _ _ p) = rw p (omega arith)
Step-loads (Step.closing p) = rw p (omega arith)
Step-loads (Step.first_hit _ _ _ _ _ _ _ p) = rw p (omega arith)
Step-loads (Step.first_miss _ _ _ _ _ _ p) = rw p (omega arith)
Step-loads (Step.kick _ _ _ _ _ p) = rw p (omega arith)
Step-loads (Step.kick_reload _ _ _ _ _ _ _ p) = rw p (omega arith)
Step-loads (Step.ensure_ready _ _ _ _ _ _ p) = rw p (omega arith)
Step-loads (Step.ensure_wait _ _ _ _ _ _ p) = rw p (omega arith)
Step-loads (Step.ensure_reload _ _ _ _ _ _ _ _ p) = rw p (omega arith)
Step-loads (Step.ensure_load _ _ _ _ _ _ p) = rw p (omega arith)
Step-loads (Step.load_ok _ _ _ _ _ _ p) = rw p (ground arith)
Step-loads (Step.load_error _ _ _ _ p) = rw p (omega arith)
Step-loads (Step.load_end _ _ _ _ p) = rw p (omega arith)
Step-loads (Step.reload_ok _ _ _ _ p) = rw p (ground arith)
Step-loads (Step.reload_end _ _ p) = rw p (omega arith)
Step-loads (Step.reload_error _ _ _ p) = rw p (omega arith)
Step-loads (Step.second_hit _ _ _ _ _ _ _ p) = rw p (omega arith)
Step-loads (Step.second_miss _ _ _ _ _ _ p) = rw p (omega arith)
Step-loads (Step.no_pool _ _ _ _ _ p) = rw p (omega arith)
Step-loads (Step.take_pool _ _ _ _ _ _ p) = rw p (omega arith)
Step-loads (Step.answer _ _ _ _ _ _ _ _ p) = rw p (omega arith)
Step-loads (Step.no_answer _ _ _ _ _ p) = rw p (omega arith)

-- In every state reached with fewer than 2^64 loads, the cache holds only answers of the script
-- loaded last.
Reach-IsFresh :
    {Answers : Answering} (reload_interval : ℕ) {s : System}
    → Reach Answers (initial reload_interval) s
    → s.loads < 2 ^ 64
    → IsFresh Answers s
unfolding initial new find new_result_cache
Reach-IsFresh n here b = record {
  pool_last = λ p e. absurd (cc e);
  last_gen = λ p e. absurd (cc e);
  cache_fresh = record {
    linked = new-IsLinked default_cache_ttl default_cache_cap;
    counted = refl;
    explained = λ k e found. absurd (cc found);
  };
  local_fresh = λ i. tt;
}
Reach-IsFresh n (next r x) b = Step-IsFresh x b (Reach-IsFresh n r (omega (arith, Step-loads x)))

-- Whenever requests, reloads and `Close` have run in any order, with fewer than 2^64 loads, an
-- answer that FindProxyForURL takes from the cache for a URL without NUL bytes is what the script
-- published last returned for that URL and host: never the answer of a script that a reload has
-- replaced, nor the answer to another request.
pub look_up_fresh :
    {Answers : Answering} (reload_interval : ℕ) {s : System} (now : ℕ) (u h r : Bytes)
    → Reach Answers (initial reload_interval) s
    → s.loads < 2 ^ 64
    → HasNoNul u
    → (look_up s.shared now u h).1 ≡ some r
    → (p : RuntimePool) × (raw : Bytes) × (s.last ≡ some p)
      × Answers p.script u h raw
      × (r ≡ normalize_proxy_result raw)
unfolding look_up
look_up_fresh {Answers} n {s} now u h r reach b url hit =
    let f = (Reach-IsFresh n reach b).cache_fresh in
    let (e, found, _, same) = get_hit s.shared.cache now (cache_key u h) r f.linked hit in
    let x = f.explained (cache_key u h) e found in
    let (urls, hosts) = cache_key-injective u x.url h x.host url x.no_nul x.key_is in
    (x.pool, x.raw, x.is_last, rw (urls, hosts) x.answers, sym same ∙ x.result_is)
