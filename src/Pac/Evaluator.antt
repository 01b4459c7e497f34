-- ===== src/Pac/Evaluator.antt =====
-- internal/pac/pac.go: `Evaluator`. Each function below is one critical section, the code
-- between taking the mutex (or waking up under it) and giving it up; a request and a reload run
-- as threads over these sections (Evaluator/Threads.antt). Times are nanoseconds; 0 stands for the
-- zero time of `lastLoad`. The compiled runtimes of a pool are one script text.
pub mod Threads
pub mod Slots
pub mod Source
use px_go.Prelude.{
  ℕ, ◌-◌, Bool, true, false, not, ◌&&◌, ◌||◌, Option, none, some, ltb, leb, ◌==◌, if◌then◌else◌,
}
use px_go.Strings.{Bytes, text}
use px_go.Pac.Cache.{
  ResultCache, new_result_cache, default_cache_ttl, default_cache_cap, cache_key, get, generation,
  put_if_gen, invalidate,
}
use px_go.Pac.Result.{normalize_proxy_result}

-- `runtimePool`
pub record RuntimePool : Type 0 where
  pub script : Bytes
  pub gen : ℕ

pub record Evaluator : Type 0 where
  pub reload_interval : ℕ
  pub last_load : ℕ
  pub reloading : Bool
  pub closed : Bool
  pub pool : Option RuntimePool
  pub cache : ResultCache

unfoldable pub new : ℕ → Evaluator
new reload_interval = record {
  reload_interval = reload_interval;
  last_load = 0;
  reloading = false;
  closed = false;
  pool = none;
  cache = new_result_cache default_cache_ttl default_cache_cap;
}

unfoldable pub stale_locked : Evaluator → ℕ → Bool
stale_locked e now = ltb 0 e.reload_interval && leb e.reload_interval (now - e.last_load)

unfoldable pub loaded_locked : Evaluator → Bool
loaded_locked e = elim e.pool [ none ↦ false | some _ ↦ true ]

-- The flag says whether a background reload is started.
unfoldable pub kick_reload_if_stale : Evaluator → ℕ → Evaluator × Bool
unfolding stale_locked loaded_locked
kick_reload_if_stale e now =
    if e.closed || not (loaded_locked e) || not (stale_locked e now) || e.reloading
    then (e, false)
    else (record e { reloading = true }, true)

-- What a request does after the first critical section of `ensureLoaded`.
pub data Ensured : Type 0 where
  -- It goes on.
  ready : Ensured
  -- It starts a background reload and goes on.
  reload : Ensured
  -- It waits for the load of another request, and takes the section again when it wakes up.
  wait : Ensured
  -- It loads the script itself.
  load : Ensured

unfoldable pub ensure_loaded : Evaluator → ℕ → Evaluator × Ensured
unfolding stale_locked loaded_locked
ensure_loaded e now =
    if e.closed
    then (e, ready)
    else if not (loaded_locked e) && e.reloading
    then (e, wait)
    else if loaded_locked e
    then if stale_locked e now && not e.reloading
      then (record e { reloading = true }, reload)
      else (e, ready)
    else (record e { reloading = true }, load)

-- The last part of `loadAndSwap`, under the mutex.
unfoldable pub swap : Evaluator → ℕ → Bytes → Evaluator
swap e now script =
    if e.closed
    then e
    else let cache = invalidate e.cache in
      record e {
        cache = cache;
        pool = some (record { script = script; gen = generation cache });
        last_load = now;
      }

-- The end of `ensureLoaded` after a cold load, and of a `backgroundReload` that succeeded.
unfoldable pub finish_load : Evaluator → Evaluator
finish_load e = record e { reloading = false }

-- The end of a `backgroundReload` that failed.
unfoldable pub fail_reload : Evaluator → ℕ → Evaluator
fail_reload e now = record e {
  last_load = if not e.closed then now else e.last_load;
  reloading = false;
}

unfoldable pub close : Evaluator → Evaluator
close e = record e { closed = true; pool = none }

-- `e.cache.get(key)` in FindProxyForURL
unfoldable pub look_up : Evaluator → ℕ → Bytes → Bytes → Evaluator × Option Bytes
look_up e now raw_url host =
    let (cache, hit) = get e.cache now (cache_key raw_url host) in (record e { cache = cache }, hit)

-- The end of FindProxyForURL once the script has returned `raw` in a slot of the pool `p`.
unfoldable pub remember : Evaluator → ℕ → Bytes → Bytes → RuntimePool → Bytes → Evaluator × Bytes
remember e now raw_url host p raw =
    let out = normalize_proxy_result raw in
    (record e { cache = put_if_gen e.cache now (cache_key raw_url host) out p.gen }, out)
