-- ===== src/Pac/Evaluator/Threads.antt =====
-- Requests and reloads of internal/pac/pac.go as threads over one evaluator: FindProxyForURL with
-- `kickReloadIfStale` and `ensureLoaded`, and `backgroundReload`. A step is one critical section of
-- one thread, and the steps of different threads come in any order. What the source fetches and
-- what the script answers are chosen by the environment: `Answers script url host raw` says
-- that a run of the script may return `raw`.
pub mod Loading
mod Stored
pub mod Freshness
use px_go.Prelude.{
  ℕ, ◌+◌, ◌≡◌, ◌≢◌, Bool, true, false, not, List, [], ◌∷◌, Option, none, some, ◌==◌, if◌then◌else◌,
  All,
}
use px_go.Strings.{Bytes, text}
use px_go.Pac.Evaluator.{
  RuntimePool, Evaluator, Ensured, ready, reload, wait, load, new, kick_reload_if_stale,
  ensure_loaded, swap, finish_load, fail_reload, close, look_up, remember,
}

-- Where a thread stands. The two texts are the request's URL and host.
pub data Local : Type 0 where
  idle : Local
  start : Bytes → Bytes → Local
  kicking : Bytes → Local
  ensuring : Bytes → Bytes → Local
  fetching : Bytes → Bytes → Local
  finishing : Bytes → Bytes → Local
  looking : Bytes → Bytes → Local
  choosing : Bytes → Bytes → Local
  running : Bytes → Bytes → RuntimePool → Local
  done : Bytes → Local
  -- `backgroundReload`
  reloading : Local
  ending : Local
  over : Local

-- The evaluator and its threads. Two fields are for the proofs: the pool published last, which
-- `Close` does not forget, and the number of pools published.
pub record System : Type 0 where
  pub shared : Evaluator
  pub threads : ℕ → Local
  pub last : Option RuntimePool
  pub loads : ℕ

abbrev pub set : (ℕ → Local) → ℕ → Local → ℕ → Local
set f i l j = if i == j then l else f j

-- Thread `i` goes on to `l` and leaves the evaluator as `e`.
abbrev pub moves : System → ℕ → Local → Evaluator → System
moves s i l e = record s { shared = e; threads = set s.threads i l }

-- The same, and thread `b` starts a background reload.
abbrev pub spawns : System → ℕ → Local → ℕ → Evaluator → System
spawns s i l b e = record s { shared = e; threads = set (set s.threads i l) b reloading }

-- The same as `moves`, after a `swap`: unless the evaluator is closed a new pool is published.
abbrev pub publishes : System → ℕ → Local → Evaluator → System
publishes s i l e = record {
  shared = e;
  threads = set s.threads i l;
  last = if s.shared.closed then s.last else e.pool;
  loads = if s.shared.closed then s.loads else s.loads + 1;
}

-- A URL that Go's parser accepts holds no control characters.
abbrev pub HasNoNul : Bytes → Type 0
HasNoNul url = All (λ (c : ℕ). c ≢ 0) url

abbrev pub Answering : Type 1
Answering = Bytes → Bytes → Bytes → Bytes → Type 0

pub data Step (Answers : Answering) (s t : System) : Type 0 where
  request :
      (i : ℕ) (u h : Bytes)
      → s.threads i ≡ idle
      → HasNoNul u
      → t ≡ moves s i (start u h) s.shared
      → Step Answers s t
  closing : t ≡ record s { shared = close s.shared } → Step Answers s t
  first_hit :
      (i now : ℕ) (u h r : Bytes)
      → s.threads i ≡ start u h
      → (look_up s.shared now u h).1 ≡ some r
      → t ≡ moves s i (kicking r) (look_up s.shared now u h).0
      → Step Answers s t
  first_miss :
      (i now : ℕ) (u h : Bytes)
      → s.threads i ≡ start u h
      → (look_up s.shared now u h).1 ≡ none
      → t ≡ moves s i (ensuring u h) (look_up s.shared now u h).0
      → Step Answers s t
  kick :
      (i now : ℕ) (r : Bytes)
      → s.threads i ≡ kicking r
      → (kick_reload_if_stale s.shared now).1 ≡ false
      → t ≡ moves s i (done r) (kick_reload_if_stale s.shared now).0
      → Step Answers s t
  kick_reload :
      (i now b : ℕ) (r : Bytes)
      → s.threads i ≡ kicking r
      → s.threads b ≡ idle
      → (kick_reload_if_stale s.shared now).1 ≡ true
      → t ≡ spawns s i (done r) b (kick_reload_if_stale s.shared now).0
      → Step Answers s t
  ensure_ready :
      (i now : ℕ) (u h : Bytes)
      → s.threads i ≡ ensuring u h
      → (ensure_loaded s.shared now).1 ≡ ready
      → t ≡ moves s i (looking u h) (ensure_loaded s.shared now).0
      → Step Answers s t
  ensure_wait :
      (i now : ℕ) (u h : Bytes)
      → s.threads i ≡ ensuring u h
      → (ensure_loaded s.shared now).1 ≡ wait
      → t ≡ moves s i (ensuring u h) (ensure_loaded s.shared now).0
      → Step Answers s t
  ensure_reload :
      (i now b : ℕ) (u h : Bytes)
      → s.threads i ≡ ensuring u h
      → s.threads b ≡ idle
      → (ensure_loaded s.shared now).1 ≡ reload
      → t ≡ spawns s i (looking u h) b (ensure_loaded s.shared now).0
      → Step Answers s t
  ensure_load :
      (i now : ℕ) (u h : Bytes)
      → s.threads i ≡ ensuring u h
      → (ensure_loaded s.shared now).1 ≡ load
      → t ≡ moves s i (fetching u h) (ensure_loaded s.shared now).0
      → Step Answers s t
  load_ok :
      (i now : ℕ) (u h script : Bytes)
      → s.threads i ≡ fetching u h
      → t ≡ publishes s i (finishing u h) (swap s.shared now script)
      → Step Answers s t
  load_error :
      (i : ℕ) (u h : Bytes)
      → s.threads i ≡ fetching u h
      → t ≡ moves s i (finishing u h) s.shared
      → Step Answers s t
  load_end :
      (i : ℕ) (u h : Bytes)
      → s.threads i ≡ finishing u h
      → t ≡ moves s i (looking u h) (finish_load s.shared)
      → Step Answers s t
  reload_ok :
      (i now : ℕ) (script : Bytes)
      → s.threads i ≡ reloading
      → t ≡ publishes s i ending (swap s.shared now script)
      → Step Answers s t
  reload_end :
      (i : ℕ) → s.threads i ≡ ending → t ≡ moves s i over (finish_load s.shared) → Step Answers s t
  reload_error :
      (i now : ℕ)
      → s.threads i ≡ reloading
      → t ≡ moves s i over (fail_reload s.shared now)
      → Step Answers s t
  second_hit :
      (i now : ℕ) (u h r : Bytes)
      → s.threads i ≡ looking u h
      → (look_up s.shared now u h).1 ≡ some r
      → t ≡ moves s i (done r) (look_up s.shared now u h).0
      → Step Answers s t
  second_miss :
      (i now : ℕ) (u h : Bytes)
      → s.threads i ≡ looking u h
      → (look_up s.shared now u h).1 ≡ none
      → t ≡ moves s i (choosing u h) (look_up s.shared now u h).0
      → Step Answers s t
  no_pool :
      (i : ℕ) (u h : Bytes)
      → s.threads i ≡ choosing u h
      → s.shared.pool ≡ none
      → t ≡ moves s i (done (text "DIRECT")) s.shared
      → Step Answers s t
  take_pool :
      (i : ℕ) (u h : Bytes) (p : RuntimePool)
      → s.threads i ≡ choosing u h
      → s.shared.pool ≡ some p
      → t ≡ moves s i (running u h p) s.shared
      → Step Answers s t
  answer :
      (i now : ℕ) (u h : Bytes) (p : RuntimePool) (raw : Bytes)
      → s.threads i ≡ running u h p
      → Answers p.script u h raw
      → t ≡ moves s i (done (remember s.shared now u h p raw).1) (remember s.shared now u h p raw).0
      → Step Answers s t
  no_answer :
      (i : ℕ) (u h : Bytes) (p : RuntimePool)
      → s.threads i ≡ running u h p
      → t ≡ moves s i (done (text "DIRECT")) s.shared
      → Step Answers s t

pub data Reach (Answers : Answering) (s : System) : System → Type 0 where
  here : Reach Answers s s
  next : {t u : System} → Reach Answers s t → Step Answers t u → Reach Answers s u

-- A new evaluator with no thread under way.
unfoldable pub initial : ℕ → System
initial reload_interval = record {
  shared = new reload_interval;
  threads = λ i. idle;
  last = none;
  loads = 0;
}
