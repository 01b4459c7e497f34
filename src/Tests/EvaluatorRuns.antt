-- ===== src/Tests/EvaluatorRuns.antt =====
-- One request that loads the PAC file of internal/pac/pac.go and stores the script's answer.
use px_go.Prelude.{◌<◌, ◌^◌, ◌≡◌, refl, some, arith}
use px_go.Strings.{Bytes, text}
use px_go.Pac.Result.{normalize_proxy_result}
use px_go.Pac.Evaluator.{RuntimePool, new, ensure_loaded, swap, finish_load, look_up, remember}
use px_go.Pac.Evaluator.Threads.{
  start, ensuring, fetching, finishing, looking, choosing, running, done, System, moves, publishes,
  HasNoNul, Answering, request, first_miss, ensure_load, load_ok, load_end, second_miss, take_pool,
  answer, Reach, here, next, initial,
}
use px_go.Pac.Evaluator.Threads.Loading.{HasOneLoader, Reach-HasOneLoader}
use px_go.Pac.Evaluator.Threads.Freshness.{look_up_fresh}

abbrev u : Bytes
u = text "u"

abbrev h : Bytes
h = text "h"

abbrev raw : Bytes
raw = text "PROXY p:1"

abbrev Says : Answering
Says script url host returned = returned ≡ raw

abbrev asked : System
asked = moves (initial 0) 0 (start u h) (initial 0).shared

abbrev missed : System
missed = moves asked 0 (ensuring u h) (look_up asked.shared 1 u h).0

abbrev loading : System
loading = moves missed 0 (fetching u h) (ensure_loaded missed.shared 2).0

abbrev loaded : System
loaded = publishes loading 0 (finishing u h) (swap loading.shared 3 (text "f"))

abbrev ended : System
ended = moves loaded 0 (looking u h) (finish_load loaded.shared)

abbrev again : System
again = moves ended 0 (choosing u h) (look_up ended.shared 4 u h).0

abbrev pool : RuntimePool
pool = record { script = text "f"; gen = 1 }

abbrev taken : System
taken = moves again 0 (running u h pool) again.shared

abbrev finished : System
finished =
    moves taken 0 (done (remember taken.shared 5 u h pool raw).1)
      (remember taken.shared 5 u h pool raw).0

to_loading : Reach Says (initial 0) loading
unfolding initial new look_up ensure_loaded px_go.Pac.Cache.get px_go.Dict.lookup
    px_go.Pac.Cache.new_result_cache
to_loading =
    next
      (next (next here (request 0 u h refl (ground arith) refl))
        (first_miss 0 1 u h refl refl refl))
      (ensure_load 0 2 u h refl refl refl)

to_again : Reach Says (initial 0) again
unfolding initial new look_up ensure_loaded swap finish_load px_go.Pac.Cache.get px_go.Dict.lookup
    px_go.Pac.Cache.invalidate
to_again =
    next (next (next to_loading (load_ok 0 3 u h (text "f") refl refl)) (load_end 0 u h refl refl))
      (second_miss 0 4 u h refl refl refl)

to_finished : Reach Says (initial 0) finished
unfolding initial new look_up ensure_loaded swap finish_load px_go.Pac.Cache.generation
    px_go.Pac.Cache.invalidate px_go.Pac.Cache.get px_go.Dict.lookup
    px_go.Pac.Cache.new_result_cache
to_finished =
    next (next to_again (take_pool 0 u h pool refl refl refl))
      (answer 0 5 u h pool raw refl refl refl)

few_loads : finished.loads < 2 ^ 64
unfolding initial new look_up ensure_loaded swap finish_load
few_loads = omega arith

u-HasNoNul : HasNoNul u
u-HasNoNul = ground arith

finished_hit : (look_up finished.shared 6 u h).1 ≡ some (text "p:1")
unfolding initial new look_up ensure_loaded swap finish_load remember px_go.Pac.Cache.get
    px_go.Dict.lookup px_go.Pac.Cache.put_if_gen px_go.Pac.Cache.invalidate
    px_go.Pac.Cache.new_result_cache px_go.Dict.insert px_go.Strings.equal px_go.Pac.Cache.cache_key
    normalize_proxy_result px_go.Strings.trim_space px_go.Strings.split px_go.Strings.replace_all
    px_go.Strings.join
finished_hit = refl

Reach-HasOneLoader_example : HasOneLoader loading.shared loading.threads
Reach-HasOneLoader_example = Reach-HasOneLoader 0 to_loading

look_up_fresh_example :
    (p : RuntimePool) × (answered : Bytes) × (finished.last ≡ some p)
    × Says p.script u h answered
    × (text "p:1" ≡ normalize_proxy_result answered)
look_up_fresh_example =
    look_up_fresh 0 6 u h (text "p:1") to_finished few_loads u-HasNoNul finished_hit
