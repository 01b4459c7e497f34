-- ===== src/Tests/CacheRuns.antt =====
-- The cache of internal/pac/cache.go with room for two results that live for five nanoseconds.
use px_go.Prelude.{◌≤◌, ◌+◌, ◌≡◌, refl, List, [], ◌∷◌, some, arith}
use px_go.Strings.{Bytes, text}
use px_go.Pac.Cache.{ResultCache, new_result_cache, get, put, put_if_gen, invalidate}
use px_go.Pac.Cache.Invariant.{IsLinked}
use px_go.Pac.Cache.Reads.{get-put}
use px_go.Pac.Cache.Recency.{keys, without, take, keys-put, keys-get}
use px_go.Pac.Cache.Refinement.{
  Call, put_call, put_if_gen_call, invalidate_call, step, run, note_all, blank, recall,
  run-IsLinked, run-get_sound,
}

abbrev calls : List Call
calls =
    put_call 1 (text "x") (text "old")
    ∷ invalidate_call
    ∷ put_call 2 (text "a") (text "DIRECT")
    ∷ put_if_gen_call 3 (text "b") (text "stale") 0
    ∷ put_call 4 (text "b") (text "p:1")
    ∷ []

abbrev used : ResultCache
used = run calls (new_result_cache 5 2)

used-IsLinked : IsLinked used
used-IsLinked = run-IsLinked 5 2 calls

used_hit : (get used 6 (text "a")).1 ≡ some (text "DIRECT")
unfolding get run step new_result_cache px_go.Dict.lookup px_go.Dict.insert px_go.Strings.equal
used_hit = refl

run-IsLinked_example : IsLinked used
run-IsLinked_example = run-IsLinked 5 2 calls

run-get_sound_example :
    recall (note_all (new_result_cache 5 2).ttl calls blank) 6 (text "a") ≡ some (text "DIRECT")
run-get_sound_example = run-get_sound 5 2 calls 6 (text "a") (text "DIRECT") used_hit

keys-put_example :
    keys (put used 5 (text "c") (text "p:2")).order
    ≡ take used.cap (text "c" ∷ without (text "c") (keys used.order))
keys-put_example = keys-put used 5 (text "c") (text "p:2") used-IsLinked

keys_after_hit :
    keys (get used 6 (text "a")).0.order ≡ text "a" ∷ without (text "a") (keys used.order)
keys_after_hit = keys-get used 6 (text "a") (text "DIRECT") used-IsLinked used_hit

used_ttl : used.ttl ≡ 5
unfolding run step new_result_cache put put_if_gen invalidate px_go.Dict.lookup px_go.Dict.insert
    px_go.Strings.equal
used_ttl = refl

five_later : 10 ≤ 5 + used.ttl
five_later = omega (arith, used_ttl)

found_after_put : (get (put used 5 (text "c") (text "p:2")) 10 (text "c")).1 ≡ some (text "p:2")
found_after_put = get-put used 5 10 (text "c") (text "p:2") used-IsLinked five_later
