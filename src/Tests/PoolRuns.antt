-- ===== src/Tests/PoolRuns.antt =====
-- A pool of two slots, and a load that fills one.
use mathlib.Core.List.{Perm, Nodup, Nodup-cons, Nodup-nil, mem-singleton, not-mem-nil}
use native.Mathlib.Nat.{ℕ_set}
use px_go.Prelude.{ℕ, ◌≤◌, ◌*◌, ◌⊎◌, Option, All, ◌≡◌, ◌≢◌, refl, List, [], ◌∷◌, none, some, arith}
use px_go.Strings.{Bytes, text}
use px_go.Pac.Evaluator.{new}
use px_go.Pac.Evaluator.Slots.{
  Pool, waiting, holding, filled, receive, proceed, SlotStep, go_on, SlotRun, stay, step,
}
use px_go.Pac.Evaluator.Slots.Ownership.{owned, owned-Nodup}
use px_go.Pac.Evaluator.Slots.Progress.{IsReturned, SlotRun-goes_on}
use px_go.Pac.Evaluator.Source.{Loader, read_source, load_and_swap}
use px_go.Pac.Evaluator.Source.Built.{IsLoaded, load_and_swap-IsLoaded}

abbrev two : List ℕ
two = 10 ∷ 11 ∷ []

-- What the script answers in a slot.
abbrev script : ℕ → Option Bytes
script slot = some (text "DIRECT")

-- Three requests, of which the first two have taken a slot.
abbrev one_taken : Pool ℕ
one_taken = record { capacity = 2; slots = 11 ∷ []; requests = holding 10 ∷ waiting ∷ waiting ∷ [] }

abbrev both_taken : Pool ℕ
both_taken = record { capacity = 2; slots = []; requests = holding 10 ∷ holding 11 ∷ waiting ∷ [] }

both_taken_run : SlotRun script (filled two 3) 2 both_taken
unfolding filled proceed receive
both_taken_run =
    step {s = one_taken}
      (step stay (go_on [] (waiting ∷ waiting ∷ []) waiting (holding 10) (11 ∷ []) refl refl))
      (go_on (holding 10 ∷ []) (waiting ∷ []) waiting (holding 11) [] refl refl)

SlotRun-goes_on_example :
    (2 ≤ 2 * 3)
    × ((All IsReturned both_taken.requests × Perm two both_taken.slots)
        ⊎ ((s : Pool ℕ) × SlotStep script both_taken s))
SlotRun-goes_on_example = SlotRun-goes_on script two 3 2 both_taken (omega arith) both_taken_run

nothing_left : receive both_taken.slots ≡ none
unfolding receive
nothing_left = refl

two-Nodup : Nodup two
two-Nodup =
    let ten : ℕ = 10 in
    let other : ten ≢ 11 = ground arith in
    Nodup-cons.1 (λ m. other ((mem-singleton ℕ_set).0 m), Nodup-cons.1 (not-mem-nil, Nodup-nil))

owned-Nodup_example : Nodup (owned both_taken)
owned-Nodup_example = owned-Nodup script two 3 2 both_taken two-Nodup both_taken_run

abbrev loader : Loader ℕ Bytes
loader = record {
  get = λ url. some (200, some (text "PAC"));
  read_file = λ path. none;
  local_path = λ url. url;
  pac_utils = text "function isInNet";
  run_string = λ i script. some i;
  get_function = λ runtime name. some name;
}

load_and_swap-IsLoaded_example :
    IsLoaded loader
      (new 0)
      5
      (text "utf-8")
      2
      (read_source loader (text "HTTP://wpad/"))
      (load_and_swap loader (new 0) 5 (text "HTTP://wpad/") (text "utf-8") 2)
load_and_swap-IsLoaded_example =
    load_and_swap-IsLoaded loader (new 0) 5 (text "HTTP://wpad/") (text "utf-8") 2

-- Each slot has a runtime of its own.
two_runtimes :
    (load_and_swap loader (new 0) 5 (text "HTTP://wpad/") [] 2).1
    ≡ some ((0, text "FindProxyForURL") ∷ (1, text "FindProxyForURL") ∷ [])
unfolding load_and_swap
two_runtimes = refl

not_a_file : (load_and_swap loader (new 0) 5 (text "/no.pac") [] 2).1 ≡ none
unfolding load_and_swap
not_a_file = refl
