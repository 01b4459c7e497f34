-- ===== src/Pac/Evaluator/Source/Built.antt =====
-- What `loadAndSwap` of internal/pac/pac.go publishes.
use px_go.Prelude.{
  ℕ, zero, suc, ◌≡◌, refl, ap, List, [], ◌∷◌, Option, none, some, ◌==◌, if◌then◌else◌, length,
}
use px_go.Strings.{Bytes}
use px_go.Pac.Result.{decode_text}
use px_go.Pac.Evaluator.{Evaluator, swap}
use px_go.Pac.Evaluator.Source.{
  Loader, default_pool_size, read_source, compile, and_slot, build_from, build_pool, swap_built,
  load_text, load_and_swap,
}

module _ {R F : Type 0} (loader : Loader R F) where
  -- The slots from the number `i` on are compilations of the script, each in a runtime of its own.
  abbrev pub AreCompiled : Bytes → ℕ → List (R × F) → Type 0
  AreCompiled script i [] = Unit
  AreCompiled script i (s ∷ slots) =
      (compile loader i script ≡ some s) × AreCompiled script (suc i) slots

  abbrev pub IsPool : Bytes → ℕ → ℕ → Option (List (R × F)) → Type 0
  IsPool script i n none = Unit
  IsPool script i n (some slots) = (length slots ≡ n) × AreCompiled script i slots

  and_slot-IsPool :
      (script : Bytes) (i n : ℕ) (s : Option (R × F)) (rest : Option (List (R × F)))
      → compile loader i script ≡ s
      → IsPool script (suc i) n rest
      → IsPool script i (suc n) (and_slot s rest)
  and_slot-IsPool script i n none rest e h = tt
  and_slot-IsPool script i n (some s) none e h = tt
  and_slot-IsPool script i n (some s) (some slots) e (h, g) = (ap suc h, (e, g))

  build_from-IsPool : (script : Bytes) (i n : ℕ) → IsPool script i n (build_from loader script i n)
  unfolding build_from
  build_from-IsPool script i zero = (refl, tt)
  build_from-IsPool script i (suc n) =
      and_slot-IsPool script i n _ _ refl (build_from-IsPool script (suc i) n)

  -- A load that failed leaves the evaluator; the others swap in a script that every slot of the pool
  -- is a compilation of.
  abbrev pub IsLoaded :
      Evaluator → ℕ → Bytes → ℕ → Option Bytes → Evaluator × Option (List (R × F)) → Type 0
  IsLoaded e now encoding size source (after, none) = after ≡ e
  IsLoaded e now encoding size source (after, some slots) =
      (bytes : Bytes) × (source ≡ some bytes)
      × (after ≡ swap e now (decode_text bytes encoding))
      × (length slots ≡ (if size == 0 then default_pool_size else size))
      × AreCompiled (decode_text bytes encoding) 0 slots

  swap_built-IsLoaded :
      (e : Evaluator) (now : ℕ) (encoding : Bytes) (size : ℕ) (bytes : Bytes)
      (built : Option (List (R × F)))
      → IsPool (decode_text bytes encoding) 0 (if size == 0 then default_pool_size else size) built
      → IsLoaded e now encoding size
          (some bytes)
          (swap_built e now (decode_text bytes encoding) built)
  swap_built-IsLoaded e now encoding size bytes none h = refl
  swap_built-IsLoaded e now encoding size bytes (some slots) (h, g) = (bytes, refl, refl, h, g)

  load_text-IsLoaded :
      (e : Evaluator) (now : ℕ) (encoding : Bytes) (size : ℕ) (source : Option Bytes)
      → IsLoaded e now encoding size source (load_text loader e now encoding size source)
  unfolding build_pool
  load_text-IsLoaded e now encoding size none = refl
  load_text-IsLoaded e now encoding size (some bytes) =
      swap_built-IsLoaded e now encoding size bytes _ (build_from-IsPool _ 0 _)

  -- loadAndSwap leaves the evaluator as it was if it fails, and else swaps in the decoded text of the
  -- source with a pool of the size that is set, 4 for 0, of which every slot is a compilation of
  -- that text in a runtime of its own.
  pub load_and_swap-IsLoaded :
      (e : Evaluator) (now : ℕ) (source encoding : Bytes) (size : ℕ)
      → IsLoaded e now encoding size
          (read_source loader source)
          (load_and_swap loader e now source encoding size)
  unfolding load_and_swap
  load_and_swap-IsLoaded e now source encoding size =
      load_text-IsLoaded e now encoding size (read_source loader source)
