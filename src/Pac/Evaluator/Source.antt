-- ===== src/Pac/Evaluator/Source.antt =====
-- internal/pac/pac.go: reading the PAC file, compiling it into the slots of a pool, and
-- `loadAndSwap`. The HTTP client, the file system and the JavaScript runtime are parameters: `R` is
-- the type of runtimes and `F` that of their functions.
pub mod Built
use px_go.Prelude.{
  ℕ, zero, suc, ◌+◌, Bool, true, false, List, [], ◌∷◌, ◌++◌, Option, none, some, ◌==◌, ◌||◌,
  if◌then◌else◌,
}
use px_go.Strings.{Bytes, text, to_lower, has_prefix}
use px_go.Network.{Addr}
use px_go.Pac.Result.{decode_text}
use px_go.Pac.Evaluator.{Evaluator, swap}

-- `get` answers a GET request with the status and, if it can be read, the body. `run_string` runs a
-- text in the new runtime of a number, and `get_function` is `AssertFunction` of a global of the
-- runtime. `local_path` is `config.FileURLToLocalPath`.
pub record Loader (R F : Type 0) : Type 0 where
  pub get : Bytes → Option (ℕ × Option Bytes)
  pub read_file : Bytes → Option Bytes
  pub local_path : Bytes → Bytes
  pub pac_utils : Bytes
  pub run_string : ℕ → Bytes → Option R
  pub get_function : R → Bytes → Option F

-- `defaultPoolSize`
abbrev pub default_pool_size : ℕ
default_pool_size = 4

-- What `readSource` takes from an answer.
abbrev pub body_of : Option (ℕ × Option Bytes) → Option Bytes
body_of none = none
body_of (some (status, body)) = if status == 200 then body else none

abbrev pub and_slot : {S : Type 0} → Option S → Option (List S) → Option (List S)
and_slot none rest = none
and_slot (some s) none = none
and_slot (some s) (some slots) = some (s ∷ slots)

module _ {R F : Type 0} where
  unfoldable pub read_source : Loader R F → Bytes → Option Bytes
  unfolding to_lower has_prefix
  read_source loader source =
      let lower = to_lower source in
      if has_prefix lower (text "http://") || has_prefix lower (text "https://")
      then body_of (loader.get source)
      else if has_prefix lower (text "file://")
      then loader.read_file (loader.local_path source)
      else loader.read_file source

  abbrev with_function : Loader R F → Option R → Option (R × F)
  with_function loader none = none
  with_function loader (some runtime) =
      elim (loader.get_function runtime (text "FindProxyForURL")) [
        | none ↦ none
        | some callable ↦ some (runtime, callable)
      ]

  -- `compile`, for the runtime of a number
  unfoldable pub compile : Loader R F → ℕ → Bytes → Option (R × F)
  compile loader i script =
      with_function loader (loader.run_string i (loader.pac_utils ++ (b'\n' ∷ script)))

  -- The loop of `buildPool`, from the slot `i` with `n` slots to come.
  unfoldable pub build_from : Loader R F → Bytes → ℕ → ℕ → Option (List (R × F))
  unfolding compile
  build_from loader script i zero = some []
  build_from loader script i (suc n) =
      and_slot (compile loader i script) (build_from loader script (suc i) n)

  -- `buildPool`; the size is the field `poolSize`, which is not negative.
  unfoldable pub build_pool : Loader R F → ℕ → Bytes → Option (List (R × F))
  unfolding build_from
  build_pool loader size script =
      build_from loader script 0 (if size == 0 then default_pool_size else size)

  abbrev pub swap_built :
      Evaluator → ℕ → Bytes → Option (List (R × F)) → Evaluator × Option (List (R × F))
  swap_built e now script none = (e, none)
  swap_built e now script (some slots) = (swap e now script, some slots)

  abbrev pub load_text :
      Loader R F → Evaluator → ℕ → Bytes → ℕ → Option Bytes → Evaluator × Option (List (R × F))
  load_text loader e now encoding size none = (e, none)
  load_text loader e now encoding size (some bytes) =
      let script = decode_text bytes encoding in
      swap_built e now script (build_pool loader size script)

  -- `loadAndSwap` with no other thread in between: the evaluator, and the slots of the pool or `none`
  -- for an error.
  unfoldable pub load_and_swap :
      Loader R F → Evaluator → ℕ → Bytes → Bytes → ℕ → Evaluator × Option (List (R × F))
  unfolding read_source decode_text build_pool swap
  load_and_swap loader e now source encoding size =
      load_text loader e now encoding size (read_source loader source)
