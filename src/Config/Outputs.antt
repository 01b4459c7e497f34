-- ===== src/Config/Outputs.antt =====
-- internal/config/config.go: what the program does with the settings. It saves them, and takes from
-- them its addresses and the file of its log. `F` is the type `float64`.
use px_go.Prelude.{ℕ, Bool, false, not, ◌||◌, List, [], ◌∷◌, ◌++◌, ◌==◌, if◌then◌else◌}
use px_go.Strings.{Bytes, text, equal_fold, is_empty, contains}
use px_go.Config.{ℤ, pos, negsuc, Config}
use px_go.Config.Numbers.{itoa}
use px_go.Config.Files.{TomlConfig, save_ini, save_toml}
use px_go.Config.Load.{Machine, base_or}

-- What `Save` does: the file that it writes, unless its directory cannot be made.
pub data SavedFile (F : Type 0) : Type 0 where
  not_saved : SavedFile F
  toml_file : TomlConfig F → SavedFile F
  ini_file : List (Bytes × List (Bytes × Bytes)) → SavedFile F

module _ {F : Type 0} where
  -- `Save`; `make_dir` is the success of `os.MkdirAll`.
  unfoldable pub save : Machine F → (Bytes → Bool) → Config → Bytes → SavedFile F
  unfolding save_ini save_toml
  save o make_dir c path =
      if not (make_dir (o.paths.dir path))
      then not_saved
      else if equal_fold (o.ext path) (text ".toml")
      then toml_file (save_toml o.floats c)
      else ini_file (save_ini o.floats c)

-- `net.JoinHostPort`
unfoldable pub join_host_port : Bytes → Bytes → Bytes
unfolding contains
join_host_port host port =
    if contains host (text ":")
    then text "[" ++ (host ++ (text "]:" ++ port))
    else host ++ (text ":" ++ port)

-- The loop of `ListenAddresses`
unfoldable pub listen_on : Bytes → List Bytes → List Bytes
unfolding join_host_port
listen_on port [] = []
listen_on port (listen ∷ more) = join_host_port listen port ∷ listen_on port more

unfoldable pub listen_addresses : Config → List Bytes
unfolding listen_on itoa
listen_addresses c =
    if c.proxy.gateway || c.proxy.host_only
    then (text ":" ++ itoa c.proxy.port) ∷ []
    else listen_on (itoa c.proxy.port) c.proxy.listen

unfoldable pub health_url : Config → Bytes
unfolding itoa
health_url c = text "http://127.0.0.1:" ++ (itoa c.proxy.port ++ text "/health")

abbrev own_name : Config → ℤ → Bytes
own_name c unix_nano =
    text "debug-" ++ (itoa c.proxy.port ++ (text "-" ++ (itoa unix_nano ++ text ".log")))

abbrev is_int : ℕ → ℤ → Bool
is_int k (pos n) = n == k
is_int k (negsuc n) = false

-- Where `NewLogger` sends the log, or the step that fails.
pub data LogOutput : Type 0 where
  discard stdout mkdir_failed open_failed : LogOutput
  log_file : Bytes → LogOutput

module _ {F : Type 0} where
  -- The `switch` of `resolveLogPath`
  abbrev numbered_path : Machine F → ℤ → Config → Bytes
  numbered_path o unix_nano c =
      if is_int 1 c.settings.log
      then o.paths.join o.paths.script_dir (text "debug.log")
      else if is_int 2 c.settings.log
      then o.paths.join o.getwd (text "debug.log")
      else if is_int 3 c.settings.log
      then o.paths.join o.getwd (own_name c unix_nano)
      else []

  -- `resolveLogPath`, at a time in nanoseconds.
  unfoldable pub resolve_log_path : Machine F → ℤ → Config → Bytes
  unfolding itoa
  resolve_log_path o unix_nano c = base_or c.settings.log_file (numbered_path o unix_nano c)

  abbrev opened : Machine F → (Bytes → Bool) → (Bytes → Bool) → Bytes → LogOutput
  opened o make_dir open_file path =
      if is_empty path
      then discard
      else if not (make_dir (o.paths.dir path))
      then mkdir_failed
      else if open_file path
      then log_file path
      else open_failed

  -- `NewLogger`; the tests are the success of `os.MkdirAll` and of `os.OpenFile`.
  unfoldable pub new_logger : Machine F → ℤ → (Bytes → Bool) → (Bytes → Bool) → Config → LogOutput
  unfolding resolve_log_path
  new_logger o unix_nano make_dir open_file c =
      if is_int 0 c.settings.log
      then discard
      else if is_int 4 c.settings.log
      then stdout
      else opened o make_dir open_file (resolve_log_path o unix_nano c)
