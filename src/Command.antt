-- ===== src/Command.antt =====
-- cmd/px/main.go: the commands of the program, as the list of what a run does and its exit. What the
-- network, the terminal, the keyring and the installation answer is part of `Outside`.
pub mod Laws
use px_go.Prelude.{
  ℕ, Bool, true, false, not, ◌&&◌, ◌||◌, List, [], ◌∷◌, ◌++◌, Option, none, some, leb, ◌==◌,
  if◌then◌else◌,
}
use px_go.Strings.{Bytes, text, equal, is_empty}
use px_go.Network.{Addr, Matcher, Outcome, value, ◌>>=◌, parse}
use px_go.Config.{ℤ, Config}
use px_go.Config.Load.{Machine, Vars, Loaded, load}
use px_go.Config.Outputs.{
  SavedFile, not_saved, save, LogOutput, mkdir_failed, open_failed, new_logger,
}

-- `read_password` is `none` for an error, and `set_secret` the success of `keyring.Set` for a
-- service, a user name and a password. `status` is the status of the answer to a GET request, and
-- `none` if there is none.
pub record Outside : Type 0 where
  pub parse_v6 : Bytes → Option Addr
  pub unix_nano : ℤ
  pub make_dir : Bytes → Bool
  pub open_file : Bytes → Bool
  pub write_file : Bytes → Bool
  pub health_status : Option ℕ
  pub quit_status : Option ℕ
  pub installs : Bytes → Bool
  pub uninstalls : Bool
  pub read_password : Option Bytes
  pub set_secret : Bytes → Bytes → Bytes → Bool
  -- Whether `Start` returns without an error, and in the test mode the status of the answer, whether
  -- `Shutdown` fails, and whether `Start` fails within two seconds of it.
  pub starts : Bool
  pub test_status : Option ℕ
  pub shutdown_fails : Bool
  pub start_fails : Bool

pub data Action : Type 0 where
  print_version check_health ask_quit pause log_startup uninstall : Action
  save_file : Bytes → Action
  store_secret : Bytes → Bytes → Bytes → Action
  install : Bytes → Action
  serve : Config → Action
  -- The server, and the URL that is requested through it.
  serve_test : Config → Bytes → Action

-- The actions of a run, and whether it ends without an error.
abbrev pub Outcomes : Type 0
Outcomes = List Action × Bool

-- `HealthCheck` and `quit` succeed
abbrev is_ok : Option ℕ → Bool
is_ok none = false
is_ok (some status) = status == 200

-- `setPassword` and `setClientPassword` with the password that was read
abbrev pub store_password : Outside → Bytes → Bytes → Option Bytes → Outcomes
store_password out service username none = ([], false)
store_password out service username (some []) = ([], false)
store_password out service username (some (c ∷ s)) =
    (store_secret service username (c ∷ s) ∷ [], out.set_secret service username (c ∷ s))

unfoldable pub set_password : Outside → Bytes → Bytes → Outcomes
set_password out service username =
    if is_empty username then ([], false) else store_password out service username out.read_password

-- The error of `proxy.New`: one of the two lists does not parse.
unfoldable pub parse_lists : Outside → Config → Outcome (Matcher × Matcher)
unfolding parse
parse_lists out c = do
  allow ← parse out.parse_v6 c.proxy.allow
  noproxy ← parse out.parse_v6 c.proxy.no_proxy
  value (allow, noproxy)

-- The address that `runTestMode` requests
abbrev test_target : Bytes → Bytes
test_target target =
    if equal target (text "all") || equal target (text "1") || equal target (text "true")
    then text "http://httpbin.org/get"
    else target

-- `runTestMode`
abbrev test_passes : Outside → Option ℕ → Bool
test_passes out none = false
test_passes out (some status) =
    if leb 400 status then false else if out.shutdown_fails then false else not out.start_fails

unfoldable pub run_test_mode : Outside → Config → Outcomes
unfolding equal
run_test_mode out c =
    (serve_test c (test_target c.special.test_url) ∷ [], test_passes out out.test_status)

-- The end of `run`, where the server is made.
unfoldable pub run_server : Outside → Config → Outcome (Matcher × Matcher) → Outcomes
unfolding run_test_mode
run_server out c (value _) =
    if is_empty c.special.test_url then (serve c ∷ [], out.starts) else run_test_mode out c
run_server out c _ = ([], false)

abbrev pub then_do : List Action → Outcomes → Outcomes
then_do first (rest, ok) = (first ++ rest, ok)

abbrev is_saved : {F : Type 0} → Outside → Bytes → SavedFile F → Bool
is_saved out path not_saved = false
is_saved out path _ = out.write_file path

-- `run` behind the restart
unfoldable pub run_service : Outside → Config → Outcomes
unfolding run_server parse_lists
run_service out c =
    let started = run_server out c (parse_lists out c) in
    if c.special.quit
    then (ask_quit ∷ [], is_ok out.quit_status)
    else if c.special.install
    then (install c.special.config_path ∷ [], out.installs c.special.config_path)
    else if c.special.uninstall
    then (uninstall ∷ [], out.uninstalls)
    else then_do (if c.settings.quiet then [] else log_startup ∷ []) started

-- `run` behind `NewLogger`
unfoldable pub run_logged : Outside → Config → LogOutput → Outcomes
unfolding run_service
run_logged out c mkdir_failed = ([], false)
run_logged out c open_failed = ([], false)
run_logged out c _ =
    then_do (if c.special.restart then ask_quit ∷ pause ∷ [] else []) (run_service out c)

module _ {F : Type 0} where
  abbrev save_path : Machine F → Config → Bytes
  save_path o c =
      if is_empty c.special.config_path
      then o.paths.join (text ".") (text "px.toml")
      else c.special.config_path

  -- `run` behind `Load`
  unfoldable pub run_loaded : Machine F → Outside → Config → Outcomes
  unfolding run_logged set_password save new_logger
  run_loaded o out c =
      let path = save_path o c in
      if c.special.version
      then (print_version ∷ [], true)
      else if c.special.health_check
      then (check_health ∷ [], is_ok out.health_status)
      else if c.special.save
      then (save_file path ∷ [], is_saved out path (save o out.make_dir c path))
      else if c.special.password
      then set_password out (text "Px") c.proxy.username
      else if c.special.client_password
      then set_password out (text "PxClient") c.client.username
      else run_logged out c (new_logger o out.unix_nano out.make_dir out.open_file c)

  unfoldable pub run_from : Machine F → Outside → Loaded → Outcomes
  unfolding run_loaded
  run_from o out l = elim l.err [ none ↦ run_loaded o out l.config | some _ ↦ ([], false) ]

  -- `run`
  unfoldable pub run : Machine F → Outside → Vars → List Bytes → Outcomes
  unfolding run_from load
  run o out vars args = run_from o out (load o vars args)
