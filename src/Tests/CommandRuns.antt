-- ===== src/Tests/CommandRuns.antt =====
-- Runs of the command, for cmd/px/main.go.
use px_go.Prelude.{◌≡◌, refl, true, false, List, [], ◌∷◌, ◌++◌, none, some, All}
use px_go.Strings.{Bytes, text}
use px_go.Config.{ℤ, pos}
use px_go.Config.Load.{Machine, other, load}
use px_go.Command.{Outside, run, ask_quit}
use px_go.Command.Laws.{RunsWith, IsLoaded, run-IsLoaded}

-- A machine without configuration files.
abbrev bare : Machine ℤ
bare = record {
  floats = record {
    in_seconds = λ z. z;
    to_int = λ z. z;
    is_zero = λ z. false;
    one_decimal = λ z. [];
  };
  parse_seconds = λ s. none;
  paths = record { is_abs = λ p. true; join = λ a b. a ++ b; dir = λ p. p; script_dir = [] };
  join_all = λ ps. [];
  ext = λ p. [];
  goos = other;
  home = [];
  getwd = [];
  exists = λ p. false;
  read_ini = λ p. none;
  read_toml = λ p. none;
  read_dot_env = λ p. none;
}

abbrev outside : Outside
outside = record {
  parse_v6 = λ s. none;
  unix_nano = pos 0;
  make_dir = λ p. true;
  open_file = λ p. true;
  write_file = λ p. true;
  health_status = some 200;
  quit_status = none;
  installs = λ p. true;
  uninstalls = true;
  read_password = none;
  set_secret = λ service username password. true;
  starts = true;
  test_status = none;
  shutdown_fails = false;
  start_fails = false;
}

abbrev arguments : List Bytes
arguments = text "--allow=10.0.0.0/8" ∷ text "--quiet" ∷ []

run-IsLoaded_example :
    All (RunsWith (IsLoaded bare outside [] arguments)) (run bare outside [] arguments).0
run-IsLoaded_example = run-IsLoaded bare outside [] arguments

serves : (run bare outside [] arguments).1 ≡ true
unfolding run px_go.Config.Load.load_flags px_go.Config.Load.load_file px_go.Strings.trim_space
    px_go.Config.Load.load_from px_go.Config.Values.apply_env px_go.Strings.split
    px_go.Strings.equal_fold px_go.Strings.contains
serves = refl

bad_list : run bare outside [] (text "--allow=10.0.0.0/80" ∷ text "--quiet" ∷ []) ≡ ([], false)
unfolding run px_go.Config.Load.load_flags px_go.Config.Load.load_file px_go.Strings.trim_space
    px_go.Config.Load.load_from px_go.Config.Values.apply_env px_go.Config.parse_bool
    px_go.Strings.split px_go.Strings.equal_fold px_go.Strings.contains
bad_list = refl

quits : run bare outside [] (text "--quit" ∷ []) ≡ (ask_quit ∷ [], false)
unfolding run px_go.Config.Load.load_flags px_go.Config.Load.load_file px_go.Strings.trim_space
    px_go.Config.Load.load_from px_go.Config.Values.apply_env px_go.Config.parse_bool
quits = refl
