-- ===== src/Tests/LoadRuns.antt =====
-- Settings that are loaded, for internal/config/config.go.
use px_go.Prelude.{◌≡◌, refl, true, false, List, [], ◌∷◌, ◌++◌, Option, none, some, if◌then◌else◌}
use mathlib.Core.List.{Permᴰ}
use px_go.Strings.{Bytes, text, equal}
use px_go.Config.{ℤ, pos, negsuc, Paths, default}
use px_go.Config.Values.{atoi, apply_values}
use px_go.Config.Laws.{IsDistinct}
use px_go.Config.Order.{keys, apply_values-Perm}
use px_go.Config.Files.{Floats}
use px_go.Config.Load.{Machine, other, missing_config, load}
use px_go.Config.Load.Laws.{IsReady, Resolves, IsReadFrom, load-IsReady}

abbrev no_seconds : Bytes → Option ℤ
no_seconds s = none

abbrev paths : Paths
paths = record {
  is_abs = λ p. true;
  join = λ a b. a ++ (text "/" ++ b);
  dir = λ p. text "d";
  script_dir = text "s";
}

abbrev floats : Floats ℤ
floats = record {
  in_seconds = λ z. z;
  to_int = λ z. z;
  is_zero = λ z. false;
  one_decimal = λ z. text "20.0";
}

-- A file s/px.ini with an entry for the port.
abbrev machine : Machine ℤ
machine = record {
  floats = floats;
  parse_seconds = no_seconds;
  paths = paths;
  join_all = λ ps. text "home";
  ext = λ p. text ".ini";
  goos = other;
  home = [];
  getwd = text "w";
  exists = λ p. equal p (text "s/px.ini");
  read_ini = λ p. some (λ section key. if equal key (text "port") then text "8080" else []);
  read_toml = λ p. none;
  read_dot_env = λ p. none;
}

abbrev arguments : List Bytes
arguments = text "--server=a:1, b:2" ∷ text "--gateway" ∷ []

loads : (load machine [] arguments).err ≡ none
unfolding load px_go.Config.Load.load_flags px_go.Config.Load.load_file px_go.Strings.trim_space
    px_go.Config.Load.load_from px_go.Strings.equal_fold atoi px_go.Config.Values.apply_env
loads = refl

port_of_file : (load machine [] arguments).config.proxy.port ≡ pos 8080
unfolding load px_go.Config.Load.load_flags px_go.Config.Load.load_file px_go.Strings.trim_space
    px_go.Config.Load.load_from px_go.Strings.equal_fold atoi px_go.Config.Values.apply_env
port_of_file = refl

missing : (load machine [] (text "--config=x" ∷ [])).err ≡ some missing_config
unfolding load px_go.Config.Load.load_flags px_go.Config.Load.load_file px_go.Strings.trim_space
missing = refl

load-IsReady_example :
    IsReady (load machine [] arguments).config
    × Resolves machine [] arguments (load machine [] arguments).config.special.config_path
    × IsReadFrom machine [] arguments
        (load machine [] arguments).config.special.config_path
        (load machine [] arguments).config
load-IsReady_example = load-IsReady machine [] arguments loads

abbrev two : List (Bytes × Bytes)
two = (text "server", text "a:1") ∷ (text "proxy", text "b:2") ∷ []

abbrev owt : List (Bytes × Bytes)
owt = (text "proxy", text "b:2") ∷ (text "server", text "a:1") ∷ []

two-IsDistinct : IsDistinct (keys two)
unfolding equal
two-IsDistinct = (refl, (refl, tt))

apply_values-Perm_example :
    apply_values no_seconds default two ≡ apply_values no_seconds default owt
apply_values-Perm_example =
    apply_values-Perm no_seconds default two owt two-IsDistinct ∣ Permᴰ.swap refl refl ∣₁
