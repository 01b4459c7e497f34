-- ===== src/Config/Load.antt =====
-- internal/config/config.go: `Load`, the search for the configuration file and the files with variables.
-- `F` is the type `float64`.
pub mod Laws
use px_go.Prelude.{
  ℕ, Bool, true, false, not, ◌&&◌, ◌||◌, List, [], ◌∷◌, ◌++◌, Option, none, some, ◌==◌,
  if◌then◌else◌,
}
use px_go.Strings.{Bytes, text, equal_fold, is_empty, is_member, trim_space, contains}
use px_go.Dict.{lookup, insert}
use px_go.Config.{
  ℤ, pos, negsuc, Config, ConfigError, Paths, default, parse_args, normalize, validate,
}
use px_go.Config.Values.{apply_values, apply_env}
use px_go.Config.Numbers.{itoa}
use px_go.Config.Files.{Floats, FileError, TomlConfig, apply_ini, apply_toml}

-- The system that `runtime.GOOS` names.
pub data Goos : Type 0 where
  windows darwin other : Goos

-- What `Load` asks of the operating system and of other packages: `getwd` is the working directory,
-- `exists` the success of `os.Stat`, and `read_dot_env` what `godotenv` reads of a file, which is
-- `none` for an error.
pub record Machine (F : Type 0) : Type 0 where
  pub floats : Floats F
  pub parse_seconds : Bytes → Option ℤ
  pub paths : Paths
  pub join_all : List Bytes → Bytes
  pub ext : Bytes → Bytes
  pub goos : Goos
  pub home : Bytes
  pub getwd : Bytes
  pub exists : Bytes → Bool
  pub read_ini : Bytes → Option (Bytes → Bytes → Bytes)
  pub read_toml : Bytes → Option (TomlConfig F)
  pub read_dot_env : Bytes → Option (List (Bytes × Bytes))

abbrev pub Vars : Type 0
Vars = List (Bytes × Bytes)

abbrev or_blank : Option Bytes → Bytes
or_blank none = []
or_blank (some v) = v

-- `os.Getenv`, and `valueOrEmpty`
unfoldable pub value_or_empty : Vars → Bytes → Bytes
unfolding lookup
value_or_empty values key = or_blank (lookup key values)

abbrev pub base_or : Bytes → Bytes → Bytes
base_or [] fallback = fallback
base_or (c ∷ s) fallback = c ∷ s

-- `LookupEnv` for one key and `Setenv`, unless it is set.
abbrev set_missing : Option Bytes → Bytes → Bytes → Vars → Vars
set_missing none key v vars = insert key v vars
set_missing (some _) key v vars = vars

unfoldable pub add_missing : Vars → Vars → Vars
unfolding lookup insert
add_missing vars [] = vars
add_missing vars ((key, v) ∷ more) = add_missing (set_missing (lookup key vars) key v vars) more

-- `godotenv.Load`, which leaves a variable that is set already.
abbrev load_vars : Option Vars → Vars → Vars
load_vars none vars = vars
load_vars (some more) vars = add_missing vars more

-- The first path that exists
unfoldable pub first_existing : (Bytes → Bool) → List Bytes → Option Bytes
first_existing exists [] = none
first_existing exists (p ∷ ps) =
    let rest = first_existing exists ps in if exists p then some p else rest

module _ {F : Type 0} where
  -- `ConfigDir`
  unfoldable pub config_dir : Machine F → Vars → Bytes
  unfolding value_or_empty
  config_dir o vars = elim o.goos [
    | windows ↦ o.join_all (
        base_or (value_or_empty vars (text "APPDATA"))
          (o.join_all (o.home ∷ text "AppData" ∷ text "Roaming" ∷ []))
        ∷ text "px"
        ∷ [])
    | darwin ↦ o.join_all (o.home ∷ text "Library" ∷ text "Application Support" ∷ text "px" ∷ [])
    | other ↦ o.join_all (
        base_or (value_or_empty vars (text "XDG_CONFIG_HOME"))
          (o.join_all (o.home ∷ text ".config" ∷ []))
        ∷ text "px"
        ∷ [])
  ]

  -- The paths that are tried, in order.
  unfoldable pub candidates : Machine F → List Bytes → List Bytes
  candidates o [] = []
  candidates o (dir ∷ dirs) =
      o.paths.join dir (text "px.toml") ∷ o.paths.join dir (text "px.ini") ∷ candidates o dirs

  abbrev discovered : Machine F → Vars → Bytes
  discovered o vars = or_blank (
      first_existing o.exists
        (candidates o (o.getwd ∷ config_dir o vars ∷ o.paths.script_dir ∷ [])))

  -- `none` is the error for an explicit path that does not exist; the empty path stands for no file.
  unfoldable pub resolve_config_path : Machine F → Vars → Bytes → Option Bytes
  unfolding first_existing candidates config_dir value_or_empty
  resolve_config_path o vars explicit =
      let variable = trim_space (value_or_empty vars (text "PX_CONFIG")) in
      if not (is_empty explicit)
      then (if o.exists explicit then some explicit else none)
      else if not (is_empty variable) && o.exists variable
      then some variable
      else some (discovered o vars)

  unfoldable pub load_files : Machine F → List Bytes → List Bytes → Vars → Vars
  unfolding add_missing
  load_files o seen [] vars = vars
  load_files o seen (file ∷ files) vars =
      let skipped = load_files o seen files vars in
      let loaded = load_files o (file ∷ seen) files (load_vars (o.read_dot_env file) vars) in
      if is_member file seen then skipped else loaded

  -- `loadDotEnv`: the variables afterwards.
  unfoldable pub load_dot_env : Machine F → Bytes → Vars → Vars
  unfolding load_files
  load_dot_env o config_path vars =
      let beside = o.paths.join (o.paths.dir config_path) (text ".env") ∷ [] in
      load_files o []
        (o.paths.join o.getwd (text ".env")
          ∷ ((if is_empty config_path then [] else beside)
              ++ (o.paths.join o.paths.script_dir (text ".env") ∷ [])))
        vars

  -- The file that `Load` reads, by its extension; an empty path is no file.
  unfoldable pub apply_file : Machine F → Config → Bytes → Config × Option FileError
  unfolding apply_ini apply_toml
  apply_file o c path =
      if is_empty path
      then (c, none)
      else if equal_fold (o.ext path) (text ".toml")
      then apply_toml o.floats o.parse_seconds c (o.read_toml path)
      else apply_ini o.parse_seconds c (o.read_ini path)

pub data LoadError : Type 0 where
  unsupported_argument : LoadError
  missing_config : LoadError
  bad_file : FileError → LoadError
  bad_flag : Bytes → LoadError
  invalid : ConfigError → LoadError

-- The settings and the error of `Load`, and the variables that it leaves.
pub record Loaded : Type 0 where
  pub config : Config
  pub err : Option LoadError
  pub vars : Vars

abbrev pub set_path : Config → Bytes → Config
set_path c path = record c { special = record c.special { config_path = path } }

abbrev invalid_or_none : Option ConfigError → Option LoadError
invalid_or_none none = none
invalid_or_none (some e) = some (invalid e)

module _ {F : Type 0} where
  -- The end of `Load`: the flags are applied, or one of them is bad.
  unfoldable pub finish : Machine F → Vars → Bytes → Config × Option Bytes → Loaded
  unfolding normalize validate
  finish o vars path (c, some key) = record { config = c; err = some (bad_flag key); vars = vars }
  finish o vars path (c, none) =
      let done = normalize o.paths (set_path c path) in
      record { config = done; err = invalid_or_none (validate done); vars = vars }

  -- The part of `Load` behind the configuration file.
  unfoldable pub load_from : Machine F → Vars → Vars → Bytes → Config × Option FileError → Loaded
  unfolding finish load_dot_env
  load_from o vars cli path (c, some e) = record {
    config = c;
    err = some (bad_file e);
    vars = vars;
  }
  load_from o vars cli path (c, none) =
      let after = load_dot_env o path vars in
      let from_env = apply_env o.parse_seconds (λ key. lookup key after) c in
      finish o after path (apply_values o.parse_seconds from_env cli)

  unfoldable pub load_file : Machine F → Vars → Vars → Option Bytes → Loaded
  unfolding apply_file
  load_file o vars cli none = record { config = default; err = some missing_config; vars = vars }
  load_file o vars cli (some path) =
      load_from o vars cli path (apply_file o (set_path default path) path)

  unfoldable pub load_flags : Machine F → Vars → Option Vars → Loaded
  unfolding resolve_config_path value_or_empty
  load_flags o vars none = record { config = default; err = some unsupported_argument; vars = vars }
  load_flags o vars (some cli) =
      load_file o vars cli (resolve_config_path o vars (value_or_empty cli (text "config")))

  -- `Load`, for the variables and the arguments of the process.
  unfoldable pub load : Machine F → Vars → List Bytes → Loaded
  unfolding parse_args
  load o vars args = load_flags o vars (parse_args args)
