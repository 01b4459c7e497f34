-- ===== src/Config/Load/Laws.antt =====
-- internal/config/config.go: what `Load` guarantees of the settings it returns.
use px_go.Prelude.{
  ◌∙◌, ◌≡◌, ◌≢◌, refl, sym, ap, inl, inr, ◌||◌, List, [], ◌∷◌, Option, none, some, arith,
  Bool-cases,
}
use mathlib.Core.Path.{subst}
use px_go.Strings.{Bytes, text}
use px_go.Config.{
  Config, Paths, normalize, validate, normalize_csv, parse_args, or_loopback, default,
}
use px_go.Dict.{lookup}
use px_go.Config.Values.{apply_values, apply_env}
use px_go.Config.Laws.{IsDistinct, IsValid, normalize_csv-IsDistinct, validate-IsValid}
use px_go.Config.Files.{FileError}
use px_go.Config.Load.{
  Machine, Vars, value_or_empty, resolve_config_path, load_dot_env, apply_file, finish, load_from,
  load_file, load_flags, load, set_path,
}
use px_go.Config.Outputs.{listen_addresses, listen_on}

-- What the rest of the program relies on: a legal port, some threads and workers, an address to
-- listen on, and upstream servers without duplicates.
abbrev pub IsReady : Config → Type 0
IsReady c = IsValid c × (listen_addresses c ≢ []) × IsDistinct c.proxy.server

listen_on-or_loopback : (port : Bytes) (l : List Bytes) → listen_on port (or_loopback l) ≢ []
unfolding listen_on
listen_on-or_loopback port [] e = cc e
listen_on-or_loopback port (a ∷ l) e = cc e

normalize-listens : (p : Paths) (c : Config) → listen_addresses (normalize p c) ≢ []
unfolding normalize listen_addresses
normalize-listens p c = elim (Bool-cases (c.proxy.gateway || c.proxy.host_only)) [
  | inl t ↦ rw t (λ e. cc e)
  | inr t ↦ rw t (listen_on-or_loopback _ (normalize_csv c.proxy.listen))
]

normalize-IsReady :
    (p : Paths) (c : Config) → validate (normalize p c) ≡ none → IsReady (normalize p c)
unfolding normalize
normalize-IsReady p c e = (
  (validate-IsValid (normalize p c)).0 e,
  normalize-listens p c,
  normalize_csv-IsDistinct c.proxy.server,
)

module _ {F : Type 0} where
  -- The file that the arguments, the variables and the file system lead to.
  abbrev pub Resolves : Machine F → Vars → List Bytes → Bytes → Type 0
  Resolves o vars args path =
      (cli : Vars) × (parse_args args ≡ some cli)
      × (resolve_config_path o vars (value_or_empty cli (text "config")) ≡ some path)

  -- `c` is the default settings with the entries of the file at `path`, and the settings `done` are `c`
  -- with the values of the variables, which `.env` files may add to, and then those of the flags.
  abbrev pub IsReadFrom : Machine F → Vars → List Bytes → Bytes → Config → Type 0
  IsReadFrom o vars args path done =
      (cli : Vars) × (c : Config) × (d : Config) × (parse_args args ≡ some cli)
      × (apply_file o (set_path default path) path ≡ (c, none))
      × (apply_values o.parse_seconds
            (apply_env o.parse_seconds (λ key. lookup key (load_dot_env o path vars)) c) cli
          ≡ (d, none))
      × (done ≡ normalize o.paths (set_path d path))

  finish-IsReady :
      (o : Machine F) (vars : Vars) (path : Bytes) (p : Config × Option Bytes)
      → (finish o vars path p).err ≡ none
      → IsReady (finish o vars path p).config
        × ((finish o vars path p).config.special.config_path ≡ path)
        × ((d : Config) × (p ≡ (d, none))
            × ((finish o vars path p).config ≡ normalize o.paths (set_path d path)))
  unfolding finish normalize
  finish-IsReady o vars path (c, some key) e = cc e
  finish-IsReady o vars path (c, none) e =
      (normalize-IsReady o.paths (set_path c path) (ground arith), refl, (c, refl, refl))

  load_from-IsReady :
      (o : Machine F) (vars cli : Vars) (path : Bytes) (args : List Bytes)
      (p : Config × Option FileError)
      → parse_args args ≡ some cli
      → apply_file o (set_path default path) path ≡ p
      → (load_from o vars cli path p).err ≡ none
      → IsReady (load_from o vars cli path p).config
        × ((load_from o vars cli path p).config.special.config_path ≡ path)
        × IsReadFrom o vars args path (load_from o vars cli path p).config
  unfolding load_from
  load_from-IsReady o vars cli path args (c, some e) s r h = cc h
  load_from-IsReady o vars cli path args (c, none) s r h =
      let after = load_dot_env o path vars in
      let from_env = apply_env o.parse_seconds (λ key. lookup key after) c in
      let (ready, same, (d, applied, done)) =
        finish-IsReady o after path (apply_values o.parse_seconds from_env cli) h in
      (ready, same, (cli, c, d, s, r, applied, done))

  -- What is shown of settings, for the path of their file.
  abbrev IsLoadedFrom : Machine F → Vars → List Bytes → Config → Type 0
  IsLoadedFrom o vars args c =
      IsReady c
      × Resolves o vars args c.special.config_path
      × IsReadFrom o vars args c.special.config_path c

  load_file-IsReady :
      (o : Machine F) (vars cli : Vars) (args : List Bytes) (path : Option Bytes)
      → parse_args args ≡ some cli
      → resolve_config_path o vars (value_or_empty cli (text "config")) ≡ path
      → (load_file o vars cli path).err ≡ none
      → IsLoadedFrom o vars args (load_file o vars cli path).config
  unfolding load_file
  load_file-IsReady o vars cli args none s r e = cc e
  load_file-IsReady o vars cli args (some path) s r e =
      let (ready, same, read) =
        load_from-IsReady o vars cli path args (apply_file o (set_path default path) path) s refl
          e in
      (
        ready,
        (cli, s, r ∙ ap some (sym same)),
        subst (λ p. IsReadFrom o vars args p (load_file o vars cli (some path)).config) (sym same)
            read,
      )

  load_flags-IsReady :
      (o : Machine F) (vars : Vars) (args : List Bytes) (cli : Option Vars)
      → parse_args args ≡ cli
      → (load_flags o vars cli).err ≡ none
      → IsLoadedFrom o vars args (load_flags o vars cli).config
  unfolding load_flags
  load_flags-IsReady o vars args none s e = cc e
  load_flags-IsReady o vars args (some cli) s e =
      load_file-IsReady o vars cli args
        (resolve_config_path o vars (value_or_empty cli (text "config"))) s refl e

  -- `Load` without an error returns settings with a legal port, at least one thread and one worker, an
  -- address to listen on, and no upstream server twice. The path that they record is the one to which
  -- the arguments, the variables and the file system lead, and the settings are the defaults with the
  -- entries of the file at that path, the variables (`.env` files included) and the flags, in that order,
  -- normalized.
  pub load-IsReady :
      (o : Machine F) (vars : Vars) (args : List Bytes)
      → (load o vars args).err ≡ none
      → IsReady (load o vars args).config
        × Resolves o vars args (load o vars args).config.special.config_path
        × IsReadFrom o vars args
            (load o vars args).config.special.config_path
            (load o vars args).config
  unfolding load
  load-IsReady o vars args e = load_flags-IsReady o vars args (parse_args args) refl e
