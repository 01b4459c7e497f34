-- ===== src/Config.antt =====
-- internal/config/config.go: the settings, their defaults, how the arguments and the variables of
-- the environment are read into them, and the checks at the end of `Load`.
pub mod Values
pub mod Laws
pub mod Order
pub mod Machine
pub mod Numbers
pub mod Files
pub mod Load
pub mod Outputs
pub mod RoundTrip
use px_go.Prelude.{
  ℕ, suc, ◌+◌, ◌-◌, ◌*◌, ◌%◌, ◌^◌, Bool, true, false, not, ◌&&◌, ◌||◌, List, [], ◌∷◌, Option, none,
  some, ltb, leb, ◌==◌, if◌then◌else◌,
}
use px_go.Strings.{
  is_member, Bytes, text, equal, is_empty, to_lower, to_upper, trim_space, has_prefix, trim_prefix,
  cut, replace_all,
}
use px_go.Dict.{lookup, insert}
use px_go.Network.{decimal_from, split_csv}

pub data ℤ : Type 0 where
  pos : ℕ → ℤ
  negsuc : ℕ → ℤ

-- The levels of `log/slog` that `parseLevel` names.
pub data Level : Type 0 where
  debug info warn fault : Level

pub record Proxy : Type 0 where
  pub server : List Bytes
  pub pac : Bytes
  pub pac_encoding : Bytes
  pub listen : List Bytes
  pub port : ℤ
  pub gateway : Bool
  pub host_only : Bool
  pub allow : Bytes
  pub no_proxy : Bytes
  pub user_agent : Bytes
  pub username : Bytes
  pub auth : Bytes
  pub kerberos : Bool

pub record Client : Type 0 where
  pub username : Bytes
  pub auth : Bytes
  pub no_sspi : Bool

-- Durations are in nanoseconds.
pub record Settings : Type 0 where
  pub workers : ℤ
  pub threads : ℤ
  pub idle : ℤ
  pub sock_timeout : ℤ
  pub proxy_reload : ℤ
  pub foreground : Bool
  pub quiet : Bool
  pub log : ℤ
  pub log_file : Bytes
  pub log_level : Level

pub record Special : Type 0 where
  pub config_path : Bytes
  pub quit : Bool
  pub restart : Bool
  pub test_url : Bytes
  pub install : Bool
  pub uninstall : Bool
  pub save : Bool
  pub version : Bool
  pub health_check : Bool
  pub password : Bool
  pub client_password : Bool

pub record Config : Type 0 where
  pub proxy : Proxy
  pub client : Client
  pub settings : Settings
  pub special : Special

-- `time.Second`
abbrev second : ℕ
second = 1000000000

-- `Default`
abbrev pub default : Config
default = record {
  proxy = record {
    server = [];
    pac = [];
    pac_encoding = text "utf-8";
    listen = text "127.0.0.1" ∷ [];
    port = pos 3128;
    gateway = false;
    host_only = false;
    allow = text "*.*.*.*";
    no_proxy = [];
    user_agent = [];
    username = [];
    auth = text "ANY";
    kerberos = false;
  };
  client = record { username = []; auth = text "NONE"; no_sspi = false };
  settings = record {
    workers = pos 1;
    threads = pos 128;
    idle = pos (300 * second);
    sock_timeout = pos (20 * second);
    proxy_reload = pos (60 * second);
    foreground = false;
    quiet = false;
    log = pos 0;
    log_file = [];
    log_level = info;
  };
  special = record {
    config_path = [];
    quit = false;
    restart = false;
    test_url = [];
    install = false;
    uninstall = false;
    save = false;
    version = false;
    health_check = false;
    password = false;
    client_password = false;
  };
}

-- `parseBool`
unfoldable pub parse_bool : Bytes → Bool
unfolding to_lower trim_space equal
parse_bool raw =
    let word = to_lower (trim_space raw) in
    equal word (text "1")
    || equal word (text "true")
    || equal word (text "yes")
    || equal word (text "y")
    || equal word (text "on")

-- `parseLevel`
unfoldable pub parse_level : Bytes → Option Level
unfolding to_upper trim_space equal
parse_level raw =
    let word = to_upper (trim_space raw) in
    if equal word (text "DEBUG")
    then some debug
    else if equal word (text "INFO") || equal word []
    then some info
    else if equal word (text "WARN") || equal word (text "WARNING")
    then some warn
    else if equal word (text "ERROR")
    then some fault
    else none

-- The loop of `normalizeCSV`; `seen` is its set.
unfoldable pub normalize_from : List Bytes → List Bytes → List Bytes
normalize_from seen [] = []
normalize_from seen (item ∷ items) =
    let trimmed = trim_space item in
    let skipped = normalize_from seen items in
    let taken = normalize_from (trimmed ∷ seen) items in
    if is_empty trimmed || is_member trimmed seen then skipped else trimmed ∷ taken

unfoldable pub normalize_csv : List Bytes → List Bytes
unfolding normalize_from
normalize_csv values = normalize_from [] values

-- The value of the flag `arg` when it has no `=`: the next argument, unless that is a flag.
unfoldable next_value : List Bytes → Option Bytes
unfolding has_prefix
next_value [] = none
next_value (arg ∷ _) = if has_prefix arg (text "--") then none else some arg

-- The value of a flag, and whether the next argument is used up.
abbrev flag_value : Option Bytes → Option Bytes → Bytes × Bool
flag_value (some val) _ = (val, false)
flag_value none (some val) = (val, true)
flag_value none none = (text "true", false)

-- The loop of `parseArgs`; the Boolean says that the previous flag has used the next argument up.
unfoldable pub parse_args_from :
    List (Bytes × Bytes) → Bool → List Bytes → Option (List (Bytes × Bytes))
unfolding has_prefix trim_prefix replace_all next_value insert cut
parse_args_from values _ [] = some values
parse_args_from values true (_ ∷ args) = parse_args_from values false args
parse_args_from values false (arg ∷ args) =
    let (name, assigned) = cut b'=' (trim_prefix arg (text "--")) in
    let key = replace_all (trim_space name) (text "-") (text "_") in
    let (val, used) = flag_value assigned (next_value args) in
    let rest = parse_args_from (insert (to_lower key) (trim_space val) values) used args in
    if has_prefix arg (text "--") then rest else none

unfoldable pub parse_args : List Bytes → Option (List (Bytes × Bytes))
unfolding parse_args_from
parse_args args = parse_args_from [] false args

-- The paths that `resolvePACPath` asks the operating system and `path/filepath` about.
pub record Paths : Type 0 where
  pub is_abs : Bytes → Bool
  pub join : Bytes → Bytes → Bytes
  pub dir : Bytes → Bytes
  pub script_dir : Bytes

unfoldable pub resolve_pac_path : Paths → Bytes → Bytes → Bytes
unfolding has_prefix
resolve_pac_path o pac config_path =
    let trimmed = trim_space pac in
    let lower = to_lower trimmed in
    let base = if is_empty config_path then o.script_dir else o.dir config_path in
    if is_empty trimmed
    then []
    else if has_prefix lower (text "http://")
        || has_prefix lower (text "https://")
        || has_prefix lower (text "file://")
    then trimmed
    else if o.is_abs trimmed
    then trimmed
    else o.join base trimmed

abbrev or_default : Bytes → Bytes → Bytes
or_default fallback [] = fallback
or_default fallback (c ∷ s) = c ∷ s

abbrev or_loopback : List Bytes → List Bytes
or_loopback [] = text "127.0.0.1" ∷ []
or_loopback (a ∷ rest) = a ∷ rest

-- `(*Config).normalize`
unfoldable pub normalize : Paths → Config → Config
unfolding to_upper trim_space
normalize o c =
    let listen = or_loopback (normalize_csv c.proxy.listen) in
    let p = record c.proxy {
      server = normalize_csv c.proxy.server;
      listen = if c.proxy.gateway || c.proxy.host_only then [] else listen;
      auth = or_default (text "ANY") (to_upper (trim_space c.proxy.auth));
      pac = resolve_pac_path o c.proxy.pac c.special.config_path;
    } in
    let auth = or_default (text "NONE") (to_upper (trim_space c.client.auth)) in
    record c { proxy = p; client = record c.client { auth = auth } }

abbrev pub is_positive : ℤ → Bool
is_positive (pos n) = ltb 0 n
is_positive (negsuc n) = false

abbrev pub is_port : ℤ → Bool
is_port (pos n) = ltb 0 n && leb n 65535
is_port (negsuc n) = false

pub data ConfigError : Type 0 where
  invalid_port invalid_threads invalid_workers : ConfigError

-- `Config.validate`; `none` is no error.
unfoldable pub validate : Config → Option ConfigError
validate c =
    if not (is_port c.proxy.port)
    then some invalid_port
    else if not (is_positive c.settings.threads)
    then some invalid_threads
    else if not (is_positive c.settings.workers)
    then some invalid_workers
    else none
