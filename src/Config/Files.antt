-- ===== src/Config/Files.antt =====
-- internal/config/config.go: the configuration files that are read and saved. Reading and writing
-- the formats is library code: an INI file is its function from a section and a key to a text, and a
-- TOML file the structure that is decoded. `F` is the type `float64`.
use px_go.Prelude.{Bool, false, ◌||◌, List, [], ◌∷◌, ◌++◌, Option, none, some, ◌==◌, if◌then◌else◌}
use px_go.Strings.{Bytes, text, trim_space, join}
use px_go.Dict.{insert}
use px_go.Config.{ℤ, pos, negsuc, Level, debug, info, warn, fault, Proxy, Client, Config}
use px_go.Config.Values.{apply_values}
use px_go.Config.Numbers.{itoa}

-- `boolString`
abbrev pub bool_string : Bool → Bytes
bool_string v = if v then text "1" else text "0"

-- `Level.String`
abbrev pub level_string : Level → Bytes
level_string debug = text "DEBUG"
level_string info = text "INFO"
level_string warn = text "WARN"
level_string fault = text "ERROR"

-- What the files need of `float64`: `Duration.Seconds`, its conversion to `int`, the comparison with
-- 0, and `FormatFloat` with one decimal.
pub record Floats (F : Type 0) : Type 0 where
  pub in_seconds : ℤ → F
  pub to_int : F → ℤ
  pub is_zero : F → Bool
  pub one_decimal : F → Bytes

-- An error of the functions that read a file: the file itself, or the key with a bad value.
pub data FileError : Type 0 where
  unreadable : FileError
  bad_value : Bytes → FileError

abbrev pub key_error : Option Bytes → Option FileError
key_error none = none
key_error (some key) = some (bad_value key)

abbrev pub proxy_keys : List Bytes
proxy_keys =
    text "server"
    ∷ text "pac"
    ∷ text "pac_encoding"
    ∷ text "listen"
    ∷ text "port"
    ∷ text "gateway"
    ∷ text "hostonly"
    ∷ text "allow"
    ∷ text "noproxy"
    ∷ text "useragent"
    ∷ text "username"
    ∷ text "auth"
    ∷ text "kerberos"
    ∷ []

abbrev pub client_keys : List Bytes
client_keys = text "client_username" ∷ text "client_auth" ∷ text "client_nosspi" ∷ []

abbrev pub settings_keys : List Bytes
settings_keys =
    text "workers"
    ∷ text "threads"
    ∷ text "idle"
    ∷ text "socktimeout"
    ∷ text "proxyreload"
    ∷ text "foreground"
    ∷ text "log"
    ∷ text "log_file"
    ∷ text "log_level"
    ∷ []

-- `mapSection` for some keys of one section
abbrev pub map_section : (Bytes → Bytes → Bytes) → Bytes → List Bytes → List (Bytes × Bytes)
map_section file section [] = []
map_section file section (key ∷ keys) =
    (key, trim_space (file section key)) ∷ map_section file section keys

-- The map that `applyINI` makes of a file.
unfoldable pub ini_values : (Bytes → Bytes → Bytes) → List (Bytes × Bytes)
ini_values file =
    map_section file (text "proxy") proxy_keys
    ++ (map_section file (text "client") client_keys
        ++ map_section file (text "settings") settings_keys)

abbrev pub with_key_error : Config × Option Bytes → Config × Option FileError
with_key_error (c, key) = (c, key_error key)

-- `none` is a file that `LoadSources` cannot read.
unfoldable pub apply_ini :
    (Bytes → Option ℤ) → Config → Option (Bytes → Bytes → Bytes) → Config × Option FileError
unfolding apply_values ini_values
apply_ini parse_seconds c none = (c, some unreadable)
apply_ini parse_seconds c (some file) =
    with_key_error (apply_values parse_seconds c (ini_values file))

-- The sections of `tomlConfig`; those of the proxy and of the clients have the fields of `Proxy` and
-- of `Client`.
pub record TomlSettings (F : Type 0) : Type 0 where
  pub workers : ℤ
  pub threads : ℤ
  pub idle : ℤ
  pub sock_timeout : F
  pub proxy_reload : ℤ
  pub foreground : Bool
  pub log : ℤ
  pub log_file : Bytes
  pub log_level : Bytes

pub record TomlConfig (F : Type 0) : Type 0 where
  pub proxy : Proxy
  pub client : Client
  pub settings : TomlSettings F

abbrev is_zero_int : ℤ → Bool
is_zero_int (pos n) = n == 0
is_zero_int (negsuc n) = false

abbrev put_int : Bytes → ℤ → List (Bytes × Bytes) → List (Bytes × Bytes)
put_int key z values = if is_zero_int z then values else insert key (itoa z) values

module _ {F : Type 0} where
  -- The entries that `applyTOML` sets in any case.
  abbrev toml_texts : TomlConfig F → List (Bytes × Bytes)
  toml_texts t =
      (text "server", join b',' t.proxy.server)
      ∷ (text "pac", t.proxy.pac)
      ∷ (text "pac_encoding", t.proxy.pac_encoding)
      ∷ (text "listen", join b',' t.proxy.listen)
      ∷ (text "gateway", bool_string t.proxy.gateway)
      ∷ (text "hostonly", bool_string t.proxy.host_only)
      ∷ (text "allow", t.proxy.allow)
      ∷ (text "noproxy", t.proxy.no_proxy)
      ∷ (text "useragent", t.proxy.user_agent)
      ∷ (text "username", t.proxy.username)
      ∷ (text "auth", t.proxy.auth)
      ∷ (text "kerberos", bool_string t.proxy.kerberos)
      ∷ (text "client_username", t.client.username)
      ∷ (text "client_auth", t.client.auth)
      ∷ (text "client_nosspi", bool_string t.client.no_sspi)
      ∷ (text "foreground", bool_string t.settings.foreground)
      ∷ (text "log_file", t.settings.log_file)
      ∷ (text "log_level", t.settings.log_level)
      ∷ []

  abbrev put_float : Floats F → Bytes → F → List (Bytes × Bytes) → List (Bytes × Bytes)
  put_float floats key x values =
      if floats.is_zero x then values else insert key (floats.one_decimal x) values

  -- The map that `applyTOML` makes of a file; a number that is 0 has no entry.
  unfoldable pub toml_values : Floats F → TomlConfig F → List (Bytes × Bytes)
  unfolding itoa insert join
  toml_values floats t =
      let s = t.settings in
      put_int (text "log") s.log (
        put_int (text "proxyreload") s.proxy_reload (
          put_float floats (text "socktimeout") s.sock_timeout (
            put_int (text "idle") s.idle (
              put_int (text "threads") s.threads (
                put_int (text "workers") s.workers
                  (put_int (text "port") t.proxy.port (toml_texts t)))))))

  -- `none` is a file that `DecodeFile` cannot decode.
  unfoldable pub apply_toml :
      Floats F → (Bytes → Option ℤ) → Config → Option (TomlConfig F) → Config × Option FileError
  unfolding apply_values toml_values
  apply_toml floats parse_seconds c none = (c, some unreadable)
  apply_toml floats parse_seconds c (some t) =
      with_key_error (apply_values parse_seconds c (toml_values floats t))

  -- What `saveTOML` encodes.
  unfoldable pub save_toml : Floats F → Config → TomlConfig F
  save_toml floats c = record {
    proxy = record c.proxy {
      listen = if c.proxy.gateway || c.proxy.host_only then [] else c.proxy.listen;
    };
    client = c.client;
    settings = record {
      workers = c.settings.workers;
      threads = c.settings.threads;
      idle = floats.to_int (floats.in_seconds c.settings.idle);
      sock_timeout = floats.in_seconds c.settings.sock_timeout;
      proxy_reload = floats.to_int (floats.in_seconds c.settings.proxy_reload);
      foreground = c.settings.foreground;
      log = c.settings.log;
      log_file = c.settings.log_file;
      log_level = level_string c.settings.log_level;
    };
  }

  -- The sections that `saveINI` writes, each with its keys in order.
  unfoldable pub save_ini : Floats F → Config → List (Bytes × List (Bytes × Bytes))
  unfolding itoa join
  save_ini floats c =
      (
        text "proxy",
        (text "server", join b',' c.proxy.server)
            ∷ (text "pac", c.proxy.pac)
            ∷ (text "pac_encoding", c.proxy.pac_encoding)
            ∷ (
              text "listen",
              if c.proxy.gateway || c.proxy.host_only then [] else join b',' c.proxy.listen,
            )
            ∷ (text "port", itoa c.proxy.port)
            ∷ (text "gateway", bool_string c.proxy.gateway)
            ∷ (text "hostonly", bool_string c.proxy.host_only)
            ∷ (text "allow", c.proxy.allow)
            ∷ (text "noproxy", c.proxy.no_proxy)
            ∷ (text "useragent", c.proxy.user_agent)
            ∷ (text "username", c.proxy.username)
            ∷ (text "auth", c.proxy.auth)
            ∷ (text "kerberos", bool_string c.proxy.kerberos)
            ∷ [],
      )
      ∷ (
        text "client",
        (text "client_username", c.client.username)
            ∷ (text "client_auth", c.client.auth)
            ∷ (text "client_nosspi", bool_string c.client.no_sspi)
            ∷ [],
      )
      ∷ (
        text "settings",
        (text "workers", itoa c.settings.workers)
            ∷ (text "threads", itoa c.settings.threads)
            ∷ (text "idle", itoa (floats.to_int (floats.in_seconds c.settings.idle)))
            ∷ (text "socktimeout", floats.one_decimal (floats.in_seconds c.settings.sock_timeout))
            ∷ (text "proxyreload", itoa (floats.to_int (floats.in_seconds c.settings.proxy_reload)))
            ∷ (text "foreground", bool_string c.settings.foreground)
            ∷ (text "log", itoa c.settings.log)
            ∷ (text "log_file", c.settings.log_file)
            ∷ (text "log_level", level_string c.settings.log_level)
            ∷ [],
      )
      ∷ []
