-- ===== src/Config/Values.antt =====
-- internal/config/config.go: `applyValues` and `applyEnv`.
use px_go.Prelude.{
  ℕ, zero, suc, ◌+◌, ◌-◌, ◌*◌, ◌%◌, ◌^◌, Bool, true, false, not, ◌&&◌, List, [], ◌∷◌, ◌++◌, Option,
  none, some, ltb, ◌==◌, if◌then◌else◌,
}
use px_go.Strings.{is_member, Bytes, text, equal, is_empty, to_lower, to_upper}
use px_go.Dict.{lookup, insert}
use px_go.Network.{decimal_from, split_csv}
use px_go.Config.{
  ℤ, pos, negsuc, debug, Proxy, Client, Settings, Special, Config, parse_bool, parse_level,
}

-- A number of at most `limit`, with at least one digit.
abbrev up_to : ℕ → Bytes → Option ℕ
up_to limit [] = none
up_to limit (c ∷ s) = elim (decimal_from 0 (c ∷ s)) [
  | none ↦ none
  | some n ↦ if ltb limit n then none else some n
]

abbrev plus : Option ℕ → Option ℤ
plus none = none
plus (some n) = some (pos n)

abbrev minus : Option ℕ → Option ℤ
minus none = none
minus (some zero) = some (pos 0)
minus (some (suc n)) = some (negsuc n)

-- `strconv.Atoi` at 64 bits
unfoldable pub atoi : Bytes → Option ℤ
unfolding decimal_from
atoi [] = none
atoi (c ∷ s) =
    if c == b'-'
    then minus (up_to (2 ^ 63) s)
    else if c == b'+'
    then plus (up_to (2 ^ 63 - 1) s)
    else plus (up_to (2 ^ 63 - 1) (c ∷ s))

-- The 64-bit integer with this two's complement.
abbrev signed : ℕ → ℤ
signed n = if ltb n (2 ^ 63) then pos n else negsuc (2 ^ 64 - 1 - n)

-- `time.Duration(v) * time.Second`, which wraps around.
unfoldable pub seconds : ℤ → ℤ
seconds (pos n) = signed ((n * 1000000000) % 2 ^ 64)
seconds (negsuc n) = signed ((2 ^ 64 - ((n + 1) * 1000000000) % 2 ^ 64) % 2 ^ 64)

abbrev set_proxy : Config → Proxy → Option Config
set_proxy c p = some (record c { proxy = p })

abbrev set_client : Config → Client → Option Config
set_client c p = some (record c { client = p })

abbrev set_settings : Config → Settings → Option Config
set_settings c p = some (record c { settings = p })

abbrev set_special : Config → Special → Option Config
set_special c p = some (record c { special = p })

-- A setting that needs its value parsed.
abbrev pub parsed {ℓ} : {A : Type ℓ} → Option A → (A → Option Config) → Option Config
parsed none set = none
parsed (some v) set = set v

abbrev verbose : Config → Bool → Option Config
verbose c false = some c
verbose c true =
    set_settings c (record c.settings { log = pos 4; foreground = true; log_level = debug })

-- What each key of the `switch` does, `none` where it returns an error. `parse_seconds` is
-- `strconv.ParseFloat` with the conversion to a duration.
abbrev pub assignments : (Bytes → Option ℤ) → Bytes → Config → List (Bytes × Option Config)
assignments parse_seconds raw c =
    (text "proxy", set_proxy c (record c.proxy { server = split_csv raw }))
    ∷ (text "server", set_proxy c (record c.proxy { server = split_csv raw }))
    ∷ (text "pac", set_proxy c (record c.proxy { pac = raw }))
    ∷ (text "pac_encoding", set_proxy c (record c.proxy { pac_encoding = raw }))
    ∷ (text "listen", set_proxy c (record c.proxy { listen = split_csv raw }))
    ∷ (text "port", parsed (atoi raw) (λ v. set_proxy c (record c.proxy { port = v })))
    ∷ (text "gateway", set_proxy c (record c.proxy { gateway = parse_bool raw }))
    ∷ (text "hostonly", set_proxy c (record c.proxy { host_only = parse_bool raw }))
    ∷ (text "allow", set_proxy c (record c.proxy { allow = raw }))
    ∷ (text "noproxy", set_proxy c (record c.proxy { no_proxy = raw }))
    ∷ (text "useragent", set_proxy c (record c.proxy { user_agent = raw }))
    ∷ (text "username", set_proxy c (record c.proxy { username = raw }))
    ∷ (text "auth", set_proxy c (record c.proxy { auth = raw }))
    ∷ (text "kerberos", set_proxy c (record c.proxy { kerberos = parse_bool raw }))
    ∷ (text "client_username", set_client c (record c.client { username = raw }))
    ∷ (text "client_auth", set_client c (record c.client { auth = raw }))
    ∷ (text "client_nosspi", set_client c (record c.client { no_sspi = parse_bool raw }))
    ∷ (text "workers", parsed (atoi raw) (λ v. set_settings c (record c.settings { workers = v })))
    ∷ (text "threads", parsed (atoi raw) (λ v. set_settings c (record c.settings { threads = v })))
    ∷ (
      text "idle",
      parsed (atoi raw) (λ v. set_settings c (record c.settings { idle = seconds v })),
    )
    ∷ (
      text "socktimeout",
      parsed (parse_seconds raw) (λ v. set_settings c (record c.settings { sock_timeout = v })),
    )
    ∷ (
      text "proxyreload",
      parsed (atoi raw) (λ v. set_settings c (record c.settings { proxy_reload = seconds v })),
    )
    ∷ (text "foreground", set_settings c (record c.settings { foreground = parse_bool raw }))
    ∷ (text "log", parsed (atoi raw) (λ v. set_settings c (record c.settings { log = v })))
    ∷ (text "log_file", set_settings c (record c.settings { log_file = raw }))
    ∷ (
      text "log_level",
      parsed (parse_level raw) (λ v. set_settings c (record c.settings { log_level = v })),
    )
    ∷ (text "config", set_special c (record c.special { config_path = raw }))
    ∷ (text "quit", set_special c (record c.special { quit = parse_bool raw }))
    ∷ (
      text "test",
      set_special c (record c.special { test_url = if parse_bool raw then text "all" else raw }),
    )
    ∷ (text "install", set_special c (record c.special { install = parse_bool raw }))
    ∷ (text "uninstall", set_special c (record c.special { uninstall = parse_bool raw }))
    ∷ (text "save", set_special c (record c.special { save = parse_bool raw }))
    ∷ (text "version", set_special c (record c.special { version = parse_bool raw }))
    ∷ (text "health_check", set_special c (record c.special { health_check = parse_bool raw }))
    ∷ (text "password", set_special c (record c.special { password = parse_bool raw }))
    ∷ (
      text "client_password",
      set_special c (record c.special { client_password = parse_bool raw }),
    )
    ∷ (text "restart", set_special c (record c.special { restart = parse_bool raw }))
    ∷ (text "verbose", verbose c (parse_bool raw))
    ∷ (text "quiet", set_settings c (record c.settings { quiet = parse_bool raw }))
    ∷ (text "silent", set_settings c (record c.settings { quiet = parse_bool raw }))
    ∷ []

-- The keys that an empty value sets.
abbrev pub cleared_keys : List Bytes
cleared_keys =
    text "listen"
    ∷ text "server"
    ∷ text "noproxy"
    ∷ text "allow"
    ∷ text "useragent"
    ∷ text "username"
    ∷ text "client_username"
    ∷ text "auth"
    ∷ text "client_auth"
    ∷ text "pac"
    ∷ []

-- An unknown key leaves the settings as they are.
abbrev pub or_same : Config → Option (Option Config) → Option Config
or_same c none = some c
or_same c (some r) = r

-- One pass of the loop
unfoldable pub apply_value : (Bytes → Option ℤ) → Config → Bytes × Bytes → Option Config
unfolding lookup equal to_lower
apply_value parse_seconds c (raw_key, raw) =
    let key = to_lower raw_key in
    if is_empty raw && not (is_member key cleared_keys)
    then some c
    else or_same c (lookup key (assignments parse_seconds raw c))

-- The settings at the end of the loop, and the key whose value is not valid.
unfoldable pub apply_sorted :
    (Bytes → Option ℤ) → Config → List (Bytes × Bytes) → Config × Option Bytes
apply_sorted parse_seconds c [] = (c, none)
apply_sorted parse_seconds c (kv ∷ kvs) = elim (apply_value parse_seconds c kv) [
  | none ↦ (c, some kv.0)
  | some d ↦ apply_sorted parse_seconds d kvs
]

-- The order of `slices.Sort`
unfoldable pub before : Bytes → Bytes → Bool
before [] _ = true
before (x ∷ a) [] = false
before (x ∷ a) (y ∷ b) =
    let rest = before a b in if ltb x y then true else if x == y then rest else false

unfoldable pub insert_sorted : Bytes × Bytes → List (Bytes × Bytes) → List (Bytes × Bytes)
unfolding before
insert_sorted kv [] = kv ∷ []
insert_sorted kv (jw ∷ m) =
    let rest = insert_sorted kv m in if before kv.0 jw.0 then kv ∷ jw ∷ m else jw ∷ rest

unfoldable pub sort : List (Bytes × Bytes) → List (Bytes × Bytes)
unfolding insert_sorted
sort [] = []
sort (kv ∷ m) = insert_sorted kv (sort m)

-- `applyValues`; `cfg` is changed in place, also when there is an error.
unfoldable pub apply_values :
    (Bytes → Option ℤ) → Config → List (Bytes × Bytes) → Config × Option Bytes
unfolding apply_sorted apply_value sort
apply_values parse_seconds c values = apply_sorted parse_seconds c (sort values)

abbrev env_keys : List Bytes
env_keys =
    text "server"
    ∷ text "pac"
    ∷ text "pac_encoding"
    ∷ text "listen"
    ∷ text "port"
    ∷ text "gateway"
    ∷ text "hostonly"
    ∷ text "allow"
    ∷ text "noproxy"
    ∷ text "useragent"
    ∷ text "username"
    ∷ text "auth"
    ∷ text "kerberos"
    ∷ text "client_username"
    ∷ text "client_auth"
    ∷ text "client_nosspi"
    ∷ text "workers"
    ∷ text "threads"
    ∷ text "idle"
    ∷ text "socktimeout"
    ∷ text "proxyreload"
    ∷ text "foreground"
    ∷ text "log"
    ∷ text "log_file"
    ∷ text "log_level"
    ∷ text "config"
    ∷ text "quit"
    ∷ text "test"
    ∷ text "install"
    ∷ text "uninstall"
    ∷ text "save"
    ∷ text "version"
    ∷ text "health_check"
    ∷ []

abbrev put_env : Bytes → Option Bytes → List (Bytes × Bytes) → List (Bytes × Bytes)
put_env key none values = values
put_env key (some v) values = insert key v values

abbrev env_from : (Bytes → Option Bytes) → List Bytes → List (Bytes × Bytes) → List (Bytes × Bytes)
env_from lookup_env [] values = values
env_from lookup_env (key ∷ keys) values =
    env_from lookup_env keys (put_env key (lookup_env (text "PX_" ++ to_upper key)) values)

-- `applyEnv`, which drops the error; `lookup_env` is `os.LookupEnv`.
unfoldable pub apply_env : (Bytes → Option ℤ) → (Bytes → Option Bytes) → Config → Config
unfolding apply_values insert to_upper
apply_env parse_seconds lookup_env c =
    (apply_values parse_seconds c (env_from lookup_env env_keys [])).0
