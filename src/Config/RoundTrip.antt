-- ===== src/Config/RoundTrip.antt =====
-- internal/config/config.go: settings that `saveINI` writes and `applyINI` reads back.
mod Steps
use px_go.Prelude.{
  ℕ, ◌^◌, ◌≡◌, ◌≢◌, refl, sym, ap, ◌∙◌, inl, inr, Bool, true, false, not, ◌&&◌, ◌||◌, List, [], ◌∷◌,
  ◌++◌, Option, none, some, arith, All, if◌then◌else◌,
}
use px_go.Strings.{Bytes, text, equal, is_empty, is_member, to_lower, trim_space, join}
use px_go.Strings.Laws.{is_empty_of_ne}
use px_go.Dict.{lookup}
use px_go.Network.{split_csv}
use px_go.Config.{
  ℤ, pos, negsuc, Level, debug, info, warn, fault, Config, default, parse_bool, parse_level,
}
use px_go.Config.Order.{keys}
use px_go.Config.Values.{
  apply_value, apply_sorted, sort, insert_sorted, before, apply_values, assignments, cleared_keys,
  or_same, parsed, atoi, seconds,
}
use px_go.Config.Numbers.{itoa, IsInt64, atoi-itoa}
use px_go.Config.Files.{
  Floats, bool_string, level_string, map_section, ini_values, apply_ini, with_key_error, save_ini,
}
use px_go.Config.RoundTrip.Steps.{
  is_empty-bool_string, parse_bool-bool_string, is_empty-level_string, apply_value_cleared,
  apply_value_filled, set_port, set_workers, set_threads, set_log, set_idle, set_proxy_reload,
  set_sock_timeout, set_log_file, set_log_level, next, ends,
}

map_section-keys :
    (file : Bytes → Bytes → Bytes) (section : Bytes) (m : List (Bytes × Bytes))
    → All (λ kv. trim_space (file section kv.0) ≡ kv.1) m
    → map_section file section (keys m) ≡ m
map_section-keys file section [] h = refl
map_section-keys file section ((key, v) ∷ m) (e, h) = rw (e, map_section-keys file section m h) refl

abbrev pub all_entries : List (Bytes × List (Bytes × Bytes)) → List (Bytes × Bytes)
all_entries [] = []
all_entries ((section, m) ∷ rest) = m ++ all_entries rest

-- A file holds, up to blanks around a value, the entries of some sections.
abbrev pub Holds : (Bytes → Bytes → Bytes) → List (Bytes × List (Bytes × Bytes)) → Type 0
Holds file sections = All (λ s. All (λ kv. trim_space (file s.0 kv.0) ≡ kv.1) s.1) sections

abbrev read_sections :
    (Bytes → Bytes → Bytes) → List (Bytes × List (Bytes × Bytes)) → List (Bytes × Bytes)
read_sections file [] = []
read_sections file ((section, m) ∷ rest) =
    map_section file section (keys m) ++ read_sections file rest

read_sections-all_entries :
    (file : Bytes → Bytes → Bytes) (sections : List (Bytes × List (Bytes × Bytes)))
    → Holds file sections
    → read_sections file sections ≡ all_entries sections
read_sections-all_entries file [] h = refl
read_sections-all_entries file ((section, m) ∷ rest) (e, h) =
    rw (map_section-keys file section m e, read_sections-all_entries file rest h) refl

-- What a file keeps of some settings.
abbrev pub kept : Config → Config
kept c = record default {
  proxy = record c.proxy {
    listen = if c.proxy.gateway || c.proxy.host_only then [] else c.proxy.listen;
  };
  client = c.client;
  settings = record c.settings { quiet = false };
}

module _ {F : Type 0} where
  -- What the two formats of numbers and lists can store: lists that their text gives back, 64-bit
  -- numbers, durations of whole seconds, a time that `ParseFloat` reads as it was, and an encoding.
  abbrev pub IsStorable : Floats F → (Bytes → Option ℤ) → Config → Type 0
  IsStorable floats parse_seconds c =
      let whole : ℤ → ℤ = λ z. floats.to_int (floats.in_seconds z) in
      let time = floats.one_decimal (floats.in_seconds c.settings.sock_timeout) in
      (split_csv (join b',' c.proxy.server) ≡ c.proxy.server)
      × (split_csv (join b',' c.proxy.listen) ≡ c.proxy.listen)
      × (c.proxy.pac_encoding ≢ [])
      × (IsInt64 c.proxy.port
          × IsInt64 c.settings.workers
          × IsInt64 c.settings.threads
          × IsInt64 c.settings.log)
      × (IsInt64 (whole c.settings.idle) × (seconds (whole c.settings.idle) ≡ c.settings.idle))
      × (IsInt64 (whole c.settings.proxy_reload)
          × (seconds (whole c.settings.proxy_reload) ≡ c.settings.proxy_reload))
      × ((time ≢ []) × (parse_seconds time ≡ some c.settings.sock_timeout))

  ini_values-save_ini :
      (floats : Floats F) (c : Config) (file : Bytes → Bytes → Bytes)
      → Holds file (save_ini floats c)
      → ini_values file ≡ all_entries (save_ini floats c)
  unfolding ini_values save_ini
  ini_values-save_ini floats c file h = read_sections-all_entries file (save_ini floats c) h

split_csv-if :
    (b : Bool) (s : Bytes) (ws : List Bytes)
    → split_csv s ≡ ws
    → split_csv (if b then [] else s) ≡ (if b then [] else ws)
unfolding split_csv trim_space
split_csv-if true s ws e = refl
split_csv-if false s ws e = e

module _ {F : Type 0} where
  -- The saved entries, in the order of their keys.
  abbrev sorted_entries : Floats F → Config → List (Bytes × Bytes)
  sorted_entries floats c =
      let listen = join b',' c.proxy.listen in
      (text "allow", c.proxy.allow)
      ∷ (text "auth", c.proxy.auth)
      ∷ (text "client_auth", c.client.auth)
      ∷ (text "client_nosspi", bool_string c.client.no_sspi)
      ∷ (text "client_username", c.client.username)
      ∷ (text "foreground", bool_string c.settings.foreground)
      ∷ (text "gateway", bool_string c.proxy.gateway)
      ∷ (text "hostonly", bool_string c.proxy.host_only)
      ∷ (text "idle", itoa (floats.to_int (floats.in_seconds c.settings.idle)))
      ∷ (text "kerberos", bool_string c.proxy.kerberos)
      ∷ (text "listen", if c.proxy.gateway || c.proxy.host_only then [] else listen)
      ∷ (text "log", itoa c.settings.log)
      ∷ (text "log_file", c.settings.log_file)
      ∷ (text "log_level", level_string c.settings.log_level)
      ∷ (text "noproxy", c.proxy.no_proxy)
      ∷ (text "pac", c.proxy.pac)
      ∷ (text "pac_encoding", c.proxy.pac_encoding)
      ∷ (text "port", itoa c.proxy.port)
      ∷ (text "proxyreload", itoa (floats.to_int (floats.in_seconds c.settings.proxy_reload)))
      ∷ (text "server", join b',' c.proxy.server)
      ∷ (text "socktimeout", floats.one_decimal (floats.in_seconds c.settings.sock_timeout))
      ∷ (text "threads", itoa c.settings.threads)
      ∷ (text "useragent", c.proxy.user_agent)
      ∷ (text "username", c.proxy.username)
      ∷ (text "workers", itoa c.settings.workers)
      ∷ []

  sort-all_entries :
      (floats : Floats F) (c : Config)
      → sort (all_entries (save_ini floats c)) ≡ sorted_entries floats c
  unfolding sort insert_sorted before save_ini
  sort-all_entries floats c = refl

  apply_sorted-entries :
      (floats : Floats F) (parse_seconds : Bytes → Option ℤ) (c : Config)
      → IsStorable floats parse_seconds c
      → apply_sorted parse_seconds default (sorted_entries floats c) ≡ (kept c, none)
  unfolding lookup to_lower equal
  apply_sorted-entries floats ps c
        (
          servers,
          listens,
          encoding,
          (port, workers, threads, log),
          (idle64, idle),
          (reload64, reload),
          (time, sock),
        ) =
      next ps _ _ _ _ _ (apply_value_cleared ps _ _ c.proxy.allow refl) (
        next ps _ _ _ _ _ (apply_value_cleared ps _ _ c.proxy.auth refl) (
          next ps _ _ _ _ _ (apply_value_cleared ps _ _ c.client.auth refl) (
            next ps _ _ _ _ _ (apply_value_filled ps _ _ _ (is_empty-bool_string c.client.no_sspi))
              (next ps _ _ _ _ _ (apply_value_cleared ps _ _ c.client.username refl) (
                next ps _ _ _ _ _
                  (apply_value_filled ps _ _ _ (is_empty-bool_string c.settings.foreground))
                  (next ps _ _ _ _ _
                    (apply_value_filled ps _ _ _ (is_empty-bool_string c.proxy.gateway))
                    (next ps _ _ _ _ _
                      (apply_value_filled ps _ _ _ (is_empty-bool_string c.proxy.host_only))
                      (next ps _ _ _ _ _
                        (set_idle ps _ _ _
                          (atoi-itoa (floats.to_int (floats.in_seconds c.settings.idle)) idle64))
                        (next ps _ _ _ _ _
                          (apply_value_filled ps _ _ _ (is_empty-bool_string c.proxy.kerberos))
                          (next ps _ _ _ _ _ (apply_value_cleared ps _ _ _ refl) (
                            next ps _ _ _ _ _ (set_log ps _ _ _ (atoi-itoa c.settings.log log)) (
                              next ps _ _ _ _ _ (set_log_file ps _ c.settings.log_file refl) (
                                next ps _ _ _ _ _ (set_log_level ps _ c.settings.log_level) (
                                  next ps _ _ _ _ _
                                    (apply_value_cleared ps _ _ c.proxy.no_proxy refl)
                                    (next ps _ _ _ _ _ (apply_value_cleared ps _ _ c.proxy.pac refl)
                                      (next ps _ _ _ _ _
                                        (apply_value_filled ps _ _ _
                                          (is_empty_of_ne c.proxy.pac_encoding encoding))
                                        (next ps _ _ _ _ _
                                          (set_port ps _ _ _ (atoi-itoa c.proxy.port port))
                                          (next ps _ _ _ _ _
                                            (set_proxy_reload ps _ _ _ (
                                              atoi-itoa
                                                (floats.to_int
                                                  (floats.in_seconds c.settings.proxy_reload))
                                                reload64))
                                            (next ps _ _ _ _ _ (apply_value_cleared ps _ _ _ refl) (
                                              next ps _ _ _ _ _
                                                (set_sock_timeout ps _ _ c.settings.sock_timeout
                                                  time sock)
                                                (next ps _ _ _ _ _
                                                  (set_threads ps _ _ _
                                                    (atoi-itoa c.settings.threads threads))
                                                  (next ps _ _ _ _ _
                                                    (apply_value_cleared ps _ _ c.proxy.user_agent
                                                      refl)
                                                    (next ps _ _ _ _ _
                                                      (apply_value_cleared ps _ _ c.proxy.username
                                                        refl)
                                                      (next ps _ _ _ _ _
                                                        (set_workers ps _ _ _
                                                          (atoi-itoa c.settings.workers workers))
                                                        (ends ps _ (kept c) (
                                                          rw
                                                            (
                                                            parse_bool-bool_string c.proxy.gateway,
                                                            parse_bool-bool_string
                                                            c.proxy.host_only,
                                                            parse_bool-bool_string c.proxy.kerberos,
                                                            parse_bool-bool_string c.client.no_sspi,
                                                            parse_bool-bool_string
                                                            c.settings.foreground,
                                                            servers,
                                                            split_csv-if
                                                            (c.proxy.gateway || c.proxy.host_only)
                                                            (join b',' c.proxy.listen)
                                                            c.proxy.listen listens,
                                                            idle,
                                                            reload,
                                                            )
                                                            refl))))))))))))))))))))))))))

  -- Settings that the format can store, saved to an INI file and read from it into the default ones,
  -- come back without an error and as they were, if the file holds each saved value up to blanks
  -- around it; only `listen` is empty where `gateway` or `hostonly` is on, and `quiet` and the
  -- settings of a single run are not kept.
  pub apply_ini-save_ini :
      (floats : Floats F) (parse_seconds : Bytes → Option ℤ) (c : Config)
      (file : Bytes → Bytes → Bytes)
      → IsStorable floats parse_seconds c
      → Holds file (save_ini floats c)
      → apply_ini parse_seconds default (some file) ≡ (kept c, none)
  unfolding apply_ini apply_values
  apply_ini-save_ini floats parse_seconds c file storable holds =
      ap (λ m. with_key_error (apply_values parse_seconds default m))
        (ini_values-save_ini floats c file holds)
      ∙ ap (λ m. with_key_error (apply_sorted parse_seconds default m)) (sort-all_entries floats c)
      ∙ ap with_key_error (apply_sorted-entries floats parse_seconds c storable)
