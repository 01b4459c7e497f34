-- ===== src/Config/RoundTrip/Steps.antt =====
-- internal/config/config.go: one pass of the loop of `applyValues`, by its key.
use px_go.Prelude.{
  ◌≡◌, ◌≢◌, refl, sym, ◌∙◌, Bool, true, false, List, [], ◌∷◌, Option, none, some, arith,
}
use px_go.Strings.{Bytes, text, equal, is_empty, is_member, to_lower}
use px_go.Dict.{lookup}
use px_go.Config.{ℤ, Level, debug, info, warn, fault, Config, parse_bool, parse_level}
use px_go.Config.Values.{
  apply_value, apply_sorted, assignments, cleared_keys, or_same, atoi, seconds,
}
use px_go.Config.Files.{bool_string, level_string}

pub is_empty-bool_string : (b : Bool) → is_empty (bool_string b) ≡ false
is_empty-bool_string true = refl
is_empty-bool_string false = refl

pub parse_bool-bool_string : (b : Bool) → parse_bool (bool_string b) ≡ b
unfolding parse_bool
parse_bool-bool_string true = refl
parse_bool-bool_string false = refl

pub is_empty-level_string : (l : Level) → is_empty (level_string l) ≡ false
is_empty-level_string debug = refl
is_empty-level_string info = refl
is_empty-level_string warn = refl
is_empty-level_string fault = refl

pub parse_level-level_string : (l : Level) → parse_level (level_string l) ≡ some l
unfolding parse_level
parse_level-level_string debug = refl
parse_level-level_string info = refl
parse_level-level_string warn = refl
parse_level-level_string fault = refl

module _ (parse_seconds : Bytes → Option ℤ) where
  -- What a key does that the test of the empty value lets through.
  pub apply_value_cleared :
      (c : Config) (key raw : Bytes)
      → is_member (to_lower key) cleared_keys ≡ true
      → apply_value parse_seconds c (key, raw)
        ≡ or_same c (lookup (to_lower key) (assignments parse_seconds raw c))
  unfolding apply_value
  apply_value_cleared c key raw e = ground arith

  pub apply_value_filled :
      (c : Config) (key raw : Bytes)
      → is_empty raw ≡ false
      → apply_value parse_seconds c (key, raw)
        ≡ or_same c (lookup (to_lower key) (assignments parse_seconds raw c))
  unfolding apply_value
  apply_value_filled c key raw e = ground arith

  pub set_port :
      (c : Config) (raw : Bytes) (z : ℤ)
      → atoi raw ≡ some z
      → apply_value parse_seconds c (text "port", raw)
        ≡ some (record c { proxy = record c.proxy { port = z } })
  unfolding atoi to_lower lookup equal
  set_port c [] z e = cc e
  set_port c (x ∷ s) z e = apply_value_filled c (text "port") (x ∷ s) refl ∙ rw e refl

  pub set_workers :
      (c : Config) (raw : Bytes) (z : ℤ)
      → atoi raw ≡ some z
      → apply_value parse_seconds c (text "workers", raw)
        ≡ some (record c { settings = record c.settings { workers = z } })
  unfolding atoi to_lower lookup equal
  set_workers c [] z e = cc e
  set_workers c (x ∷ s) z e = apply_value_filled c (text "workers") (x ∷ s) refl ∙ rw e refl

  pub set_threads :
      (c : Config) (raw : Bytes) (z : ℤ)
      → atoi raw ≡ some z
      → apply_value parse_seconds c (text "threads", raw)
        ≡ some (record c { settings = record c.settings { threads = z } })
  unfolding atoi to_lower lookup equal
  set_threads c [] z e = cc e
  set_threads c (x ∷ s) z e = apply_value_filled c (text "threads") (x ∷ s) refl ∙ rw e refl

  pub set_log :
      (c : Config) (raw : Bytes) (z : ℤ)
      → atoi raw ≡ some z
      → apply_value parse_seconds c (text "log", raw)
        ≡ some (record c { settings = record c.settings { log = z } })
  unfolding atoi to_lower lookup equal
  set_log c [] z e = cc e
  set_log c (x ∷ s) z e = apply_value_filled c (text "log") (x ∷ s) refl ∙ rw e refl

  pub set_idle :
      (c : Config) (raw : Bytes) (z : ℤ)
      → atoi raw ≡ some z
      → apply_value parse_seconds c (text "idle", raw)
        ≡ some (record c { settings = record c.settings { idle = seconds z } })
  unfolding atoi to_lower lookup equal
  set_idle c [] z e = cc e
  set_idle c (x ∷ s) z e = apply_value_filled c (text "idle") (x ∷ s) refl ∙ rw e refl

  pub set_proxy_reload :
      (c : Config) (raw : Bytes) (z : ℤ)
      → atoi raw ≡ some z
      → apply_value parse_seconds c (text "proxyreload", raw)
        ≡ some (record c { settings = record c.settings { proxy_reload = seconds z } })
  unfolding atoi to_lower lookup equal
  set_proxy_reload c [] z e = cc e
  set_proxy_reload c (x ∷ s) z e =
      apply_value_filled c (text "proxyreload") (x ∷ s) refl ∙ rw e refl

  pub set_sock_timeout :
      (c : Config) (raw : Bytes) (z : ℤ)
      → raw ≢ []
      → parse_seconds raw ≡ some z
      → apply_value parse_seconds c (text "socktimeout", raw)
        ≡ some (record c { settings = record c.settings { sock_timeout = z } })
  unfolding to_lower lookup equal
  set_sock_timeout c [] z ne e = absurd (ne refl)
  set_sock_timeout c (x ∷ s) z ne e =
      apply_value_filled c (text "socktimeout") (x ∷ s) refl ∙ rw e refl

  -- An empty value leaves the file of the log, which is empty already.
  pub set_log_file :
      (c : Config) (raw : Bytes)
      → c.settings.log_file ≡ []
      → apply_value parse_seconds c (text "log_file", raw)
        ≡ some (record c { settings = record c.settings { log_file = raw } })
  unfolding apply_value to_lower lookup equal
  set_log_file c [] e = rw (sym e) refl
  set_log_file c (x ∷ s) e = refl

  pub set_log_level :
      (c : Config) (l : Level)
      → apply_value parse_seconds c (text "log_level", level_string l)
        ≡ some (record c { settings = record c.settings { log_level = l } })
  unfolding to_lower lookup equal
  set_log_level c l =
      apply_value_filled c (text "log_level") (level_string l) (is_empty-level_string l)
      ∙ rw (parse_level-level_string l) refl

  pub next :
      (c d : Config) (kv : Bytes × Bytes) (kvs : List (Bytes × Bytes)) (r : Config × Option Bytes)
      → apply_value parse_seconds c kv ≡ some d
      → apply_sorted parse_seconds d kvs ≡ r
      → apply_sorted parse_seconds c (kv ∷ kvs) ≡ r
  unfolding apply_sorted
  next c d kv kvs r e f = rw (apply_sorted, e) f

  pub ends : (c d : Config) → c ≡ d → apply_sorted parse_seconds c [] ≡ (d, none)
  unfolding apply_sorted
  ends c d e = rw e refl
