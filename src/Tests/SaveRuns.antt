-- ===== src/Tests/SaveRuns.antt =====
-- Settings that are saved and read back, for internal/config/config.go.
use px_go.Prelude.{◌/◌, ◌≡◌, refl, true, false, [], ◌∷◌, Option, none, some, if◌then◌else◌, arith}
use px_go.Strings.{Bytes, text, equal}
use px_go.Config.{ℤ, pos, negsuc, Config, default}
use px_go.Config.Files.{Floats, apply_ini, save_ini}
use px_go.Config.Load.{value_or_empty}
use px_go.Config.RoundTrip.{all_entries, Holds, IsStorable, kept, apply_ini-save_ini}

abbrev whole_seconds : ℤ → ℤ
whole_seconds (pos n) = pos (n / 1000000000)
whole_seconds (negsuc n) = negsuc n

abbrev floats : Floats ℤ
floats = record {
  in_seconds = λ z. z;
  to_int = whole_seconds;
  is_zero = λ z. false;
  one_decimal = λ z. text "20.0";
}

abbrev parse_twenty : Bytes → Option ℤ
parse_twenty s = if equal s (text "20.0") then some (pos 20000000000) else none

abbrev settings : Config
settings = record default {
  proxy = record default.proxy {
    server = text "a:1" ∷ text "b:2" ∷ [];
    port = pos 8080;
    gateway = true;
    allow = [];
  };
}

-- The file that was saved, as `ini` gives it back.
abbrev saved_file : Bytes → Bytes → Bytes
saved_file section key = value_or_empty (all_entries (save_ini floats settings)) key

storable : IsStorable floats parse_twenty settings
unfolding px_go.Network.split_csv px_go.Strings.trim_space px_go.Strings.join px_go.Strings.split
    px_go.Config.Values.seconds equal
storable = (
  refl,
  refl,
  (λ e. cc e),
  (omega arith, omega arith, omega arith, omega arith),
  (omega arith, refl),
  (omega arith, refl),
  ((λ e. cc e), refl),
)

holds : Holds saved_file (save_ini floats settings)
unfolding save_ini px_go.Strings.trim_space value_or_empty equal
holds = (
  (
    refl,
    (
      refl,
      (refl, (refl, (refl, (refl, (refl, (refl, (refl, (refl, (refl, (refl, (refl, tt))))))))))),
    ),
  ),
  (
    (refl, (refl, (refl, tt))),
    ((refl, (refl, (refl, (refl, (refl, (refl, (refl, (refl, (refl, tt))))))))), tt),
  ),
)

apply_ini-save_ini_example :
    apply_ini parse_twenty default (some saved_file) ≡ (kept settings, none)
apply_ini-save_ini_example =
    apply_ini-save_ini floats parse_twenty settings saved_file storable holds
