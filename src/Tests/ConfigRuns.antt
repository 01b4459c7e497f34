-- ===== src/Tests/ConfigRuns.antt =====
-- Settings, for internal/config/config.go.
use px_go.Prelude.{◌≡◌, ◌↔◌, refl, not, ◌&&◌, List, [], ◌∷◌, ◌++◌, map, Option, none, some}
use px_go.Strings.{is_member, Bytes, text, is_empty, trim_space}
use px_go.Config.{ℤ, pos, Config, default, normalize_csv, validate}
use px_go.Config.Values.{apply_value, apply_sorted}
use px_go.Config.Laws.{
  IsDistinct, is_member-normalize_csv, normalize_csv-IsDistinct, IsValid, validate-IsValid,
  apply_sorted_stop,
}

abbrev servers : List Bytes
servers = text " p:1" ∷ text "" ∷ text "q:2" ∷ text "p:1 " ∷ []

entry_is_kept :
    is_member (text "p:1") (normalize_csv servers)
    ≡ (not (is_empty (text "p:1")) && is_member (text "p:1") (map trim_space servers))
entry_is_kept = is_member-normalize_csv servers (text "p:1")

servers-IsDistinct : IsDistinct (normalize_csv servers)
servers-IsDistinct = normalize_csv-IsDistinct servers

default-IsValid_iff : (validate default ≡ none) ↔ IsValid default
default-IsValid_iff = validate-IsValid default

abbrev no_seconds : Bytes → Option ℤ
no_seconds raw = none

abbrev with_allow : Config
with_allow = record default { proxy = record default.proxy { allow = text "10.*" } }

allow_applied :
    apply_sorted no_seconds default ((text "allow", text "10.*") ∷ []) ≡ (with_allow, none)
unfolding apply_sorted apply_value
allow_applied = refl

port_refused : apply_value no_seconds with_allow (text "port", text "80x") ≡ none
unfolding apply_value px_go.Config.Values.atoi
port_refused = refl

values_behind_lost :
    apply_sorted no_seconds default (
      ((text "allow", text "10.*") ∷ [])
      ++ ((text "port", text "80x") ∷ (text "quiet", text "1") ∷ []))
    ≡ (with_allow, some (text "port"))
values_behind_lost =
    apply_sorted_stop no_seconds default with_allow ((text "allow", text "10.*") ∷ [])
      ((text "quiet", text "1") ∷ []) (text "port") (text "80x") allow_applied port_refused
