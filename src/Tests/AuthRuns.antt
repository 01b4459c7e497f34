-- ===== src/Tests/AuthRuns.antt =====
-- Challenges of upstream proxies, for internal/auth/auth.go.
use px_go.Prelude.{◌≡◌, ◌≢◌, refl, List, [], ◌∷◌, ◌++◌, some}
use px_go.Strings.{Bytes, text, to_upper, trim_space}
use px_go.Auth.{choose_scheme, preference_order}
use px_go.Auth.Choice.{
  last_challenge, Chosen, choose_scheme-Chosen, choose_scheme_safe_no, choose_scheme_no,
}

abbrev offers : List Bytes
offers = text "Basic realm=px" ∷ text "Digest nonce=1" ∷ text "NTLM" ∷ text "Digest nonce=2" ∷ []

choose_scheme-Chosen_example :
    Chosen
      (preference_order (text "digest"))
      (λ t. last_challenge t offers)
      (choose_scheme (text "digest") offers)
choose_scheme-Chosen_example = choose_scheme-Chosen (text "digest") offers

upper_safe : to_upper (trim_space (text "safenontlm ")) ≡ text "SAFENO" ++ text "NTLM"
unfolding to_upper trim_space
upper_safe = refl

safe_choice : choose_scheme (text "safenontlm ") offers ≡ some (text "DIGEST", text "nonce=2")
unfolding choose_scheme to_upper trim_space px_go.Strings.equal px_go.Strings.has_prefix
    px_go.Strings.trim_prefix px_go.Dict.lookup px_go.Dict.insert px_go.Strings.cut
safe_choice = refl

not_the_excluded_safe : (text "DIGEST" ≢ text "NTLM") × (text "DIGEST" ≢ text "BASIC")
not_the_excluded_safe =
    choose_scheme_safe_no (text "safenontlm ") (text "NTLM") offers (text "DIGEST") (text "nonce=2")
      upper_safe safe_choice

upper_no : to_upper (trim_space (text "NONTLM")) ≡ text "NO" ++ text "NTLM"
unfolding to_upper trim_space
upper_no = refl

no_choice : choose_scheme (text "NONTLM") offers ≡ some (text "DIGEST", text "nonce=2")
unfolding choose_scheme to_upper trim_space px_go.Strings.equal px_go.Strings.has_prefix
    px_go.Strings.trim_prefix px_go.Dict.lookup px_go.Dict.insert px_go.Strings.cut
no_choice = refl

ntlm_ne : text "NTLM" ≢ text "NE"
ntlm_ne e = cc e

not_the_excluded : text "DIGEST" ≢ text "NTLM"
not_the_excluded =
    choose_scheme_no (text "NONTLM") (text "NTLM") offers (text "DIGEST") (text "nonce=2") upper_no
      ntlm_ne no_choice
