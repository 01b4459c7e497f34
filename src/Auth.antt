-- ===== src/Auth.antt =====
-- internal/auth: the choice of an authentication scheme for an upstream proxy (auth.go), with
-- `challengeForScheme` of internal/proxy/handler.go, which reads the later challenges.
pub mod Negotiate
pub mod Choice
pub mod Session
pub mod Params
use px_go.Prelude.{
  ℕ, Bool, true, false, not, ◌&&◌, ◌||◌, List, [], ◌∷◌, Option, none, some, if◌then◌else◌,
}
use px_go.Strings.{
  Bytes, text, equal, equal_fold, is_empty, trim_space, to_upper, cut, has_prefix, trim_prefix,
}
use px_go.Dict.{lookup, insert}

-- `if len(parts) > 1`: what follows the space, if there is one.
abbrev rest_or_empty : Option Bytes → Bytes
rest_or_empty none = []
rest_or_empty (some rest) = trim_space rest

-- The name and the rest of a challenge that is not blank.
unfoldable pub challenge_parts : Bytes → Bytes × Bytes
challenge_parts value =
    let (scheme, rest) = cut b' ' (trim_space value) in
    (to_upper (trim_space scheme), rest_or_empty rest)

-- The loop of `parseChallenges`; `out` is the map built so far.
unfoldable pub parse_from : List (Bytes × Bytes) → List Bytes → List (Bytes × Bytes)
unfolding challenge_parts
parse_from out [] = out
parse_from out (value ∷ values) =
    parse_from
      (if is_empty (trim_space value)
        then out
        else insert (challenge_parts value).0 (challenge_parts value).1 out)
      values

unfoldable pub parse_challenges : List Bytes → List (Bytes × Bytes)
unfolding parse_from
parse_challenges values = parse_from [] values

unfoldable pub exclude_scheme : List Bytes → Bytes → List Bytes
exclude_scheme [] exclude = []
exclude_scheme (item ∷ list) exclude =
    let rest = exclude_scheme list exclude in if equal item exclude then rest else item ∷ rest

abbrev pub safe_schemes : List Bytes
safe_schemes = text "NEGOTIATE" ∷ text "NTLM" ∷ text "DIGEST" ∷ []

abbrev pub all_schemes : List Bytes
all_schemes = text "NEGOTIATE" ∷ text "NTLM" ∷ text "DIGEST" ∷ text "BASIC" ∷ []

-- The `switch` of `preferenceOrder`, on the preference in upper case and trimmed.
unfoldable pub order_of : Bytes → List Bytes
unfolding exclude_scheme
order_of preference =
    if is_empty preference || equal preference (text "ANY")
    then all_schemes
    else if equal preference (text "ANYSAFE")
    then safe_schemes
    else if equal preference (text "NONE")
    then []
    else if has_prefix preference (text "ONLY")
    then trim_prefix preference (text "ONLY") ∷ []
    else if has_prefix preference (text "SAFE")
        && has_prefix (trim_prefix preference (text "SAFE")) (text "NO")
    then exclude_scheme safe_schemes
        (trim_prefix (trim_prefix preference (text "SAFE")) (text "NO"))
    else if has_prefix preference (text "NO")
    then exclude_scheme all_schemes (trim_prefix preference (text "NO"))
    else preference ∷ []

unfoldable pub preference_order : Bytes → List Bytes
unfolding order_of
preference_order preference = order_of (to_upper (trim_space preference))

-- The loop of `ChooseScheme`
unfoldable pub first_offered : List (Bytes × Bytes) → List Bytes → Option (Bytes × Bytes)
first_offered offered [] = none
first_offered offered (scheme ∷ schemes) = elim (lookup scheme offered) [
  | some challenge ↦ some (scheme, challenge)
  | none ↦ first_offered offered schemes
]

unfoldable pub choose_scheme : Bytes → List Bytes → Option (Bytes × Bytes)
unfolding first_offered preference_order parse_challenges
choose_scheme preference challenges =
    first_offered (parse_challenges challenges) (preference_order preference)

abbrev some_or_empty : Option Bytes → Bytes
some_or_empty none = []
some_or_empty (some rest) = rest

-- `challengeForScheme` of internal/proxy/handler.go
unfoldable pub challenge_for_scheme : List Bytes → Bytes → Bytes
challenge_for_scheme [] scheme = []
challenge_for_scheme (value ∷ challenges) scheme =
    let (name, rest) = cut b' ' (trim_space value) in
    if equal_fold name scheme then some_or_empty rest else challenge_for_scheme challenges scheme
