-- ===== src/Auth/Choice.antt =====
-- What internal/auth/auth.go chooses: the first scheme of the preference that is offered.
use px_go.Prelude.{
  ◌≡◌, ◌≢◌, inl, inr, refl, sym, ap, ◌∙◌, List, [], ◌∷◌, ◌++◌, Option, none, some, arith, All,
  Option-cases, Bool-cases, if◌then◌else◌,
}
use px_go.Strings.{Bytes, text, equal, has_prefix, trim_prefix, trim_space, to_upper, is_empty}
use px_go.Strings.Laws.{equal_iff}
use px_go.Dict.{lookup, insert, lookup-insert}
use px_go.Auth.{
  challenge_parts, parse_from, parse_challenges, exclude_scheme, safe_schemes, all_schemes,
  order_of, preference_order, first_offered, choose_scheme,
}

-- The challenge that a list of header values holds for a scheme: that of the last value which
-- is not blank and names the scheme.
unfoldable pub last_challenge : Bytes → List Bytes → Option Bytes
last_challenge scheme [] = none
last_challenge scheme (value ∷ values) = elim (last_challenge scheme values) [
  | some later ↦ some later
  | none ↦
      if is_empty (trim_space value)
      then none
      else if equal (challenge_parts value).0 scheme
      then some (challenge_parts value).1
      else none
]

abbrev or_else : Option Bytes → Option Bytes → Option Bytes
or_else (some a) b = some a
or_else none b = b

lookup-parse_from :
    (scheme : Bytes) (out : List (Bytes × Bytes)) (values : List Bytes)
    → lookup scheme (parse_from out values)
      ≡ or_else (last_challenge scheme values) (lookup scheme out)
unfolding parse_from last_challenge
lookup-parse_from scheme out [] = refl
lookup-parse_from scheme out (value ∷ values) = ground (
  arith,
  lookup-parse_from scheme
      (if is_empty (trim_space value)
        then out
        else insert (challenge_parts value).0 (challenge_parts value).1 out)
      values,
  lookup-insert (challenge_parts value).0 scheme (challenge_parts value).1 out,
)

lookup-parse_challenges :
    (scheme : Bytes) (values : List Bytes)
    → lookup scheme (parse_challenges values) ≡ last_challenge scheme values
unfolding parse_challenges lookup
lookup-parse_challenges scheme values = ground (arith, lookup-parse_from scheme [] values)

-- The scheme and challenge that the order and the offers leave: nothing earlier in the order is
-- offered.
abbrev pub Chosen : List Bytes → (Bytes → Option Bytes) → Option (Bytes × Bytes) → Type 0
Chosen order offer none = All (λ (t : Bytes). offer t ≡ none) order
Chosen order offer (some (scheme, challenge)) =
    (before : List Bytes) × (after : List Bytes) × (order ≡ before ++ (scheme ∷ after))
    × All (λ (t : Bytes). offer t ≡ none) before
    × (offer scheme ≡ some challenge)

Chosen-cons :
    (t : Bytes) (order : List Bytes) (offer : Bytes → Option Bytes) (o : Option (Bytes × Bytes))
    → offer t ≡ none
    → Chosen order offer o
    → Chosen (t ∷ order) offer o
Chosen-cons t order offer none miss h = (miss, h)
Chosen-cons t order offer (some (scheme, challenge)) miss (before, after, splits, skipped, hit) =
    (t ∷ before, after, ap (◌∷◌ t) splits, (miss, skipped), hit)

first_offered-Chosen :
    (offered : List (Bytes × Bytes)) (offer : Bytes → Option Bytes)
    → ((t : Bytes) → lookup t offered ≡ offer t)
    → (order : List Bytes) → Chosen order offer (first_offered offered order)
unfolding first_offered
first_offered-Chosen offered offer same [] = tt
first_offered-Chosen offered offer same (t ∷ order) = elim (Option-cases (lookup t offered)) [
  | inr (challenge, hit) ↦ rw (hit, first_offered) ([], order, refl, tt, sym (same t) ∙ hit)
  | inl miss ↦
      rw (miss, first_offered)
        (Chosen-cons t order offer (first_offered offered order) (sym (same t) ∙ miss)
          (first_offered-Chosen offered offer same order))
]

-- `ChooseScheme` returns the first scheme of the preference order for which the challenges hold a
-- value, with the last such value, and reports failure exactly when they hold none for any scheme
-- of the order.
pub choose_scheme-Chosen :
    (preference : Bytes) (challenges : List Bytes)
    → Chosen
        (preference_order preference)
        (λ t. last_challenge t challenges)
        (choose_scheme preference challenges)
unfolding choose_scheme
choose_scheme-Chosen preference challenges =
    first_offered-Chosen (parse_challenges challenges) (λ t. last_challenge t challenges)
      (λ t. lookup-parse_challenges t challenges) (preference_order preference)

All-exclude_scheme :
    (x : Bytes) (list : List Bytes) → All (λ (t : Bytes). t ≢ x) (exclude_scheme list x)
unfolding exclude_scheme
All-exclude_scheme x [] = tt
All-exclude_scheme x (t ∷ list) = elim (Bool-cases (equal t x)) [
  | inl e ↦ rw (e, exclude_scheme) (All-exclude_scheme x list)
  | inr e ↦ rw (e, exclude_scheme) ((λ q. ground (arith, equal_iff t x)), All-exclude_scheme x list)
]

All-exclude_scheme_of_All :
    (P : Bytes → Type 0) (x : Bytes) (list : List Bytes)
    → All P list
    → All P (exclude_scheme list x)
unfolding exclude_scheme
All-exclude_scheme_of_All P x [] a = tt
All-exclude_scheme_of_All P x (t ∷ list) a = elim (Bool-cases (equal t x)) [
  | inl e ↦ rw (e, exclude_scheme) (All-exclude_scheme_of_All P x list a.1)
  | inr e ↦ rw (e, exclude_scheme) (a.0, All-exclude_scheme_of_All P x list a.1)
]

All-middle :
    (P : Bytes → Type 0) (before after : List Bytes) (x : Bytes)
    → All P (before ++ (x ∷ after))
    → P x
All-middle P [] after x a = a.0
All-middle P (t ∷ before) after x a = All-middle P before after x a.1

-- What holds of every scheme in the order holds of the chosen one.
chosen-All :
    (P : Bytes → Type 0) (preference : Bytes) (challenges : List Bytes) (s c : Bytes)
    → All P (preference_order preference)
    → choose_scheme preference challenges ≡ some (s, c)
    → P s
chosen-All P preference challenges s c a e =
    let (before, after, splits, _, _) = rw e at (choose_scheme-Chosen preference challenges) in
    All-middle P before after s (rw splits at a)

not_basic : All (λ (t : Bytes). t ≢ text "BASIC") safe_schemes
not_basic = ((λ e. cc e), ((λ e. cc e), ((λ e. cc e), tt)))

order_of_safe_no : (x : Bytes) → order_of (text "SAFENO" ++ x) ≡ exclude_scheme safe_schemes x
unfolding order_of equal has_prefix trim_prefix
order_of_safe_no x = refl

order_of_no : (x : Bytes) → x ≢ text "NE" → order_of (text "NO" ++ x) ≡ exclude_scheme all_schemes x
unfolding order_of equal has_prefix trim_prefix
order_of_no x ne = ground (arith, equal_iff x (text "NE"))

-- A preference `SAFENOx` never leads to the scheme x, nor to BASIC, whatever the proxy offers.
pub choose_scheme_safe_no :
    (preference x : Bytes) (challenges : List Bytes) (s c : Bytes)
    → to_upper (trim_space preference) ≡ text "SAFENO" ++ x
    → choose_scheme preference challenges ≡ some (s, c)
    → (s ≢ x) × (s ≢ text "BASIC")
choose_scheme_safe_no preference x challenges s c is e =
    let order : preference_order preference ≡ exclude_scheme safe_schemes x =
      unfold preference_order in ap order_of is ∙ order_of_safe_no x in
    (
      chosen-All (λ t. t ≢ x) preference challenges s c
          (rw order (All-exclude_scheme x safe_schemes)) e,
      chosen-All (λ t. t ≢ text "BASIC") preference challenges s c
          (rw order (All-exclude_scheme_of_All (λ t. t ≢ text "BASIC") x safe_schemes not_basic)) e,
    )

-- A preference `NOx` other than NONE never leads to the scheme x, whatever the proxy offers.
pub choose_scheme_no :
    (preference x : Bytes) (challenges : List Bytes) (s c : Bytes)
    → to_upper (trim_space preference) ≡ text "NO" ++ x
    → x ≢ text "NE"
    → choose_scheme preference challenges ≡ some (s, c)
    → s ≢ x
choose_scheme_no preference x challenges s c is ne e =
    let order : preference_order preference ≡ exclude_scheme all_schemes x =
      unfold preference_order in ap order_of is ∙ order_of_no x ne in
    chosen-All (λ t. t ≢ x) preference challenges s c (rw order (All-exclude_scheme x all_schemes))
      e
