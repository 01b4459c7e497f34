-- ===== src/Auth/Params.antt =====
-- The parameters of a Digest header, as internal/auth/digest.go writes them and
-- `parseDigestChallenge` there and `parseAuthHeader` of internal/clientauth/digest.go read them.
use mathlib.Core.List.{reverse-append, reverse-reverse, append_assoc}
use px_go.Prelude.{
  ℕ, ◌≡◌, refl, sym, ◌∙◌, ap, Bool, true, false, ◌||◌, ◌&&◌, not, List, [], ◌∷◌, ◌++◌, reverse,
  ◌==◌, All, All-append, or-eq_false,
}
use mathlib.Core.Path.{subst}
use px_go.Strings.{
  Bytes, text, split, split_func, cut, trim_left, trim_both, trim_space, is_space, to_lower,
  cons_first,
}
use px_go.Strings.Laws.{StartsOutside, trim_left_of_StartsOutside}
use px_go.Strings.Split.{
  Avoids, split_func-append, split_func-Avoids, trim_space-Avoids, cut-Avoids, trim_left-Avoids,
  reverse_aux-Avoids,
}
use px_go.Dict.{insert}
use px_go.Auth.Session.{with_param, parse_params, parse_params_from, join_params}

pub record Param : Type 0 where
  pub key : Bytes
  pub value : Bytes
  pub is_quoted : Bool

abbrev pub enclosed : Bool → Bytes → Bytes
enclosed true value = text "\"" ++ (value ++ text "\"")
enclosed false value = value

abbrev pub print : Param → Bytes
print p = p.key ++ (b'=' ∷ enclosed p.is_quoted p.value)

abbrev pub is_quote : ℕ → Bool
is_quote c = c == b'"'

-- The bytes that have a meaning in the list of parameters.
abbrev pub is_mark : ℕ → Bool
is_mark c = c == b',' || is_quote c

-- A key of small letters.
abbrev pub IsKey : Bytes → Type 0
IsKey key =
    Avoids is_space key
    × (Avoids (λ c. c == b',') key × (Avoids (λ c. c == b'=') key × (to_lower key ≡ key)))

-- No marks in the value, and no space in it either unless it is quoted.
abbrev pub IsValue : Bool → Bytes → Type 0
IsValue q value = Avoids is_mark value × (q ≡ false → Avoids is_space value)

abbrev pub IsParam : Param → Type 0
IsParam p = IsKey p.key × IsValue p.is_quoted p.value

-- The map with the parameters, the later ones in place of the earlier ones.
abbrev pub insert_all : List (Bytes × Bytes) → List Param → List (Bytes × Bytes)
insert_all out [] = out
insert_all out (p ∷ ps) = insert_all (insert p.key p.value out) ps

Avoids-comma : (s : Bytes) → Avoids is_mark s → Avoids (λ c. c == b',') s
Avoids-comma [] h = tt
Avoids-comma (c ∷ s) h = ((or-eq_false (c == b',') (is_quote c) h.0).0, Avoids-comma s h.1)

Avoids-quote : (s : Bytes) → Avoids is_mark s → Avoids is_quote s
Avoids-quote [] h = tt
Avoids-quote (c ∷ s) h = ((or-eq_false (c == b',') (is_quote c) h.0).1, Avoids-quote s h.1)

trim_both-outside :
    (p : ℕ → Bool) (s : Bytes) → StartsOutside p s → StartsOutside p (reverse s) → trim_both p s ≡ s
unfolding trim_both
trim_both-outside p s h g =
    rw (trim_left_of_StartsOutside p s h, trim_left_of_StartsOutside p (reverse s) g)
      (reverse-reverse s)

-- A text in quotes has no space at its ends.
trim_space-quoted :
    (s : Bytes)
    → StartsOutside is_space (s ++ text "\"")
    → trim_space (s ++ text "\"") ≡ s ++ text "\""
unfolding trim_space
trim_space-quoted s h =
    trim_both-outside is_space (s ++ text "\"") h (rw (reverse-append s (text "\"")) refl)

trim_both-quoted :
    (s : Bytes) → Avoids is_quote s → trim_both is_quote (text "\"" ++ (s ++ text "\"")) ≡ s
unfolding trim_both trim_left
trim_both-quoted [] h = refl
trim_both-quoted (c ∷ s) h =
    let back = reverse_aux-Avoids is_quote (c ∷ s) [] h tt in
    ap (λ t. reverse (trim_left is_quote (reverse t)))
      (trim_left_of_StartsOutside is_quote (c ∷ (s ++ text "\"")) h.0)
    ∙ ap (λ t. reverse (trim_left is_quote t)) (reverse-append (c ∷ s) (text "\""))
    ∙ ap reverse (trim_left-Avoids is_quote (reverse (c ∷ s)) back)
    ∙ reverse-reverse (c ∷ s)

trim_both-Avoids : (p : ℕ → Bool) (s : Bytes) → Avoids p s → trim_both p s ≡ s
unfolding trim_both
trim_both-Avoids p s h =
    rw (trim_left-Avoids p s h, trim_left-Avoids p (reverse s) (reverse_aux-Avoids p s [] h tt))
      (reverse-reverse s)

StartsOutside-key :
    (p : ℕ → Bool) (key : Bytes) (c : ℕ) (rest : Bytes)
    → Avoids p key
    → p c ≡ false
    → StartsOutside p (key ++ (c ∷ rest))
StartsOutside-key p [] c rest h g = g
StartsOutside-key p (d ∷ key) c rest h g = h.0

-- The value is read without its quotes.
enclosed-trim :
    (q : Bool) (value : Bytes)
    → IsValue q value
    → trim_both is_quote (trim_space (enclosed q value)) ≡ value
unfolding is_space
enclosed-trim true value (marks, _) =
    ap (trim_both is_quote) (trim_space-quoted (text "\"" ++ value) refl)
    ∙ trim_both-quoted value (Avoids-quote value marks)
enclosed-trim false value (marks, spaces) =
    ap (trim_both is_quote) (trim_space-Avoids value (spaces refl))
    ∙ trim_both-Avoids is_quote value (Avoids-quote value marks)

-- A parameter has no space at its ends.
enclosed-trim_space :
    (key : Bytes) (q : Bool) (value : Bytes)
    → Avoids is_space key
    → IsValue q value
    → trim_space (key ++ (b'=' ∷ enclosed q value)) ≡ key ++ (b'=' ∷ enclosed q value)
unfolding is_space
enclosed-trim_space key true value spaces _ =
    let front = key ++ (text "=\"" ++ value) in
    let shape : front ++ text "\"" ≡ key ++ (text "=\"" ++ (value ++ text "\"")) =
      append_assoc key (text "=\"" ++ value) (text "\"") in
    let starts =
      StartsOutside-key is_space key b'=' (text "\"" ++ (value ++ text "\"")) spaces refl in
    ap trim_space (sym shape)
    ∙ trim_space-quoted front (subst (StartsOutside is_space) (sym shape) starts)
    ∙ shape
enclosed-trim_space key false value spaces (_, free) =
    trim_space-Avoids (key ++ (b'=' ∷ value))
      (All-append (λ c. is_space c ≡ false) key (b'=' ∷ value) spaces (refl, free refl))

-- One round of the loop that reads parameters.
parse_params_from-print :
    (out : List (Bytes × Bytes)) (part : Bytes) (p : Param) (parts : List Bytes)
    → IsParam p
    → trim_space part ≡ print p
    → parse_params_from out (part ∷ parts) ≡ parse_params_from (insert p.key p.value out) parts
unfolding parse_params_from
parse_params_from-print out part p parts ((spaces, (_, (equals, small))), v) e =
    let value = enclosed p.is_quoted p.value in
    ap (λ c. parse_params_from (with_param out c) parts)
      (ap (cut b'=') e ∙ cut-Avoids b'=' p.key value equals)
    ∙ ap (λ k. parse_params_from (insert k (trim_both is_quote (trim_space value)) out) parts)
        (ap to_lower (trim_space-Avoids p.key spaces) ∙ small)
    ∙ ap (λ v. parse_params_from (insert p.key v out) parts) (enclosed-trim p.is_quoted p.value v)

-- The parts behind the first one begin with a space.
abbrev spaced : List Param → List Bytes
spaced [] = []
spaced (p ∷ ps) = (b' ' ∷ print p) ∷ spaced ps

pub trim_space-spaced : (s : Bytes) → trim_space (b' ' ∷ s) ≡ trim_space s
unfolding trim_space trim_both trim_left is_space
trim_space-spaced s = refl

parse_params_from-spaced :
    (ps : List Param) (out : List (Bytes × Bytes))
    → All IsParam ps
    → parse_params_from out (spaced ps) ≡ insert_all out ps
unfolding parse_params_from
parse_params_from-spaced [] out h = refl
parse_params_from-spaced (p ∷ ps) out (h, hs) =
    parse_params_from-print out (b' ' ∷ print p) p (spaced ps) h
      (trim_space-spaced (print p) ∙ enclosed-trim_space p.key p.is_quoted p.value h.0.0 h.1)
    ∙ parse_params_from-spaced ps (insert p.key p.value out) hs

enclosed-comma :
    (q : Bool) (value : Bytes) → Avoids is_mark value → Avoids (λ c. c == b',') (enclosed q value)
enclosed-comma true value marks = (
  refl,
  All-append (λ c. (c == b',') ≡ false) value (text "\"") (Avoids-comma value marks) (refl, tt),
)
enclosed-comma false value marks = Avoids-comma value marks

print-comma : (p : Param) → IsParam p → Avoids (λ c. c == b',') (print p)
print-comma p ((_, (commas, _)), (marks, _)) =
    All-append (λ c. (c == b',') ≡ false) p.key (b'=' ∷ enclosed p.is_quoted p.value) commas
      (refl, enclosed-comma p.is_quoted p.value marks)

abbrev pub prints : List Param → List Bytes
prints [] = []
prints (p ∷ ps) = print p ∷ prints ps

split-join_params :
    (p : Param) (ps : List Param)
    → IsParam p
    → All IsParam ps
    → split b',' (join_params (prints (p ∷ ps))) ≡ print p ∷ spaced ps
unfolding split split_func join_params
split-join_params p [] h hs = split_func-Avoids (λ c. c == b',') (print p) (print-comma p h)
split-join_params p (r ∷ ps) h (g, hs) =
    split_func-append (λ c. c == b',') (print p) (b' ' ∷ join_params (prints (r ∷ ps))) b',' refl
    ∙ ap (λ l. l ++ cons_first b' ' (split b',' (join_params (prints (r ∷ ps)))))
        (split_func-Avoids (λ c. c == b',') (print p) (print-comma p h))
    ∙ ap (λ l. print p ∷ cons_first b' ' l) (split-join_params r ps g hs)

-- Parameters that are written one after the other are read back as they were.
pub parse_params-join_params :
    (p : Param) (ps : List Param)
    → IsParam p
    → All IsParam ps
    → parse_params (join_params (prints (p ∷ ps))) ≡ insert_all [] (p ∷ ps)
unfolding parse_params
parse_params-join_params p ps h hs =
    ap (parse_params_from []) (split-join_params p ps h hs)
    ∙ parse_params_from-print [] (print p) p (spaced ps) h
        (enclosed-trim_space p.key p.is_quoted p.value h.0.0 h.1)
    ∙ parse_params_from-spaced ps (insert p.key p.value []) hs

-- The last parameter is quoted.
abbrev pub LastQuoted : Param → List Param → Type 0
LastQuoted p [] = p.is_quoted ≡ true
LastQuoted p (r ∷ ps) = LastQuoted r ps

join_params-LastQuoted :
    (p : Param) (ps : List Param)
    → LastQuoted p ps
    → (front : Bytes) × (join_params (prints (p ∷ ps)) ≡ front ++ text "\"")
unfolding join_params
join_params-LastQuoted p [] h = (
  p.key ++ (b'=' ∷ (text "\"" ++ p.value)),
  ap (λ q. p.key ++ (b'=' ∷ enclosed q p.value)) h
      ∙ sym (append_assoc p.key (b'=' ∷ (text "\"" ++ p.value)) (text "\"")),
)
join_params-LastQuoted p (r ∷ ps) h =
    let (front, e) = join_params-LastQuoted r ps h in
    (
      print p ++ (text ", " ++ front),
      ap (λ t. print p ++ (text ", " ++ t)) e
          ∙ sym (append_assoc (print p) (text ", " ++ front) (text "\"")),
    )

-- Such parameters have no space at their ends.
pub trim_space-join_params :
    (p : Param) (ps : List Param)
    → LastQuoted p ps
    → StartsOutside is_space (join_params (prints (p ∷ ps)))
    → trim_space (join_params (prints (p ∷ ps))) ≡ join_params (prints (p ∷ ps))
trim_space-join_params p ps h starts =
    let (front, e) = join_params-LastQuoted p ps h in
    ap trim_space e ∙ trim_space-quoted front (subst (StartsOutside is_space) e starts) ∙ sym e

-- A test for `IsKey`, but for the letters.
abbrev pub is_key : Bytes → Bool
is_key [] = true
is_key (c ∷ s) = not (is_space c || (c == b',' || c == b'=')) && is_key s

key_byte : (a b : Bool) → (not a && b) ≡ true → (a ≡ false) × (b ≡ true)
key_byte false true h = (refl, refl)
key_byte false false h = cc
key_byte true b h = cc

is_key-IsKey :
    (key : Bytes)
    → is_key key ≡ true
    → Avoids is_space key × (Avoids (λ c. c == b',') key × Avoids (λ c. c == b'=') key)
is_key-IsKey [] h = (tt, (tt, tt))
is_key-IsKey (c ∷ s) h =
    let (this, others) = key_byte (is_space c || (c == b',' || c == b'=')) (is_key s) h in
    let (space, two) = or-eq_false (is_space c) (c == b',' || c == b'=') this in
    let (comma, equals) = or-eq_false (c == b',') (c == b'=') two in
    let (spaces, (commas, signs)) = is_key-IsKey s others in
    ((space, spaces), ((comma, commas), (equals, signs)))

pub make_IsKey : (key : Bytes) → is_key key ≡ true → to_lower key ≡ key → IsKey key
make_IsKey key h small =
    let (spaces, (commas, signs)) = is_key-IsKey key h in (spaces, (commas, (signs, small)))
