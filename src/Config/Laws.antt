-- ===== src/Config/Laws.antt =====
-- The lists, checks and loops of internal/config/config.go.
use px_go.Prelude.{
  ℕ, ◌≤◌, ◌≡◌, ◌↔◌, inl, inr, refl, true, false, not, ◌&&◌, ◌||◌, List, [], ◌∷◌, ◌++◌, map, Option,
  none, some, arith, Bool-cases, Option-cases,
}
use px_go.Strings.{is_member, Bytes, is_empty, trim_space}
use px_go.Strings.Laws.{equal_iff, equal_refl}
use px_go.Config.{
  ℤ, pos, negsuc, Config, is_port, is_positive, normalize_from, normalize_csv, validate,
}
use px_go.Config.Values.{apply_value, apply_sorted}

-- No entry occurs twice.
abbrev pub IsDistinct : List Bytes → Type 0
IsDistinct [] = Unit {0}
IsDistinct (w ∷ ws) = (is_member w ws ≡ false) × IsDistinct ws

is_member-normalize_from :
    (seen items : List Bytes) (k : Bytes)
    → is_member k (normalize_from seen items)
      ≡ (not (is_empty k) && (not (is_member k seen) && is_member k (map trim_space items)))
unfolding normalize_from
is_member-normalize_from seen [] k = ground arith
is_member-normalize_from seen (item ∷ items) k = ground (
  arith,
  equal_iff k (trim_space item),
  is_member-normalize_from seen items k,
  is_member-normalize_from (trim_space item ∷ seen) items k,
)

-- The list that `normalizeCSV` returns has the non-empty trimmed entries of its input, and no other.
pub is_member-normalize_csv :
    (values : List Bytes) (k : Bytes)
    → is_member k (normalize_csv values) ≡ (not (is_empty k) && is_member k (map trim_space values))
unfolding normalize_csv
is_member-normalize_csv values k = is_member-normalize_from [] values k

normalize_from-IsDistinct : (seen items : List Bytes) → IsDistinct (normalize_from seen items)
unfolding normalize_from
normalize_from-IsDistinct seen [] = tt
normalize_from-IsDistinct seen (item ∷ items) =
    elim (Bool-cases (is_empty (trim_space item) || is_member (trim_space item) seen)) [
      | inl t ↦ rw t (normalize_from-IsDistinct seen items)
      | inr t ↦ rw t (
        ground (
          arith,
          equal_refl (trim_space item),
          is_member-normalize_from (trim_space item ∷ seen) items (trim_space item),
        ),
        normalize_from-IsDistinct (trim_space item ∷ seen) items,
      )
    ]

-- The list that `normalizeCSV` returns has no entry twice.
pub normalize_csv-IsDistinct : (values : List Bytes) → IsDistinct (normalize_csv values)
unfolding normalize_csv
normalize_csv-IsDistinct values = normalize_from-IsDistinct [] values

-- What `validate` accepts: a port in 1 to 65535, and at least one thread and one worker.
abbrev pub IsValid : Config → Type 0
IsValid c =
    ((p : ℕ) × (c.proxy.port ≡ pos p) × (1 ≤ p) × (p ≤ 65535))
    × ((t : ℕ) × (c.settings.threads ≡ pos t) × (1 ≤ t))
    × ((w : ℕ) × (c.settings.workers ≡ pos w) × (1 ≤ w))

is_port_iff : (z : ℤ) → (is_port z ≡ true) ↔ ((p : ℕ) × (z ≡ pos p) × (1 ≤ p) × (p ≤ 65535))
is_port_iff (pos n) = ((λ h. (n, refl, ground arith, ground arith)), λ (p, e, l, u). ground arith)
is_port_iff (negsuc n) = ((λ h. cc h), λ (p, e, l, u). cc e)

is_positive_iff : (z : ℤ) → (is_positive z ≡ true) ↔ ((p : ℕ) × (z ≡ pos p) × (1 ≤ p))
is_positive_iff (pos n) = ((λ h. (n, refl, ground arith)), λ (p, e, l). ground arith)
is_positive_iff (negsuc n) = ((λ h. cc h), λ (p, e, l). cc e)

validate_iff :
    (c : Config)
    → (validate c ≡ none) ↔ (
        (is_port c.proxy.port ≡ true)
        × (is_positive c.settings.threads ≡ true)
        × (is_positive c.settings.workers ≡ true))
unfolding validate
validate_iff c = ground arith

-- `validate` finds no error exactly in the settings with a port in 1 to 65535, at least one thread
-- and at least one worker.
pub validate-IsValid : (c : Config) → (validate c ≡ none) ↔ IsValid c
validate-IsValid c =
    let v = validate_iff c in
    let p = is_port_iff c.proxy.port in
    let t = is_positive_iff c.settings.threads in
    let w = is_positive_iff c.settings.workers in
    ((λ h. let (a, b, d) = v.0 h in (p.0 a, t.0 b, w.0 d)), λ (a, b, d). v.1 (p.1 a, t.1 b, w.1 d))

-- A value that does not parse ends the loop: the keys before it are applied, the keys behind it are
-- not, whatever they are.
pub apply_sorted_stop :
    (parse_seconds : Bytes → Option ℤ) (c d : Config) (xs ys : List (Bytes × Bytes))
    (key raw : Bytes)
    → apply_sorted parse_seconds c xs ≡ (d, none)
    → apply_value parse_seconds d (key, raw) ≡ none
    → apply_sorted parse_seconds c (xs ++ ((key, raw) ∷ ys)) ≡ (d, some key)
unfolding apply_sorted
apply_sorted_stop parse_seconds c d [] ys key raw done bad = ground arith
apply_sorted_stop parse_seconds c d (x ∷ xs) ys key raw done bad =
    elim (Option-cases (apply_value parse_seconds c x)) [
      | inl e ↦ ground arith
      | inr (b, e) ↦
          rw (apply_sorted, e)
            (apply_sorted_stop parse_seconds b d xs ys key raw (ground arith) bad)
    ]
