-- ===== src/Strings/Laws.antt =====
-- Laws of the string functions that the components share.
use px_go.Prelude.{
  ℕ, ◌≡◌, ◌≢◌, ◌↔◌, inl, inr, refl, Bool, true, false, [], ◌∷◌, ◌++◌, some, arith, Bool-cases,
}
use px_go.Strings.{Bytes, equal, is_empty, trim_left, strip_prefix}

pub equal_iff : (s t : Bytes) → (equal s t ≡ true) ↔ (s ≡ t)
unfolding equal
equal_iff [] [] = ground arith
equal_iff [] (d ∷ t) = ground arith
equal_iff (c ∷ s) [] = ground arith
equal_iff (c ∷ s) (d ∷ t) = ground (equal_iff s t, arith)

pub equal_refl : (a : Bytes) → equal a a ≡ true
equal_refl a = (equal_iff a a).1 refl

pub equal_of_ne : (a b : Bytes) → a ≢ b → equal a b ≡ false
equal_of_ne a b h = elim (Bool-cases (equal a b)) [
  | inl e ↦ absurd (h ((equal_iff a b).0 e))
  | inr e ↦ e
]

pub equal_comm : (a b : Bytes) → equal a b ≡ equal b a
unfolding equal
equal_comm (x ∷ a) (y ∷ b) = ground (arith, equal_comm a b)
equal_comm [] [] = refl
equal_comm [] (y ∷ b) = refl
equal_comm (x ∷ a) [] = refl

-- A prefix is stripped exactly when the text is that prefix and the rest.
pub strip_prefix_sound : (p s r : Bytes) → strip_prefix p s ≡ some r → s ≡ p ++ r
unfolding strip_prefix
strip_prefix_sound [] s r h = ground arith
strip_prefix_sound (x ∷ p) [] r h = cc
strip_prefix_sound (x ∷ p) (c ∷ s) r h = ground (arith, strip_prefix_sound p s r)

pub strip_prefix-append : (p r : Bytes) → strip_prefix p (p ++ r) ≡ some r
unfolding strip_prefix
strip_prefix-append [] r = refl
strip_prefix-append (x ∷ p) r = ground (arith, strip_prefix-append p r)

-- A text whose first byte the test refuses, or the empty text.
abbrev pub StartsOutside : (ℕ → Bool) → Bytes → Type 0
StartsOutside p [] = Unit
StartsOutside p (c ∷ _) = p c ≡ false

pub trim_left-StartsOutside : (p : ℕ → Bool) (s : Bytes) → StartsOutside p (trim_left p s)
unfolding trim_left
trim_left-StartsOutside p [] = tt
trim_left-StartsOutside p (c ∷ s) = elim (Bool-cases (p c)) [
  | inl e ↦ rw (e, trim_left) (trim_left-StartsOutside p s)
  | inr e ↦ rw (e, trim_left) e
]

pub trim_left_of_StartsOutside : (p : ℕ → Bool) (s : Bytes) → StartsOutside p s → trim_left p s ≡ s
unfolding trim_left
trim_left_of_StartsOutside p [] h = refl
trim_left_of_StartsOutside p (c ∷ s) h = rw (h, trim_left)

pub is_empty_of_ne : (s : Bytes) → s ≢ [] → is_empty s ≡ false
is_empty_of_ne [] ne = absurd (ne refl)
is_empty_of_ne (x ∷ s) ne = refl
