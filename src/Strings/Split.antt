-- ===== src/Strings/Split.antt =====
-- Laws of splitting, cutting and trimming in Strings.antt.
use px_go.Prelude.{
  ℕ, ◌≡◌, ◌≢◌, inl, inr, refl, Bool, true, false, List, [], ◌∷◌, ◌++◌, reverse, some, ◌==◌,
  Bool-cases, All, arith, ==_iff,
}
use mathlib.Core.List.{reverse_aux, reverse-reverse}
use px_go.Strings.{
  Bytes, split_func, cons_first, cut, contains, has_prefix, strip_prefix, trim_left, trim_both,
  trim_space, is_space, join,
}

==_refl : (b : ℕ) → (b == b) ≡ true
==_refl b = (==_iff b b).1 refl

-- A text in which the test refuses every byte.
abbrev pub Avoids : (ℕ → Bool) → Bytes → Type 0
Avoids p s = All (λ c. p c ≡ false) s

cons_first-append :
    (x : ℕ) (ws vs : List Bytes) → ws ≢ [] → cons_first x (ws ++ vs) ≡ cons_first x ws ++ vs
cons_first-append x [] vs h = absurd (h refl)
cons_first-append x (w ∷ ws) vs h = refl

cons_first-cons : (x : ℕ) (ws : List Bytes) → cons_first x ws ≢ []
cons_first-cons x [] e = cc e
cons_first-cons x (w ∷ ws) e = cc e

split_func-cons : (p : ℕ → Bool) (a : Bytes) → split_func p a ≢ []
unfolding split_func
split_func-cons p [] = λ e. cc e
split_func-cons p (x ∷ a) = elim (Bool-cases (p x)) [
  | inl t ↦ rw t (λ e. cc e)
  | inr t ↦ rw t (cons_first-cons x (split_func p a))
]

pub split_func-append :
    (p : ℕ → Bool) (a b : Bytes) (c : ℕ)
    → p c ≡ true
    → split_func p (a ++ (c ∷ b)) ≡ split_func p a ++ split_func p b
unfolding split_func
split_func-append p [] b c h = rw h refl
split_func-append p (x ∷ a) b c h = rw (split_func-append p a b c h) (elim (Bool-cases (p x)) [
  | inl t ↦ rw t refl
  | inr t ↦ rw t (cons_first-append x (split_func p a) (split_func p b) (split_func-cons p a))
])

pub split_func-Avoids : (p : ℕ → Bool) (s : Bytes) → Avoids p s → split_func p s ≡ s ∷ []
unfolding split_func
split_func-Avoids p [] h = refl
split_func-Avoids p (c ∷ s) h = rw (h.0, split_func-Avoids p s h.1) refl

-- Splitting a joined list of texts that avoid the separators gives the list back.
pub split_func-join :
    (p : ℕ → Bool) (b : ℕ) (w : Bytes) (ws : List Bytes)
    → p b ≡ true
    → Avoids p w
    → All (Avoids p) ws
    → split_func p (join b (w ∷ ws)) ≡ w ∷ ws
unfolding join
split_func-join p b w [] hb hw h = split_func-Avoids p w hw
split_func-join p b w (v ∷ ws) hb hw h =
    rw
      (
        split_func-append p w (join b (v ∷ ws)) b hb,
        split_func-Avoids p w hw,
        split_func-join p b v ws hb h.0 h.1,
      )
      refl

pub trim_left-Avoids : (p : ℕ → Bool) (s : Bytes) → Avoids p s → trim_left p s ≡ s
unfolding trim_left
trim_left-Avoids p [] h = refl
trim_left-Avoids p (c ∷ s) h = rw (h.0, trim_left) refl

pub reverse_aux-Avoids :
    (p : ℕ → Bool) (s t : Bytes) → Avoids p s → Avoids p t → Avoids p (reverse_aux s t)
reverse_aux-Avoids p [] t hs ht = ht
reverse_aux-Avoids p (c ∷ s) t hs ht = reverse_aux-Avoids p s (c ∷ t) hs.1 (hs.0, ht)

pub trim_space-Avoids : (s : Bytes) → Avoids is_space s → trim_space s ≡ s
unfolding trim_space trim_both
trim_space-Avoids s h =
    let back = reverse_aux-Avoids is_space s [] h tt in
    rw (trim_left-Avoids is_space s h, trim_left-Avoids is_space (reverse s) back)
      (reverse-reverse s)

pub cut-Avoids : (b : ℕ) (s r : Bytes) → Avoids (λ c. c == b) s → cut b (s ++ (b ∷ r)) ≡ (s, some r)
unfolding cut
cut-Avoids b [] r h = rw (==_refl b) refl
cut-Avoids b (c ∷ s) r h = rw (h.0, cut-Avoids b s r h.1) refl

pub contains-Avoids : (b : ℕ) (s : Bytes) → Avoids (λ c. c == b) s → contains s (b ∷ []) ≡ false
unfolding contains has_prefix strip_prefix
contains-Avoids b [] h = refl
contains-Avoids b (c ∷ s) h = let first = h.0 in ground (arith, contains-Avoids b s h.1)

pub contains-append : (b : ℕ) (s r : Bytes) → contains (s ++ (b ∷ r)) (b ∷ []) ≡ true
unfolding contains has_prefix strip_prefix
contains-append b [] r = ground arith
contains-append b (c ∷ s) r = ground (arith, contains-append b s r)
