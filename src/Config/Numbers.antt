-- ===== src/Config/Numbers.antt =====
-- internal/config/config.go: the numbers and lists that are written to a file, and read back.
use px_go.Prelude.{
  ℕ, zero, suc, ◌+◌, ◌-◌, ◌*◌, ◌/◌, ◌%◌, ◌^◌, ◌≤◌, ◌<◌, ◌≡◌, refl, sym, ap, ◌∙◌, inl, inr, [], ◌∷◌,
  some, arith, ltb, if◌then◌else◌, Bool-cases,
}
use px_go.Strings.{Bytes}
use px_go.Network.{decimal_from}
use px_go.Config.{ℤ, pos, negsuc}
use px_go.Config.Values.{atoi}

-- The decimal digits of a number below 10 ^ fuel, in front of some others.
unfoldable digits : ℕ → ℕ → Bytes → Bytes
digits zero n behind = behind
digits (suc fuel) n behind =
    let more = digits fuel (n / 10) ((48 + n % 10) ∷ behind) in
    if ltb n 10 then (48 + n) ∷ behind else more

-- `strconv.Itoa`
unfoldable pub itoa : ℤ → Bytes
unfolding digits
itoa (pos n) = digits (suc n) n []
itoa (negsuc n) = b'-' ∷ digits (suc (suc n)) (suc n) []

decimal_from-digit :
    (m d : ℕ) (s : Bytes) → d < 10 → decimal_from m ((48 + d) ∷ s) ≡ decimal_from (m * 10 + d) s
unfolding decimal_from
decimal_from-digit m d s l = let e : 48 + d - 48 ≡ d = omega arith in rw e (ground arith)

-- What `decimal_from` makes of a number in front of more digits.
decimal_from-digits :
    (fuel n : ℕ) (behind : Bytes)
    → n < fuel
    → decimal_from 0 (digits fuel n behind) ≡ decimal_from n behind
unfolding digits
decimal_from-digits zero n behind l = absurd (omega arith)
decimal_from-digits (suc fuel) n behind l = elim (Bool-cases (ltb n 10)) [
  | inl t ↦
      let e : 0 * 10 + n ≡ n = omega arith in
      rw t (decimal_from-digit 0 n behind (ground arith) ∙ rw e refl)
  | inr t ↦
      let large : 10 ≤ n = ground arith in
      let e : n / 10 * 10 + n % 10 ≡ n = omega arith in
      rw t (
        decimal_from-digits fuel (n / 10) ((48 + n % 10) ∷ behind) (omega arith)
        ∙ decimal_from-digit (n / 10) (n % 10) behind (omega arith)
        ∙ rw e refl)
]

-- The first byte of some digits is a digit.
digits_first :
    (fuel n : ℕ) (behind : Bytes)
    → n < fuel
    → (d : ℕ) × (s : Bytes) × (digits fuel n behind ≡ (48 + d) ∷ s)
unfolding digits
digits_first zero n behind l = absurd (omega arith)
digits_first (suc fuel) n behind l = elim (Bool-cases (ltb n 10)) [
  | inl t ↦ (n, behind, rw t refl)
  | inr t ↦
      let large : 10 ≤ n = ground arith in
      let (d, s, e) = digits_first fuel (n / 10) ((48 + n % 10) ∷ behind) (omega arith) in
      (d, s, rw (t, e) refl)
]

-- The range of a 64-bit integer
abbrev pub IsInt64 : ℤ → Type 0
IsInt64 (pos n) = n < 2 ^ 63
IsInt64 (negsuc n) = n < 2 ^ 63

atoi_digits :
    (n d : ℕ) (s : Bytes)
    → decimal_from 0 ((48 + d) ∷ s) ≡ some n
    → n < 2 ^ 63
    → atoi ((48 + d) ∷ s) ≡ some (pos n)
unfolding atoi
atoi_digits n d s e l = ground arith

atoi_minus :
    (n d : ℕ) (s : Bytes)
    → decimal_from 0 ((48 + d) ∷ s) ≡ some (suc n)
    → n < 2 ^ 63
    → atoi (b'-' ∷ (48 + d) ∷ s) ≡ some (negsuc n)
unfolding atoi
atoi_minus n d s e l = ground arith

-- A 64-bit integer that `Itoa` writes is read back by `Atoi`.
pub atoi-itoa : (z : ℤ) → IsInt64 z → atoi (itoa z) ≡ some z
unfolding itoa decimal_from
atoi-itoa (pos n) l =
    let (d, s, e) = digits_first (suc n) n [] (omega arith) in
    let v = decimal_from-digits (suc n) n [] (omega arith) in
    ap atoi e ∙ atoi_digits n d s (ap (decimal_from 0) (sym e) ∙ v) l
atoi-itoa (negsuc n) l =
    let (d, s, e) = digits_first (suc (suc n)) (suc n) [] (omega arith) in
    let v = decimal_from-digits (suc (suc n)) (suc n) [] (omega arith) in
    ap (λ t. atoi (b'-' ∷ t)) e ∙ atoi_minus n d s (ap (decimal_from 0) (sym e) ∙ v) l
