-- ===== src/Auth/Negotiate/Sspi/Identity.antt =====
-- The user, the domain and the password that internal/auth/sspi_windows.go hands to Windows.
use px_go.Prelude.{
  ℕ, ◌^◌, ◌<◌, ◌≤◌, ◌≡◌, ◌≢◌, refl, inl, inr, [], ◌∷◌, Option, none, some, ◌==◌, if◌then◌else◌,
  Bool-cases, arith, All, length,
}
use mathlib.Core.Path.{subst}
use px_go.Strings.{Bytes, text, is_empty, cut, contains}
use px_go.Auth.Session.{Credentials}
use px_go.Auth.Negotiate.{parse_user, or_empty}
use px_go.Auth.Negotiate.Sspi.{identity_for, identity_of}
use px_go.Sspi.{Wide, uint32, SecWinntAuthIdentity}

-- A byte of ASCII other than the zero.
abbrev pub IsAscii : ℕ → Type 0
IsAscii c = (c < 128) × (c ≢ 0)

-- UTF-16 writes an ASCII text with one unit for each byte.
abbrev pub KeepsAscii : (Bytes → Option Wide) → Type 0
KeepsAscii utf16 = (s : Bytes) → All IsAscii s → utf16 s ≡ some s

-- A length counts the units of its text, and is 0 without one.
abbrev pub IsCount : Option Wide → ℕ → Type 0
IsCount none n = n ≡ 0
IsCount (some u) n = n ≡ length u

abbrev pub IsSized : SecWinntAuthIdentity → Type 0
IsSized i =
    IsCount i.user i.user_length
    × (IsCount i.domain i.domain_length × IsCount i.password i.password_length)

-- An ASCII text whose length fits 32 bits.
abbrev pub IsPlain : Bytes → Type 0
IsPlain s = All IsAscii s × (length s < 2 ^ 32)

cut-All :
    (P : ℕ → Type 0) (b : ℕ) (s : Bytes)
    → All P s
    → All P (cut b s).0 × All P (or_empty (cut b s).1)
unfolding cut
cut-All P b [] h = (tt, tt)
cut-All P b (c ∷ s) h =
    let rest = cut-All P b s h.1 in
    elim (Bool-cases (c == b)) [ inl t ↦ rw t (tt, h.1) | inr t ↦ rw t ((h.0, rest.0), rest.1) ]

cut-length :
    (b : ℕ) (s : Bytes)
    → (length (cut b s).0 ≤ length s) × (length (or_empty (cut b s).1) ≤ length s)
unfolding cut
cut-length b [] = (omega arith, omega arith)
cut-length b (c ∷ s) =
    let rest = cut-length b s in
    elim (Bool-cases (c == b)) [
      | inl t ↦ rw t (omega arith, omega arith)
      | inr t ↦ rw t (omega (arith, rest.0), omega (arith, rest.1))
    ]

cut-IsPlain : (b : ℕ) (s : Bytes) → IsPlain s → IsPlain (cut b s).0 × IsPlain (or_empty (cut b s).1)
cut-IsPlain b s h =
    let bytes = cut-All IsAscii b s h.0 in
    let bounds = cut-length b s in
    ((bytes.0, omega (arith, bounds.0, h.1)), (bytes.1, omega (arith, bounds.1, h.1)))

parse_user-IsPlain :
    (username : Bytes)
    → IsPlain username
    → IsPlain (parse_user username).0 × IsPlain (parse_user username).1.0
unfolding parse_user
parse_user-IsPlain username h =
    let parts = cut-IsPlain b'\\' username h in
    let nothing : IsPlain [] = (tt, omega arith) in
    elim (Bool-cases (contains username (text "\\"))) [
      | inl t ↦ rw t (parts.1, parts.0)
      | inr t ↦ elim (Bool-cases (contains username (text "@"))) [
        | inl u ↦ rw (t, u) (h, nothing)
        | inr u ↦ rw (t, u) (h, nothing)
      ]
    ]

module _ (utf16 : Bytes → Option Wide) (ascii : KeepsAscii utf16) where
  utf16-IsCount : (s : Bytes) → IsPlain s → IsCount (utf16 s) (uint32 (length s))
  utf16-IsCount s h = rw (ascii s h.0) (omega (arith, h.1))

  domain-IsCount :
      (s : Bytes)
      → IsPlain s
      → IsCount (if is_empty s then none else utf16 s) (if is_empty s then 0 else uint32 (length s))
  domain-IsCount s h = elim (Bool-cases (is_empty s)) [
    | inl t ↦ rw t refl
    | inr t ↦ rw t (utf16-IsCount s h)
  ]

  abbrev HasSizes : Option SecWinntAuthIdentity → Type 0
  HasSizes none = Unit
  HasSizes (some i) = IsSized i

  identity_for-HasSizes :
      (user domain password : Bytes)
      → IsPlain user
      → IsPlain domain
      → IsPlain password
      → HasSizes (identity_for utf16 user domain password)
  unfolding identity_for
  identity_for-HasSizes user domain password hu hd hp = elim (Bool-cases (is_empty user)) [
    | inl t ↦ rw t tt
    | inr t ↦ rw t (utf16-IsCount user hu, (domain-IsCount domain hd, utf16-IsCount password hp))
  ]

  -- If UTF-16 writes ASCII texts with one unit for each byte, and the user name and the password are
  -- ASCII texts whose lengths fit 32 bits, then each length of the identity that newTokenClient
  -- hands to Windows counts the units of its text.
  pub identity_of-IsSized :
      (creds : Credentials) (i : SecWinntAuthIdentity)
      → IsPlain creds.username
      → IsPlain creds.password
      → identity_of utf16 creds ≡ some i
      → IsSized i
  unfolding identity_of
  identity_of-IsSized creds i hu hp made =
      let parts = parse_user-IsPlain creds.username hu in
      let sized : HasSizes (identity_of utf16 creds) = elim (Bool-cases (is_empty creds.username)) [
        | inl t ↦ rw t tt
        | inr t ↦ rw t (identity_for-HasSizes _ _ _ parts.0 parts.1 hp)
      ] in
      subst HasSizes made sized
