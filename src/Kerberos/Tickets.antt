-- ===== src/Kerberos/Tickets.antt =====
-- What internal/kerberos/kerberos.go achieves, given what the commands klist and kinit document.
use px_go.Prelude.{if◌then◌else◌, Bool, true, false, some, ◌≡◌, refl, sym, inl, inr, Bool-cases}
use px_go.Strings.{is_empty, trim_space}
use px_go.Kerberos.{Manager, Shell, klist, renew, kinit, or_else, ensure}

-- `has_ticket w m` says whether the cache file of `m` holds a ticket that is valid. `klist -s`
-- answers that and changes nothing; without one `kinit -R` and `kinit` succeed exactly if they leave
-- one.
pub record IsDocumented {W : Type 0} (shell : Shell W) (has_ticket : W → Manager → Bool)
    : Type 0 where
  pub lists : (w : W) (m : Manager) → klist shell w m ≡ (w, has_ticket w m)
  pub renews :
      (w : W) (m : Manager)
      → has_ticket w m ≡ false
      → (renew shell w m).1 ≡ has_ticket (renew shell w m).0 m
  pub gets :
      (w : W) (m : Manager)
      → is_empty (trim_space m.password) ≡ false
      → has_ticket w m ≡ false
      → (kinit shell w m).1 ≡ has_ticket (kinit shell w m).0 m

module _ {W : Type 0} (shell : Shell W) (has_ticket : W → Manager → Bool)
    (documented : IsDocumented shell has_ticket) where
  -- `kinit`, behind a `kinit -R` that left no ticket
  kinit-has_ticket :
      (w : W) (m : Manager)
      → has_ticket w m ≡ false
      → (kinit shell w m).1 ≡ has_ticket (kinit shell w m).0 m
  unfolding kinit
  kinit-has_ticket w m h = elim (Bool-cases (is_empty (trim_space m.password))) [
    | inl t ↦ rw (t, h) refl
    | inr t ↦ documented.gets w m t h
  ]

  -- `kinit -R`, and `kinit` if it fails
  renewed-has_ticket :
      (w : W) (m : Manager)
      → has_ticket w m ≡ false
      → let (v, ok) = or_else (renew shell w m) (λ u. kinit shell u m) in ok ≡ has_ticket v m
  renewed-has_ticket w m f = go (renew shell w m) (documented.renews w m f)
    where
      go :
          (r : W × Bool)
          → r.1 ≡ has_ticket r.0 m
          → let (v, ok) = or_else r (λ u. kinit shell u m) in ok ≡ has_ticket v m
      go (v, true) e = e
      go (v, false) e = kinit-has_ticket v m (sym e)

  renewed-then :
      {m : Manager} (r : W × Bool)
      → r.1 ≡ has_ticket r.0 m
      → or_else r (λ u. kinit shell u m)
        ≡ (if has_ticket r.0 m then (r.0, true) else kinit shell r.0 m)
  renewed-then {m} (v, true) e = rw (sym e) refl
  renewed-then {m} (v, false) e = rw (sym e) refl

  -- Where klist and kinit do as documented, Ensure does nothing more with a valid ticket, keeps what
  -- `kinit -R` leaves if that is one, and else runs `kinit` behind it; and it reports no error exactly
  -- if the cache holds a valid ticket afterwards.
  pub ensure-has_ticket :
      (w : W) (m : Manager)
      → (ensure shell w (some m) ≡ (
          if has_ticket w m
          then (w, true)
          else if has_ticket (renew shell w m).0 m
          then ((renew shell w m).0, true)
          else kinit shell (renew shell w m).0 m))
        × ((ensure shell w (some m)).1 ≡ has_ticket (ensure shell w (some m)).0 m)
  unfolding ensure
  ensure-has_ticket w m = elim (Bool-cases (has_ticket w m)) [
    | inl t ↦ rw (documented.lists w m, t) (refl, sym t)
    | inr f ↦
        rw (documented.lists w m, f)
          (renewed-then (renew shell w m) (documented.renews w m f), renewed-has_ticket w m f)
  ]
