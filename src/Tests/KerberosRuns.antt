-- ===== src/Tests/KerberosRuns.antt =====
-- A system whose ticket is there or not, and the manager that keeps it.
use px_go.Prelude.{◌≡◌, refl, Bool, true, false, [], none, some, if◌then◌else◌}
use px_go.Strings.{text, equal, is_empty, trim_space}
use px_go.Kerberos.{Manager, Shell, System, new, klist, renew, kinit, ensure}
use px_go.Kerberos.Tickets.{IsDocumented, ensure-has_ticket}

-- klist tells whether there is a ticket, kinit -R does nothing without one, and kinit gets one.
abbrev ticket_shell : Shell Bool
ticket_shell w c =
    if equal c.program (text "klist")
    then (w, w)
    else elim c.stdin [ none ↦ (w, w) | some _ ↦ (true, true) ]

abbrev has_ticket : Bool → Manager → Bool
has_ticket w m = w

abbrev joe : Manager
joe = record { principal = text "joe@CORP"; password = text "secret"; cache_path = text "/c/px" }

lists : (w : Bool) (m : Manager) → klist ticket_shell w m ≡ (w, has_ticket w m)
unfolding klist equal
lists w m = refl

renews :
    (w : Bool) (m : Manager)
    → has_ticket w m ≡ false
    → (renew ticket_shell w m).1 ≡ has_ticket (renew ticket_shell w m).0 m
unfolding renew equal
renews w m h = refl

gets :
    (w : Bool) (m : Manager)
    → is_empty (trim_space m.password) ≡ false
    → has_ticket w m ≡ false
    → (kinit ticket_shell w m).1 ≡ has_ticket (kinit ticket_shell w m).0 m
unfolding kinit equal
gets w m h g = rw h refl

ticket_shell-IsDocumented : IsDocumented ticket_shell has_ticket
ticket_shell-IsDocumented = record { lists = lists; renews = renews; gets = gets }

ensure-has_ticket_example :
    (ensure ticket_shell false (some joe) ≡ (
      if has_ticket false joe
      then (false, true)
      else if has_ticket (renew ticket_shell false joe).0 joe
      then ((renew ticket_shell false joe).0, true)
      else kinit ticket_shell (renew ticket_shell false joe).0 joe))
    × ((ensure ticket_shell false (some joe)).1
        ≡ has_ticket (ensure ticket_shell false (some joe)).0 joe)
ensure-has_ticket_example =
    ensure-has_ticket ticket_shell has_ticket ticket_shell-IsDocumented false joe

abbrev linux : System
linux = record {
  user_cache_dir = some (text "/home/joe/.cache");
  make_dir = λ dir. true;
  join = λ a b. text "/c";
  pid = text "7";
}

nobody_has_no_manager : new linux [] (text "secret") ≡ none
unfolding new
nobody_has_no_manager = refl

got_a_ticket : ensure ticket_shell false (some joe) ≡ (true, true)
unfolding ensure equal
got_a_ticket = refl
