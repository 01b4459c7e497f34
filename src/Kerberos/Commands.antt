-- ===== src/Kerberos/Commands.antt =====
-- Which commands the manager of internal/kerberos/kerberos.go runs.
use px_go.Prelude.{false, List, [], ◌∷◌, ◌++◌, none, some, ◌≡◌, ◌⊎◌, All}
use px_go.Strings.{text, is_empty, trim_space}
use px_go.Kerberos.{Manager, Command, Shell, env}

-- The commands run so far, next to the state of the system.
abbrev pub logged : {W : Type 0} → Shell W → Shell (W × List Command)
logged shell (w, commands) c = let (v, ok) = shell w c in ((v, c ∷ commands), ok)

-- The command is `klist -s`, `kinit -R`, or `kinit` for the manager's principal with a password that is
-- not blank as its input, with nothing else in its arguments, and each is for the manager's cache.
abbrev pub IsOurs : Manager → Command → Type 0
IsOurs m c =
    (c ≡ record { program = text "klist"; args = text "-s" ∷ []; env = env (some m); stdin = none })
    ⊎ ((c ≡ record {
      program = text "kinit";
      args = text "-R" ∷ [];
      env = env (some m);
      stdin = none;
    })
        ⊎ ((is_empty (trim_space m.password) ≡ false)
            × (c ≡ record {
              program = text "kinit";
              args = m.principal ∷ [];
              env = env (some m);
              stdin = some (m.password ++ (b'\n' ∷ []));
            })))

module _ {W : Type 0} (shell : Shell W) (m : Manager) where
  abbrev AllOurs : W × List Command → Type 0
  AllOurs (w, commands) = All (IsOurs m) commands
