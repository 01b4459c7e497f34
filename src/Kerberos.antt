-- ===== src/Kerberos.antt =====
-- internal/kerberos/kerberos.go: `Manager`, which keeps a Kerberos ticket in a cache file by running
-- the commands klist and kinit. The commands are a parameter over a state `W` of the system.
pub mod Tickets
pub mod Commands
use px_go.Prelude.{Bool, true, false, List, [], ◌∷◌, ◌++◌, Option, none, some, if◌then◌else◌}
use px_go.Strings.{Bytes, text, is_empty, trim_space}

pub record Manager : Type 0 where
  pub principal : Bytes
  pub password : Bytes
  pub cache_path : Bytes

-- A command with what is added to the environment and, if it has one, its standard input.
pub record Command : Type 0 where
  pub program : Bytes
  pub args : List Bytes
  pub env : List Bytes
  pub stdin : Option Bytes

-- What `New` reads of the system. The cache directory is `none` for an error, and `make_dir` says
-- whether the directory is there.
pub record System : Type 0 where
  pub user_cache_dir : Option Bytes
  pub make_dir : Bytes → Bool
  pub join : Bytes → Bytes → Bytes
  pub pid : Bytes

-- Running a command, with its success.
abbrev pub Shell : Type 0 → Type 0
Shell W = W → Command → W × Bool

-- What the goroutine of `Start` receives.
pub data Event : Type 0 where
  tick cancelled : Event

abbrev cache_root : Option Bytes → Bytes
cache_root none = text "."
cache_root (some dir) = dir

-- `New`
unfoldable pub new : System → Bytes → Bytes → Option Manager
new o principal password =
    let cache_dir = o.join (cache_root o.user_cache_dir) (text "px-go") in
    if is_empty principal
    then none
    else if o.make_dir cache_dir
    then some (record {
      principal = principal;
      password = password;
      cache_path = o.join cache_dir (text "krb5cc_px_" ++ o.pid);
    })
    else none

-- `Env`
unfoldable pub env : Option Manager → List Bytes
env none = []
env (some m) = (text "KRB5CCNAME=FILE:" ++ m.cache_path) ∷ []

module _ {W : Type 0} where
  unfoldable pub klist : Shell W → W → Manager → W × Bool
  unfolding env
  klist shell w m =
      shell w
        (record { program = text "klist"; args = text "-s" ∷ []; env = env (some m); stdin = none })

  unfoldable pub renew : Shell W → W → Manager → W × Bool
  unfolding env
  renew shell w m =
      shell w
        (record { program = text "kinit"; args = text "-R" ∷ []; env = env (some m); stdin = none })

  unfoldable pub kinit : Shell W → W → Manager → W × Bool
  unfolding env trim_space
  kinit shell w m =
      if is_empty (trim_space m.password)
      then (w, false)
      else shell w (record {
        program = text "kinit";
        args = m.principal ∷ [];
        env = env (some m);
        stdin = some (m.password ++ (b'\n' ∷ []));
      })

  abbrev pub or_else : W × Bool → (W → W × Bool) → W × Bool
  or_else (w, true) rest = (w, true)
  or_else (w, false) rest = rest w

  -- `Ensure`; the flag says that there is no error.
  unfoldable pub ensure : Shell W → W → Option Manager → W × Bool
  unfolding klist renew kinit
  ensure shell w none = (w, true)
  ensure shell w (some m) =
      or_else (klist shell w m) (λ v. or_else (renew shell v m) (λ u. kinit shell u m))

  -- `Close`, with the removal of a file as a parameter.
  unfoldable pub close : (W → Bytes → W × Bool) → W → Option Manager → W × Bool
  close remove w none = (w, true)
  close remove w (some m) = remove w m.cache_path

  -- The loop of `Start`: every event of the select statement is a tick or the end of the context.
  unfoldable pub keep : Shell W → W → Manager → List Event → W
  unfolding ensure
  keep shell w m [] = w
  keep shell w m (tick ∷ events) = keep shell (ensure shell w (some m)).0 m events
  keep shell w m (cancelled ∷ events) = w

  -- `Start`
  unfoldable pub start : Shell W → W → Option Manager → List Event → W
  unfolding keep ensure
  start shell w none events = w
  start shell w (some m) events = keep shell (ensure shell w (some m)).0 m events
