-- ===== src/Command/Laws.antt =====
-- cmd/px/main.go: the settings that the server runs with.
use px_go.Prelude.{
  ◌≡◌, refl, inl, inr, Bool, true, false, List, [], ◌∷◌, Option, none, some, All, All-append,
  if◌then◌else◌, Option-cases,
}
use px_go.Strings.{Bytes, text, is_empty}
use px_go.Network.{Matcher, Outcome, value, error, panic}
use px_go.Config.{Config}
use px_go.Config.Load.{Machine, Vars, Loaded, load}
use px_go.Config.Load.Laws.{IsReady, load-IsReady}
use px_go.Config.Outputs.{
  LogOutput, mkdir_failed, open_failed, discard, stdout, log_file, new_logger,
}
use px_go.Command.{
  Outside, Action, ask_quit, pause, log_startup, serve, serve_test, Outcomes, store_password,
  set_password, parse_lists, run_test_mode, run_server, then_do, run_service, run_logged,
  run_loaded, run_from, run,
}

-- The lists `allow` and `noproxy` parse.
abbrev pub ListsParse : Outside → Config → Type 0
ListsParse out c = (p : Matcher × Matcher) × (parse_lists out c ≡ value p)

-- An action that runs the server does so with settings that satisfy a predicate.
abbrev pub RunsWith : (Config → Type 0) → Action → Type 0
RunsWith P (serve c) = P c
RunsWith P (serve_test c target) = P c
RunsWith P _ = Unit

abbrev AllRunWith : (Config → Type 0) → Outcomes → Type 0
AllRunWith P r = All (RunsWith P) r.0

module _ (P : Config → Type 0) where
  AllRunWith-if :
      (b : Bool) (r s : Outcomes)
      → AllRunWith P r
      → AllRunWith P s
      → AllRunWith P (if b then r else s)
  AllRunWith-if true r s h k = h
  AllRunWith-if false r s h k = k

  run_server-AllRunWith :
      (out : Outside) (c : Config) (m : Outcome (Matcher × Matcher))
      → ((p : Matcher × Matcher) → m ≡ value p → P c)
      → AllRunWith P (run_server out c m)
  unfolding run_server run_test_mode
  run_server-AllRunWith out c (value p) h =
      AllRunWith-if (is_empty c.special.test_url) _ _ (h p refl, tt) (h p refl, tt)
  run_server-AllRunWith out c error h = tt
  run_server-AllRunWith out c panic h = tt

  then_do-AllRunWith :
      (b : Bool) (first : List Action) (r : Outcomes)
      → All (RunsWith P) first
      → AllRunWith P r
      → AllRunWith P (then_do (if b then first else []) r)
  then_do-AllRunWith true first r h k = All-append (RunsWith P) first r.0 h k
  then_do-AllRunWith false first r h k = k

  then_do_not-AllRunWith :
      (b : Bool) (first : List Action) (r : Outcomes)
      → All (RunsWith P) first
      → AllRunWith P r
      → AllRunWith P (then_do (if b then [] else first) r)
  then_do_not-AllRunWith true first r h k = k
  then_do_not-AllRunWith false first r h k = All-append (RunsWith P) first r.0 h k

  set_password-AllRunWith :
      (out : Outside) (service username : Bytes) → AllRunWith P (set_password out service username)
  unfolding set_password
  set_password-AllRunWith out service username =
      AllRunWith-if (is_empty username) _ _ tt (stored out.read_password)
    where
      stored : (pass : Option Bytes) → AllRunWith P (store_password out service username pass)
      stored none = tt
      stored (some []) = tt
      stored (some (c ∷ s)) = (tt, tt)

  run_service-AllRunWith :
      (out : Outside) (c : Config) → (ListsParse out c → P c) → AllRunWith P (run_service out c)
  unfolding run_service
  run_service-AllRunWith out c h =
      AllRunWith-if c.special.quit _ _ (tt, tt)
        (AllRunWith-if c.special.install _ _ (tt, tt)
          (AllRunWith-if c.special.uninstall _ _ (tt, tt)
            (then_do_not-AllRunWith c.settings.quiet (log_startup ∷ [])
              (run_server out c (parse_lists out c)) (tt, tt)
              (run_server-AllRunWith out c (parse_lists out c) (λ p e. h (p, e))))))

  restarted-AllRunWith :
      (out : Outside) (c : Config)
      → (ListsParse out c → P c)
      → AllRunWith P
          (then_do (if c.special.restart then ask_quit ∷ pause ∷ [] else []) (run_service out c))
  restarted-AllRunWith out c h =
      then_do-AllRunWith c.special.restart (ask_quit ∷ pause ∷ []) (run_service out c)
        (tt, (tt, tt)) (run_service-AllRunWith out c h)

  run_logged-AllRunWith :
      (out : Outside) (c : Config) (l : LogOutput)
      → (ListsParse out c → P c)
      → AllRunWith P (run_logged out c l)
  unfolding run_logged
  run_logged-AllRunWith out c mkdir_failed h = tt
  run_logged-AllRunWith out c open_failed h = tt
  run_logged-AllRunWith out c discard h = restarted-AllRunWith out c h
  run_logged-AllRunWith out c stdout h = restarted-AllRunWith out c h
  run_logged-AllRunWith out c (log_file path) h = restarted-AllRunWith out c h

  run_loaded-AllRunWith :
      {F : Type 0} (o : Machine F) (out : Outside) (c : Config)
      → (ListsParse out c → P c)
      → AllRunWith P (run_loaded o out c)
  unfolding run_loaded
  run_loaded-AllRunWith o out c h =
      AllRunWith-if c.special.version _ _ (tt, tt)
        (AllRunWith-if c.special.health_check _ _ (tt, tt)
          (AllRunWith-if c.special.save _ _ (tt, tt)
            (AllRunWith-if c.special.password _ _
              (set_password-AllRunWith out (text "Px") c.proxy.username)
              (AllRunWith-if c.special.client_password _ _
                (set_password-AllRunWith out (text "PxClient") c.client.username)
                (run_logged-AllRunWith out c
                  (new_logger o out.unix_nano out.make_dir out.open_file c) h)))))

  run_from-AllRunWith :
      {F : Type 0} (o : Machine F) (out : Outside) (l : Loaded)
      → (l.err ≡ none → AllRunWith P (run_loaded o out l.config))
      → AllRunWith P (run_from o out l)
  unfolding run_from
  run_from-AllRunWith o out l h = elim (Option-cases l.err) [
    | inl e ↦ rw e (h e)
    | inr (x, e) ↦ rw e tt
  ]

-- The settings are those that `Load` returns, they are ready, and their lists parse.
abbrev pub IsLoaded : {F : Type 0} → Machine F → Outside → Vars → List Bytes → Config → Type 0
IsLoaded o out vars args c =
    (c ≡ (load o vars args).config) × ((load o vars args).err ≡ none) × IsReady c × ListsParse out c

-- Whatever its arguments, variables and files are, the program runs the server only with the settings
-- that `Load` returns without an error, whose port, threads, workers and addresses are good, and
-- whose lists `allow` and `noproxy` parse.
pub run-IsLoaded :
    {F : Type 0} (o : Machine F) (out : Outside) (vars : Vars) (args : List Bytes)
    → All (RunsWith (IsLoaded o out vars args)) (run o out vars args).0
unfolding run
run-IsLoaded o out vars args =
    run_from-AllRunWith (IsLoaded o out vars args) o out (load o vars args) (λ e.
      run_loaded-AllRunWith (IsLoaded o out vars args) o out (load o vars args).config
        (λ parses. (refl, e, (load-IsReady o vars args e).0, parses)))
