-- ===== src/Proxy/Lifecycle/Laws.antt =====
-- The life of the server of internal/proxy/server.go from `New` to `Shutdown`.
use px_go.Prelude.{
  ◌≡◌, refl, sym, ◌∙◌, ap, inl, inr, Bool, true, false, List, [], ◌∷◌, ◌++◌, none, drop,
  if◌then◌else◌, Option-cases, Bool-cases,
}
use mathlib.Core.List.{append-nil, append_assoc}
use mathlib.Core.Path.{subst}
use px_go.Strings.{Bytes}
use px_go.Network.{v4, Outcome, value, error, panic, ◌>>=◌, Matcher, parse}
use px_go.Auth.Session.{Credentials}
use px_go.Config.{Config}
use px_go.Config.Outputs.{listen_addresses}
use px_go.Config.Machine.{is_seen, get_host_ips}
use px_go.Config.Machine.Addresses.{get_host_ips-AreHosts}
use px_go.Proxy.Lifecycle.{
  Machine, Server, kerberos_of, server_with, new, Action, serve, listen_all, Wake, woken,
  first_actions, started, start, interrupted, is_next,
}
use px_go.Proxy.Lifecycle.Shutdowns.{
  served, shut, shutdowns, served-append, shut-append, pending, shutdown-pending, shutdowns-pending,
  woken-pending,
}

-- The addresses up to the first one that cannot be listened on.
abbrev pub reached : (Bytes → Bool) → List Bytes → List Bytes
reached listens [] = []
reached listens (addr ∷ addrs) =
    let rest = reached listens addrs in if listens addr then addr ∷ rest else []

-- Those of them that the loop comes to before the first call of Shutdown.
abbrev pub reached_before : (Bytes → Bool) → List Bool → List Bytes → List Bytes
reached_before listens calls [] = []
reached_before listens calls (addr ∷ addrs) =
    let rest = reached_before listens (drop 1 calls) addrs in
    if is_next calls then [] else if listens addr then addr ∷ rest else []

interrupted-served :
    (closes : Bytes → Bool) (b : Bool) (s : Server) → served (interrupted closes b s).1 ≡ []
unfolding interrupted
interrupted-served closes true s = (shutdown-pending closes s).0
interrupted-served closes false s = refl

pending-nil : (s : Server) → pending s ++ [] ≡ (if s.stopped then [] else s.servers ++ [])
pending-nil s = elim (Bool-cases s.stopped) [ inl t ↦ rw t refl | inr t ↦ rw t refl ]

-- A round that adds no server.
interrupted-kept :
    (closes : Bytes → Bool) (b : Bool) (s : Server)
    → let (t, actions) = interrupted closes b s in
      shut actions ++ pending t ≡ (if s.stopped then [] else s.servers ++ (if b then [] else []))
unfolding interrupted
interrupted-kept closes true s =
    let (_, same, stopped) = shutdown-pending closes s in rw (same, stopped) (pending-nil s)
interrupted-kept closes false s = sym (append-nil (pending s)) ∙ pending-nil s

-- A round that adds the server of an address, in front of others.
interrupted-added :
    (closes : Bytes → Bool) (b : Bool) (s : Server) (addr : Bytes) (rest : List Bytes)
    → let (t, actions) = interrupted closes b s in
      shut actions ++ (if t.stopped then [] else (t.servers ++ (addr ∷ [])) ++ rest)
      ≡ (if s.stopped then [] else s.servers ++ (if b then [] else addr ∷ rest))
unfolding interrupted
interrupted-added closes true s addr rest =
    let (_, same, stopped) = shutdown-pending closes s in rw (same, stopped) (pending-nil s)
interrupted-added closes false s addr rest =
    ap (λ l. if s.stopped then [] else l) (append_assoc s.servers (addr ∷ []) rest)

listen_all-pending :
    (listens closes : Bytes → Bool) (addrs : List Bytes) (calls : List Bool) (s : Server)
    → let (t, (actions, _)) = listen_all listens closes addrs calls s in
      (served actions ≡ reached listens addrs)
      × (shut actions ++ pending t
          ≡ (if s.stopped then [] else s.servers ++ reached_before listens calls addrs))
unfolding listen_all
listen_all-pending listens closes [] calls s = (refl, rw (append-nil s.servers) refl)
listen_all-pending listens closes (addr ∷ addrs) calls s =
    let b = is_next calls in
    let t = (interrupted closes b s).0 in
    let actions = (interrupted closes b s).1 in
    let added = record t { servers = t.servers ++ (addr ∷ []) } in
    let rest = listen_all listens closes addrs (drop 1 calls) added in
    let (in_rest, same) = listen_all-pending listens closes addrs (drop 1 calls) added in
    let none_served = interrupted-served closes b s in
    elim (Bool-cases (listens addr)) [
      | inl l ↦ rw l (
        served-append actions (serve addr ∷ rest.1.0) ∙ (rw (none_served, in_rest) refl),
        ap (λ l. l ++ pending rest.0) (shut-append actions (serve addr ∷ rest.1.0))
            ∙ append_assoc (shut actions) (shut rest.1.0) (pending rest.0)
            ∙ ap (λ l. shut actions ++ l) same
            ∙ interrupted-added closes b s addr (reached_before listens (drop 1 calls) addrs),
      )
      | inr l ↦ rw l (none_served, interrupted-kept closes b s)
    ]

started-pending :
    (closes : Bytes → Bool) (wake : Wake) (r : Server × (List Action × Bool))
    → let (t, (actions, _)) = started closes wake r in
      (served actions ≡ served r.1.0) × (shut actions ++ pending t ≡ shut r.1.0 ++ pending r.0)
unfolding started
started-pending closes wake (s, (actions, true)) =
    let more = (woken closes s wake).1.0 in
    let (none_served, same) = woken-pending closes s wake in
    (
      served-append actions more
          ∙ ap (λ l. served actions ++ l) none_served
          ∙ append-nil (served actions),
      ap (λ l. l ++ pending (woken closes s wake).0) (shut-append actions more)
          ∙ append_assoc (shut actions) (shut more) (pending (woken closes s wake).0)
          ∙ ap (λ l. shut actions ++ l) same,
    )
started-pending closes wake (s, (actions, false)) = (refl, refl)

first_actions-served :
    (s : Server) (rest : List Action) → served (first_actions s ++ rest) ≡ served rest
first_actions-served s rest = elim (Option-cases s.kerberos) [
  | inl e ↦ rw e refl
  | inr (k, e) ↦ rw e refl
]

first_actions-shut : (s : Server) (rest : List Action) → shut (first_actions s ++ rest) ≡ shut rest
first_actions-shut s rest = elim (Option-cases s.kerberos) [
  | inl e ↦ rw e refl
  | inr (k, e) ↦ rw e refl
]

-- A server that serves nothing yet and was not shut down.
start-shut :
    (listens closes : Bytes → Bool) (s : Server) (calls : List Bool) (wake : Wake)
    (last : Bytes → Bool) (later : List (Bytes → Bool))
    → s.servers ≡ []
    → s.stopped ≡ false
    → let (after, (actions, _)) = start listens closes s calls wake in
      (served actions ≡ reached listens (listen_addresses s.config))
      × (shut actions ++ shut (shutdowns (last ∷ later) after).1
          ≡ reached_before listens calls (listen_addresses s.config))
unfolding start
start-shut listens closes s calls wake last later alone running =
    let opened = listen_all listens closes (listen_addresses s.config) calls s in
    let (in_loop, pended) = listen_all-pending listens closes (listen_addresses s.config) calls s in
    let (in_start, left) = started-pending closes wake opened in
    let done = started closes wake opened in
    (
      first_actions-served s done.1.0 ∙ in_start ∙ in_loop,
      ap (λ l. l ++ shut (shutdowns (last ∷ later) done.0).1) (first_actions-shut s done.1.0)
          ∙ ap (λ l. shut done.1.0 ++ l) (shutdowns-pending last later done.0)
          ∙ left
          ∙ pended
          ∙ (rw (running, alone) refl),
    )

-- A predicate of the value, if there is one.
abbrev OnValue {ℓ} : {A : Type ℓ} → (A → Type 0) → Outcome A → Type 0
OnValue P (value a) = P a
OnValue P error = Unit
OnValue P panic = Unit

OnValue-bind {ℓ κ} :
    {A : Type ℓ} {B : Type κ} (P : B → Type 0) (o : Outcome A) (f : A → Outcome B)
    → ((a : A) → o ≡ value a → OnValue P (f a))
    → OnValue P (o >>= f)
OnValue-bind P (value a) f h = h a refl
OnValue-bind P error f h = tt
OnValue-bind P panic f h = tt

-- The server of `New`: its lists are those of the settings, 127.0.0.1 is one of its own addresses, a
-- ticket manager is there only if the setting asks for it, and nothing is served yet.
abbrev pub IsReady : Machine → Config → Server → Type 0
IsReady o c s =
    (parse o.parse_v6 c.proxy.allow ≡ value s.allow)
    × (parse o.parse_v6 c.proxy.no_proxy ≡ value s.noproxy)
    × (s.locals (v4 127 0 0 1) ≡ true)
    × (c.proxy.kerberos ≡ false → s.kerberos ≡ none)
    × (s.servers ≡ [])
    × (s.stopped ≡ false)

get_host_ips-is_seen : (o : Machine) → is_seen (v4 127 0 0 1) (get_host_ips o.interfaces) ≡ true
get_host_ips-is_seen o = let ((rest, e), _) = get_host_ips-AreHosts o.interfaces in rw e refl

kerberos_of-eq_none :
    (o : Machine) (c : Config) (creds : Credentials)
    → c.proxy.kerberos ≡ false
    → kerberos_of o c creds ≡ none
unfolding kerberos_of
kerberos_of-eq_none o c creds h = rw h refl

server_with-IsReady :
    (o : Machine) (c : Config) (allow noproxy : Matcher)
    → parse o.parse_v6 c.proxy.allow ≡ value allow
    → parse o.parse_v6 c.proxy.no_proxy ≡ value noproxy
    → IsReady o c (server_with o c allow noproxy)
unfolding server_with
server_with-IsReady o c allow noproxy e f =
    (e, f, get_host_ips-is_seen o, kerberos_of-eq_none o c _, refl, refl)

-- What New leaves, if it does not fail.
pub new-IsReady : (o : Machine) (c : Config) (s : Server) → new o c ≡ value s → IsReady o c s
unfolding new
new-IsReady o c s made = subst (OnValue (IsReady o c)) made (
    OnValue-bind (IsReady o c) (parse o.parse_v6 c.proxy.allow) _ (λ allow e.
      OnValue-bind (IsReady o c) (parse o.parse_v6 c.proxy.no_proxy) _
        (λ noproxy f. server_with-IsReady o c allow noproxy e f)))

-- For a server that New made, where Shutdown may be called while Start goes through the addresses:
-- Start serves the addresses of the settings up to the first that cannot be listened on. Whatever ends
-- its wait, Start, the calls of Shutdown in its loop, and one or more later ones together shut down,
-- each exactly once, the servers that Start had added before the first of these calls: all of them if
-- none comes in the loop, and no server that the loop adds behind the call.
pub new-start-shut :
    (o : Machine) (c : Config) (s : Server) (listens closes : Bytes → Bool) (calls : List Bool)
    (wake : Wake) (last : Bytes → Bool) (later : List (Bytes → Bool))
    → new o c ≡ value s
    → let (after, (actions, _)) = start listens closes s calls wake in
      (served actions ≡ reached listens (listen_addresses s.config))
      × (shut actions ++ shut (shutdowns (last ∷ later) after).1
          ≡ reached_before listens calls (listen_addresses s.config))
new-start-shut o c s listens closes calls wake last later made =
    let (_, _, _, _, alone, running) = new-IsReady o c s made in
    start-shut listens closes s calls wake last later alone running

-- Without a call in the loop these are all that are served.
pub reached_before-none :
    (listens : Bytes → Bool) (addrs : List Bytes)
    → reached_before listens [] addrs ≡ reached listens addrs
reached_before-none listens [] = refl
reached_before-none listens (addr ∷ addrs) = rw (reached_before-none listens addrs) refl
