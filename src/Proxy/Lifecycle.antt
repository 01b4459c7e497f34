-- ===== src/Proxy/Lifecycle.antt =====
-- internal/proxy/server.go: `New`, `Start` and `Shutdown`. What the machine, the keyring and the
-- sockets answer is an argument; the goroutines that serve are the list of the servers.
pub mod Laws
pub mod Shutdowns
use px_go.Prelude.{
  ℕ, Bool, true, false, not, ◌&&◌, ◌||◌, List, [], ◌∷◌, ◌++◌, map, Option, none, some,
  if◌then◌else◌, drop,
}
use px_go.Strings.{Bytes, is_empty}
use px_go.Network.{Addr, Outcome, value, Matcher, ◌>>=◌, parse}
use px_go.Config.{Config, ℤ}
use px_go.Config.Machine.{Interface, is_seen, get_host_ips}
use px_go.Config.Outputs.{listen_addresses}
use px_go.Auth.Session.{Credentials}
use px_go.Auth.Negotiate.{credentials_from_config}
use px_go.Kerberos.{Manager}
use px_go.Kerberos as Kerberos

-- What `New` reads of the machine.
pub record Machine : Type 0 where
  pub parse_v6 : Bytes → Option Addr
  pub interfaces : Option (List Interface)
  pub keyring : Bytes → Option Bytes
  -- PX_PASSWORD
  pub password : Bytes
  pub tickets : Kerberos.System

-- `Server` as `New` leaves it, with the servers that `Start` adds and whether `stopOnce` is done.
pub record Server : Type 0 where
  pub config : Config
  pub allow : Matcher
  pub noproxy : Matcher
  pub locals : Addr → Bool
  pub creds : Credentials
  pub kerberos : Option Manager
  -- The capacity of the semaphore.
  pub threads : ℤ
  pub pac : Option Bytes
  pub servers : List Bytes
  pub stopped : Bool

unfoldable pub kerberos_of : Machine → Config → Credentials → Option Manager
unfolding Kerberos.new
kerberos_of o c creds =
    if c.proxy.kerberos && not (is_empty creds.username) && not (is_empty creds.password)
    then Kerberos.new o.tickets creds.username creds.password
    else none

unfoldable pub server_with : Machine → Config → Matcher → Matcher → Server
unfolding get_host_ips credentials_from_config kerberos_of
server_with o c allow noproxy =
    let creds = credentials_from_config o.keyring o.password c.proxy.username in
    record {
      config = c;
      allow = allow;
      noproxy = noproxy;
      locals = λ ip. is_seen ip (get_host_ips o.interfaces);
      creds = creds;
      kerberos = kerberos_of o c creds;
      threads = c.settings.threads;
      pac = if is_empty c.proxy.pac then none else some c.proxy.pac;
      servers = [];
      stopped = false;
    }

-- `New`
unfoldable pub new : Machine → Config → Outcome Server
unfolding parse server_with
new o c = do
  allow ← parse o.parse_v6 c.proxy.allow
  noproxy ← parse o.parse_v6 c.proxy.no_proxy
  value (server_with o c allow noproxy)

pub data Action : Type 0 where
  start_kerberos close_stop_channel remove_tickets close_pac : Action
  serve shut_down : Bytes → Action

-- What `Shutdown` does the first time; the flag says that no server reports an error.
unfoldable pub all_closed : (Bytes → Bool) → List Bytes → Bool
all_closed closes [] = true
all_closed closes (addr ∷ addrs) = closes addr && all_closed closes addrs

unfoldable pub stop_actions : Server → List Action
stop_actions s =
    close_stop_channel
    ∷ (map shut_down s.servers
        ++ (elim s.kerberos [ none ↦ [] | some _ ↦ remove_tickets ∷ [] ]
            ++ elim s.pac [ none ↦ [] | some _ ↦ close_pac ∷ [] ]))

-- `Shutdown`, where `closes` is the success of the method of each server.
unfoldable pub shutdown : (Bytes → Bool) → Server → Server × (List Action × Bool)
unfolding stop_actions all_closed
shutdown closes s =
    if s.stopped
    then (s, ([], true))
    else (record s { stopped = true }, (stop_actions s, all_closed closes s.servers))

-- What the select statement of `Start` receives.
pub data Wake : Type 0 where
  cancelled serve_failed stop_closed : Wake

unfoldable pub woken : (Bytes → Bool) → Server → Wake → Server × (List Action × Bool)
unfolding shutdown
woken closes s cancelled = shutdown closes s
woken closes s serve_failed = (s, ([], false))
woken closes s stop_closed = (s, ([], true))

-- `Shutdown`, if it is called.
unfoldable pub interrupted : (Bytes → Bool) → Bool → Server → Server × List Action
unfolding shutdown
interrupted closes true s = let (t, (actions, _)) = shutdown closes s in (t, actions)
interrupted closes false s = (s, [])

-- Whether `Shutdown` is called before the next round of the loop.
abbrev pub is_next : List Bool → Bool
is_next [] = false
is_next (called ∷ calls) = called

-- The loop of `Start` over the addresses: the server, the actions, and whether each address can be
-- listened on. The servers that are added are served by goroutines, so that /PxQuit or a signal may
-- call `Shutdown` while the loop goes on: `calls` says for the rounds, one after the other, whether
-- it does so in front of them.
unfoldable pub listen_all :
    (Bytes → Bool)
    → (Bytes → Bool)
    → List Bytes
    → List Bool
    → Server
    → Server × (List Action × Bool)
unfolding interrupted
listen_all listens closes [] calls s = (s, ([], true))
listen_all listens closes (addr ∷ addrs) calls s =
    let (t, actions) = interrupted closes (is_next calls) s in
    let added = record t { servers = t.servers ++ (addr ∷ []) } in
    let (u, (more, ok)) = listen_all listens closes addrs (drop 1 calls) added in
    if listens addr then (u, (actions ++ (serve addr ∷ more), ok)) else (t, (actions, false))

-- `Start` behind its loop: it returns the error of a listener, or waits.
unfoldable pub started :
    (Bytes → Bool) → Wake → Server × (List Action × Bool) → Server × (List Action × Bool)
unfolding woken
started closes wake (s, (actions, true)) =
    let (after, (more, fine)) = woken closes s wake in (after, (actions ++ more, fine))
started closes wake (s, (actions, false)) = (s, (actions, false))

-- What `Start` does first.
abbrev pub first_actions : Server → List Action
first_actions s = elim s.kerberos [ none ↦ [] | some _ ↦ start_kerberos ∷ [] ]

-- `Start`: the actions, with those of a `Shutdown` during its loop, and whether it returns without an
-- error.
unfoldable pub start :
    (Bytes → Bool) → (Bytes → Bool) → Server → List Bool → Wake → Server × (List Action × Bool)
unfolding listen_all started listen_addresses
start listens closes s calls wake =
    let (after, (actions, fine)) =
      started closes wake (listen_all listens closes (listen_addresses s.config) calls s) in
    (after, (first_actions s ++ actions, fine))
