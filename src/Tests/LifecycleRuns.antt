-- ===== src/Tests/LifecycleRuns.antt =====
-- A server with two addresses on a machine with two interfaces.
use px_go.Prelude.{◌≡◌, refl, Bool, true, false, List, [], ◌∷◌, ◌++◌, none, some}
use px_go.Strings.{Bytes, text, equal}
use px_go.Network.{v4, v6, value}
use px_go.Config.{Config, default}
use px_go.Config.Machine.{
  Interface, get_host_ips, my_ip_address, dns_resolve, file_url_to_local_path, health_check,
}
use px_go.Proxy.Lifecycle.{
  Machine, Server, new, close_stop_channel, close_pac, serve, shut_down, cancelled, stop_closed,
  start,
}
use px_go.Proxy.Lifecycle.Shutdowns.{served, shut, shutdowns}
use px_go.Proxy.Lifecycle.Laws.{
  IsReady, new-IsReady, new-start-shut, reached, reached_before, reached_before-none,
}
use px_go.Config.Outputs.{listen_addresses}

abbrev ethernet : Interface
ethernet = record { up = true; addrs = some (none ∷ some (v4 10 0 0 5) ∷ some (v6 1) ∷ []) }

abbrev loopback : Interface
loopback = record { up = true; addrs = some (some (v4 127 0 0 1) ∷ []) }

abbrev machine : Machine
machine = record {
  parse_v6 = λ s. none;
  interfaces = some (loopback ∷ ethernet ∷ []);
  keyring = λ user. none;
  password = [];
  tickets = record {
    user_cache_dir = none;
    make_dir = λ dir. true;
    join = λ a b. a;
    pid = text "1";
  };
}

abbrev settings : Config
settings = record default {
  proxy = record default.proxy {
    listen = text "127.0.0.1" ∷ text "10.0.0.5" ∷ [];
    pac = text "http://wpad/";
  };
}

host_ips : get_host_ips machine.interfaces ≡ v4 127 0 0 1 ∷ v4 10 0 0 5 ∷ []
unfolding get_host_ips
host_ips = refl

own_address : my_ip_address machine.interfaces ≡ v4 10 0 0 5
unfolding my_ip_address
own_address = refl

mapped_address :
    dns_resolve (λ h. some (v6 1 ∷ v6 281472812449793 ∷ [])) (text "h") ≡ some (v4 127 0 0 1)
unfolding dns_resolve
mapped_address = refl

drive_path :
    file_url_to_local_path true (text "file:///C:/p") (some ([], text "/C:/p")) ≡ text "C:/p"
unfolding file_url_to_local_path
drive_path = refl

healthy : health_check (λ url. some 200) 3128 ≡ true
unfolding health_check
healthy = refl

made : (s : Server) × (new machine settings ≡ value s)
unfolding new px_go.Strings.trim_space px_go.Strings.split equal
made = (_, refl)

abbrev server : Server
server = made.0

new-IsReady_example : IsReady machine settings server
new-IsReady_example = new-IsReady machine settings server made.1

-- The first address can be listened on, the second one not.
abbrev first_only : Bytes → Bool
first_only addr = equal addr (text "127.0.0.1:3128")

abbrev always : Bytes → Bool
always addr = true

-- Shutdown is called in front of the second round of the loop.
abbrev calls : List Bool
calls = false ∷ true ∷ []

new-start-shut_example :
    let (after, (actions, _)) = start always always server calls stop_closed in
    (served actions ≡ reached always (listen_addresses server.config))
    × (shut actions ++ shut (shutdowns (always ∷ always ∷ []) after).1
        ≡ reached_before always calls (listen_addresses server.config))
new-start-shut_example =
    new-start-shut machine settings server always always calls stop_closed always (always ∷ [])
      made.1

-- The second server is added behind that call: it is served, and no call shuts it down.
left_running :
    let (after, (actions, _)) = start always always server calls stop_closed in
    (served actions ≡ text "127.0.0.1:3128" ∷ text "10.0.0.5:3128" ∷ [])
    × (shut actions ++ shut (shutdowns (always ∷ []) after).1 ≡ text "127.0.0.1:3128" ∷ [])
unfolding start made shutdowns
left_running = (refl, refl)

no_call_in_loop :
    reached_before first_only [] (listen_addresses server.config)
    ≡ reached first_only (listen_addresses server.config)
no_call_in_loop = reached_before-none first_only (listen_addresses server.config)

served_addresses : (start always always server [] cancelled).1 ≡ (
  serve (text "127.0.0.1:3128")
      ∷ serve (text "10.0.0.5:3128")
      ∷ close_stop_channel
      ∷ shut_down (text "127.0.0.1:3128")
      ∷ shut_down (text "10.0.0.5:3128")
      ∷ close_pac
      ∷ [],
  true,
)
unfolding start made
served_addresses = refl

-- The listener that was opened before the other one failed stays open.
left_open :
    (start first_only always server [] cancelled).1 ≡ (serve (text "127.0.0.1:3128") ∷ [], false)
unfolding start made
left_open = refl
