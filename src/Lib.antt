-- ===== src/Lib.antt =====
-- px-go: a model of the local HTTP proxy px and the theorems that make its parts correct.
--
-- The program takes requests of local clients, decides by its settings, a PAC file or the platform
-- where each of them goes, and sends it on, directly or through an upstream proxy to which it
-- authenticates. Its parts and the files that model them:
--
--   internal/pac/cache.go       Pac/Cache.antt         the cache of PAC answers
--   internal/pac/pac.go         Pac/Evaluator.antt     the evaluator's critical sections
--                               Pac/Evaluator/Threads.antt  requests and reloads as threads
--                               Pac/Evaluator/Source.antt   loading and compiling the file
--                               Pac/Evaluator/Slots.antt    the slots of a pool
--                               Pac/Result.antt        the texts that a script returns
--   internal/auth               Auth.antt              the choice of a scheme
--                               Auth/Session.antt      the tokens of a session
--                               Auth/Negotiate.antt    credentials, NEGOTIATE
--                               Auth/Negotiate/Sspi.antt    the SSPI client
--   internal/kerberos           Kerberos.antt          the manager of tickets
--   internal/platform           Platform.antt          the settings of Windows
--   internal/network            Network.antt           lists of addresses and hosts
--                               Network/Hosts.antt     the matching of a host name
--   internal/proxy/handler.go   Proxy/Route.antt       where a request goes
--                               Proxy/Upstream.antt    the exchanges with an upstream proxy
--                               Proxy/Headers.antt     what is sent on of a message
--   internal/proxy/server.go    Proxy/Server.antt      the handling of one request
--                               Proxy/Server/Load.antt  many requests at once
--                               Proxy/Clients.antt     the states of its connections
--                               Proxy/Lifecycle.antt   New, Start and Shutdown
--   internal/proxy/tunnel.go    Proxy/Tunnel.antt      the relay of a tunnel
--   internal/clientauth         ClientAuth.antt        the handler, the challenges
--                               ClientAuth/Verify.antt      the check of each scheme
--                               ClientAuth/Authenticate.antt  one request, and a connection
--                               ClientAuth/Sspi.antt   the SSPI server
--   cmd/px/main.go              Command.antt           the commands of the program
--   internal/config             Config.antt            the settings, the arguments, the checks
--                               Config/Values.antt     applyValues and applyEnv
--                               Config/Files.antt      the INI and TOML files
--                               Config/Load.antt       Load and the search for its files
--                               Config/Outputs.antt    Save, the addresses, the log
--                               Config/Machine.antt    the machine's addresses, file URLs
--
-- Sspi.antt has the functions of Windows that both SSPI files call. A file under the name of such a
-- file has the laws of it, as Proxy/Lifecycle/Laws.antt has those of Proxy/Lifecycle.antt.
-- Strings.antt has the functions of Go's `strings` over byte strings, and Dict.antt Go's maps.
-- Prelude.antt passes library names on. Tests.antt has runs at concrete inputs.
--
-- A Go function keeps its name in snake case, and a method takes its receiver first and returns it
-- changed. A map is an association list, a pointer to a list element is an identity, a panic is a
-- value of `Outcome`. The clock's reading is an argument. The evaluator's mutex makes each critical
-- section one step of `Step`; the steps of different threads come in any order, and what is
-- fetched and what a script answers are chosen by the environment. The requests on one server and
-- the two pumps of a relay run as threads in the same way, and so do the requests that wait for a
-- slot of a pool, whose runs of the script are taken to end. An upstream proxy is a function
-- from the number of an attempt and the header sent to what comes back. The functions of Windows and
-- the commands of Kerberos work on a state of the system, of any type; what they are documented to
-- do to it is a hypothesis of the theorems that need it, and Tests has systems that do so.
--
-- Bounds: generations are 64-bit and wrap around, so the freshness of cached answers is stated for
-- fewer than 2^64 loads. The eviction loop runs on the length of the list as fuel: each round
-- removes one element. The authentication loops run for the four attempts of the source. Times and
-- durations of the cache are natural numbers of nanoseconds; those of the settings are 64-bit.
--
-- Parameters: the parsing of IPv6 texts, of URLs and of host-port pairs, the resolver, base64,
-- MD5, SHA-256, the messages of NTLM and Kerberos on both sides, the keyring, the platform, the paths
-- and variables of the operating system, the formats of files, and the numbers of type float64.
--
-- Not modelled: the JavaScript text of internal/pac/pacutils.go, which is not Go and runs in the
-- JavaScript runtime, the reading and writing of the syntax of configuration files, the search for
-- krb5.conf, the dialling of connections, and the texts of logs and error pages.
pub mod Prelude
pub mod Strings
pub mod Dict
pub mod Pac
pub mod Auth
pub mod Network
pub mod Proxy
pub mod Sspi
pub mod Kerberos
pub mod Platform
pub mod Config
pub mod Tests
pub mod ClientAuth
pub mod Command
