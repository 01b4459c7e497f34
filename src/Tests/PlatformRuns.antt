-- ===== src/Tests/PlatformRuns.antt =====
-- A list of servers as Windows hands it over.
use px_go.Prelude.{◌≡◌, refl, List, [], ◌∷◌, map, none, some}
use px_go.Strings.{Bytes, text, join}
use px_go.Platform.{parse_proxy_string}
use px_go.Platform.Servers.{Entry, IsWord, print, parse_proxy_string-join}

abbrev entries : List Entry
entries = (some (text "http"), text "p:1") ∷ (none, text "q:2") ∷ []

http-IsWord : IsWord (text "http")
unfolding px_go.Strings.is_space
http-IsWord = (λ e. cc e, (refl, (refl, (refl, (refl, tt)))))

p-IsWord : IsWord (text "p:1")
unfolding px_go.Strings.is_space
p-IsWord = (λ e. cc e, (refl, (refl, (refl, tt))))

q-IsWord : IsWord (text "q:2")
unfolding px_go.Strings.is_space
q-IsWord = (λ e. cc e, (refl, (refl, (refl, tt))))

parse_proxy_string-join_example :
    parse_proxy_string (join b';' (map print entries)) ≡ text "p:1" ∷ text "q:2" ∷ []
parse_proxy_string-join_example =
    parse_proxy_string-join entries ((http-IsWord, p-IsWord), (q-IsWord, tt))

-- The proxy of one scheme is one for all.
socks_is_for_all : parse_proxy_string (text "socks=p:1080") ≡ text "p:1080" ∷ []
unfolding parse_proxy_string
socks_is_for_all = refl
