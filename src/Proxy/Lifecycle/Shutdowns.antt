-- ===== src/Proxy/Lifecycle/Shutdowns.antt =====
-- internal/proxy/server.go: what calls of `Shutdown` do, and which servers they leave running.
use px_go.Prelude.{
  ◌≡◌, refl, ◌∙◌, ap, inl, inr, Bool, true, false, List, [], ◌∷◌, ◌++◌, map, if◌then◌else◌,
  Option-cases, Bool-cases,
}
use mathlib.Core.List.{append-nil}
use px_go.Strings.{Bytes}
use px_go.Proxy.Lifecycle.{
  Server, Action, start_kerberos, close_stop_channel, remove_tickets, close_pac, serve, shut_down,
  all_closed, stop_actions, shutdown, Wake, cancelled, serve_failed, stop_closed, woken,
}

-- The addresses that the actions begin to serve.
abbrev pub served : List Action → List Bytes
served [] = []
served (serve addr ∷ actions) = addr ∷ served actions
served (_ ∷ actions) = served actions

-- The addresses whose servers the actions shut down.
abbrev pub shut : List Action → List Bytes
shut [] = []
shut (shut_down addr ∷ actions) = addr ∷ shut actions
shut (_ ∷ actions) = shut actions

pub shut-append : (xs ys : List Action) → shut (xs ++ ys) ≡ shut xs ++ shut ys
shut-append [] ys = refl
shut-append (serve a ∷ xs) ys = shut-append xs ys
shut-append (shut_down a ∷ xs) ys = ap (◌∷◌ a) (shut-append xs ys)
shut-append (start_kerberos ∷ xs) ys = shut-append xs ys
shut-append (close_stop_channel ∷ xs) ys = shut-append xs ys
shut-append (remove_tickets ∷ xs) ys = shut-append xs ys
shut-append (close_pac ∷ xs) ys = shut-append xs ys

pub served-append : (xs ys : List Action) → served (xs ++ ys) ≡ served xs ++ served ys
served-append [] ys = refl
served-append (serve a ∷ xs) ys = ap (◌∷◌ a) (served-append xs ys)
served-append (shut_down a ∷ xs) ys = served-append xs ys
served-append (start_kerberos ∷ xs) ys = served-append xs ys
served-append (close_stop_channel ∷ xs) ys = served-append xs ys
served-append (remove_tickets ∷ xs) ys = served-append xs ys
served-append (close_pac ∷ xs) ys = served-append xs ys

shut-map_shut_down :
    (addrs : List Bytes) (rest : List Action)
    → shut rest ≡ []
    → shut (map shut_down addrs ++ rest) ≡ addrs
shut-map_shut_down [] rest h = h
shut-map_shut_down (a ∷ addrs) rest h = ap (◌∷◌ a) (shut-map_shut_down addrs rest h)

shut-stop_actions : (s : Server) → shut (stop_actions s) ≡ s.servers
unfolding stop_actions
shut-stop_actions s = shut-map_shut_down s.servers _ (elim (Option-cases s.kerberos) [
  | inl e ↦ elim (Option-cases s.pac) [ inl f ↦ rw (e, f) refl | inr (p, f) ↦ rw (e, f) refl ]
  | inr (k, e) ↦ elim (Option-cases s.pac) [ inl f ↦ rw (e, f) refl | inr (p, f) ↦ rw (e, f) refl ]
])

served-map_shut_down :
    (addrs : List Bytes) (rest : List Action) → served (map shut_down addrs ++ rest) ≡ served rest
served-map_shut_down [] rest = refl
served-map_shut_down (a ∷ addrs) rest = served-map_shut_down addrs rest

served-stop_actions : (s : Server) → served (stop_actions s) ≡ []
unfolding stop_actions
served-stop_actions s = served-map_shut_down s.servers _ ∙ (elim (Option-cases s.kerberos) [
  | inl e ↦ elim (Option-cases s.pac) [ inl f ↦ rw (e, f) refl | inr (p, f) ↦ rw (e, f) refl ]
  | inr (k, e) ↦ elim (Option-cases s.pac) [ inl f ↦ rw (e, f) refl | inr (p, f) ↦ rw (e, f) refl ]
])

-- The states of the server after some calls of `Shutdown`, with all that they do.
unfoldable pub shutdowns : List (Bytes → Bool) → Server → Server × List Action
unfolding shutdown
shutdowns [] s = (s, [])
shutdowns (closes ∷ calls) s =
    let (after, (actions, _)) = shutdown closes s in
    let (last, more) = shutdowns calls after in (last, actions ++ more)

shutdown-if :
    (closes : Bytes → Bool) (s : Server) (b : Bool)
    → s.stopped ≡ b
    → shutdown closes s ≡ (
        if b
        then (s, ([], true))
        else (record s { stopped = true }, (stop_actions s, all_closed closes s.servers)))
unfolding shutdown
shutdown-if closes s b h =
    ap
      (λ (c : Bool).
        if c
        then (s, ([], true))
        else (record s { stopped = true }, (stop_actions s, all_closed closes s.servers)))
      h

shutdowns-stopped :
    (calls : List (Bytes → Bool)) (s : Server) → s.stopped ≡ true → (shutdowns calls s).1 ≡ []
unfolding shutdowns
shutdowns-stopped [] s h = refl
shutdowns-stopped (closes ∷ calls) s h =
    simp (shutdown-if closes s true h, shutdowns-stopped calls s h)

-- The servers that the first `Shutdown` to come will shut down.
abbrev pub pending : Server → List Bytes
pending s = if s.stopped then [] else s.servers

-- A call of Shutdown and what is pending behind it.
pub shutdown-pending :
    (closes : Bytes → Bool) (s : Server)
    → let (t, (actions, _)) = shutdown closes s in
      (served actions ≡ []) × (shut actions ≡ pending s) × (t.stopped ≡ true)
unfolding stop_actions
shutdown-pending closes s = elim (Bool-cases s.stopped) [
  | inl t ↦ rw (shutdown-if closes s true t, t) (refl, refl, refl)
  | inr f ↦ rw (shutdown-if closes s false f, f) (served-stop_actions s, shut-stop_actions s, refl)
]

pub shutdowns-pending :
    (closes : Bytes → Bool) (calls : List (Bytes → Bool)) (s : Server)
    → shut (shutdowns (closes ∷ calls) s).1 ≡ pending s
unfolding shutdowns
shutdowns-pending closes calls s =
    let (t, (actions, fine)) = shutdown closes s in
    let (_, same, stopped) = shutdown-pending closes s in
    rw (shutdowns-stopped calls (shutdown closes s).0 stopped)
      (ap shut (append-nil (shutdown closes s).1.0) ∙ same)

pub woken-pending :
    (closes : Bytes → Bool) (s : Server) (wake : Wake)
    → let (t, (actions, _)) = woken closes s wake in
      (served actions ≡ []) × (shut actions ++ pending t ≡ pending s)
unfolding woken
woken-pending closes s cancelled =
    let (none_served, same, stopped) = shutdown-pending closes s in
    (none_served, rw stopped (append-nil (shut (shutdown closes s).1.0) ∙ same))
woken-pending closes s serve_failed = (refl, refl)
woken-pending closes s stop_closed = (refl, refl)
