-- ===== src/Proxy/Server/Load/Counted.antt =====
-- internal/proxy/server.go: the semaphore counts the requests that hold a slot.
use px_go.Prelude.{
  ℕ, suc, ◌+◌, ◌≤◌, ◌≡◌, ◌≢◌, refl, ap, inl, inr, Bool, true, false, List, [], ◌∷◌, ◌++◌, some,
  arith, if◌then◌else◌, leb, Bool-cases, Option-cases, All, All-append,
}
use mathlib.Core.Path.{subst}
use px_go.Network.{Outcome, value, error, panic, ◌>>=◌}
use px_go.Proxy.Server.{
  Server, Request, Event, acquire, release, close_upstream, established, relay, shut_down,
  nil_pointer, reply, Upstream, opened, failed, nothing, Hijack, unsupported, hijack_failed,
  hijacked, hijack_upstream, connect_upstream, release_sem, handle_connect, handle_quit,
  serve_route, serve_allowed, is_client_allowed, serve_http,
}
use px_go.Proxy.Server.Slots.{slot_after, slot_at_end, serve_http-slot}
use px_go.Proxy.Server.Load.{
  Thread, Serving, sem_after, ServingStep, take_slot, take_none, advance, leave, Reaches, idle,
  step,
}

-- No slot is taken among the events.
abbrev pub takes_none : List Event → Bool
takes_none [] = true
takes_none (acquire ∷ es) = false
takes_none (_ ∷ es) = takes_none es

-- What a thread still does is balanced, and takes no slot.
abbrev pub IsBalanced : Thread → Type 0
IsBalanced t = (slot_at_end t.holds t.todo ≡ some false) × (takes_none t.todo ≡ true)

abbrev pub holding : List Thread → ℕ
holding [] = 0
holding (t ∷ ts) = (if t.holds then 1 else 0) + holding ts

holding-append : (us ts : List Thread) → holding (us ++ ts) ≡ holding us + holding ts
holding-append [] ts = omega arith
holding-append (u ∷ us) ts = omega (arith, holding-append us ts)

connect_upstream-takes_none : (u : Upstream) (h : Hijack) → takes_none (connect_upstream u h) ≡ true
unfolding connect_upstream release_sem hijack_upstream
connect_upstream-takes_none failed h = refl
connect_upstream-takes_none opened unsupported = refl
connect_upstream-takes_none opened hijack_failed = refl
connect_upstream-takes_none opened hijacked = refl
connect_upstream-takes_none nothing unsupported = refl
connect_upstream-takes_none nothing hijack_failed = refl
connect_upstream-takes_none nothing hijacked = refl

-- The events of `serve_http` take a slot at most as their first one, and only while one is free.
abbrev TakesFirst : Server → List Event → Type 0
TakesFirst s [] = Unit
TakesFirst s (acquire ∷ rest) = (suc s.sem ≤ s.threads) × (takes_none rest ≡ true)
TakesFirst s (_ ∷ rest) = takes_none rest ≡ true

serve_route-TakesFirst : (s : Server) (q : Request) → TakesFirst s (serve_route s q)
unfolding serve_route handle_connect
serve_route-TakesFirst s q = elim (Bool-cases (leb s.threads s.sem)) [
  | inl t ↦ rw t refl
  | inr t ↦ elim (Bool-cases q.is_connect) [
    | inl c ↦ rw (t, c) (ground arith, connect_upstream-takes_none _ q.hijack)
    | inr c ↦ rw (t, c) (ground arith, refl)
  ]
]

handle_quit-TakesFirst : (s : Server) (q : Request) → TakesFirst s (handle_quit s q.remote)
unfolding handle_quit
handle_quit-TakesFirst s q = elim (Option-cases q.remote) [
  | inl e ↦ rw e refl
  | inr (ip, e) ↦ rw e (ground arith)
]

serve_allowed-TakesFirst :
    (s : Server) (q : Request) (allowed : Bool) → TakesFirst s (serve_allowed s q allowed)
unfolding serve_allowed
serve_allowed-TakesFirst s q allowed =
    ground (arith, serve_route-TakesFirst s q, handle_quit-TakesFirst s q)

abbrev events_of : Outcome (List Event) → List Event
events_of (value events) = events
events_of _ = []

of_outcome-TakesFirst :
    (s : Server) (q : Request) (allowed : Outcome Bool) (events : List Event)
    → (allowed >>= λ a. value (serve_allowed s q a)) ≡ value events
    → TakesFirst s events
of_outcome-TakesFirst s q (value a) events h =
    subst (TakesFirst s) (ap events_of h) (serve_allowed-TakesFirst s q a)
of_outcome-TakesFirst s q error events h = absurd (cc h)
of_outcome-TakesFirst s q panic events h = absurd (cc h)

serve_http-TakesFirst :
    (s : Server) (q : Request) (events : List Event)
    → serve_http s q ≡ value events
    → TakesFirst s events
unfolding serve_http
serve_http-TakesFirst s q events h =
    of_outcome-TakesFirst s q (is_client_allowed s q.remote) events h

-- The semaphore counts the threads that hold a slot, within its capacity, and every thread will give
-- its slot back.
abbrev pub IsCounted : Serving → Type 0
IsCounted v =
    (v.server.sem ≡ holding v.threads)
    × (v.server.sem ≤ v.server.threads)
    × All IsBalanced v.threads

takes_none-tail :
    (e : Event) (rest : List Event) → takes_none (e ∷ rest) ≡ true → takes_none rest ≡ true
takes_none-tail acquire rest t = cc t
takes_none-tail release rest t = t
takes_none-tail close_upstream rest t = t
takes_none-tail established rest t = t
takes_none-tail relay rest t = t
takes_none-tail shut_down rest t = t
takes_none-tail nil_pointer rest t = t
takes_none-tail (reply n) rest t = t

advance-IsBalanced :
    (held next : Bool) (e : Event) (rest : List Event)
    → slot_after held e ≡ some next
    → IsBalanced (record { holds = held; todo = e ∷ rest })
    → IsBalanced (record { holds = next; todo = rest })
unfolding slot_at_end
advance-IsBalanced held next e rest d (b, t) = (ground (arith, d, b), takes_none-tail e rest t)

-- The count follows what a thread does.
sem_after-holds :
    (held next : Bool) (e : Event) (rest : List Event) (n k : ℕ)
    → takes_none (e ∷ rest) ≡ true
    → slot_after held e ≡ some next
    → n ≡ k + (if held then 1 else 0)
    → sem_after e n ≡ k + (if next then 1 else 0)
unfolding slot_after
sem_after-holds held next acquire rest n k t d h = absurd (cc t)
sem_after-holds true next release rest n k t d h = ground arith
sem_after-holds false next release rest n k t d h = absurd (cc d)
sem_after-holds true next close_upstream rest n k t d h = ground arith
sem_after-holds false next close_upstream rest n k t d h = ground arith
sem_after-holds true next established rest n k t d h = ground arith
sem_after-holds false next established rest n k t d h = ground arith
sem_after-holds true next relay rest n k t d h = absurd (cc d)
sem_after-holds false next relay rest n k t d h = ground arith
sem_after-holds true next shut_down rest n k t d h = ground arith
sem_after-holds false next shut_down rest n k t d h = ground arith
sem_after-holds true next nil_pointer rest n k t d h = absurd (cc d)
sem_after-holds false next nil_pointer rest n k t d h = absurd (cc d)
sem_after-holds true next (reply m) rest n k t d h = ground arith
sem_after-holds false next (reply m) rest n k t d h = ground arith

All-split :
    (P : Thread → Type 0) (us : List Thread) (t : Thread) (ts : List Thread)
    → All P (us ++ (t ∷ ts))
    → All P us × P t × All P ts
All-split P [] t ts (h, k) = (tt, h, k)
All-split P (u ∷ us) t ts (h, k) = let (a, b, c) = All-split P us t ts k in ((h, a), b, c)

sem_after_le :
    (e : Event) (rest : List Event) (n : ℕ) → takes_none (e ∷ rest) ≡ true → sem_after e n ≤ n
sem_after_le acquire rest n t = absurd (cc t)
sem_after_le release rest n t = omega arith
sem_after_le close_upstream rest n t = omega arith
sem_after_le established rest n t = omega arith
sem_after_le relay rest n t = omega arith
sem_after_le shut_down rest n t = omega arith
sem_after_le nil_pointer rest n t = omega arith
sem_after_le (reply m) rest n t = omega arith

TakesFirst-other :
    (s : Server) (events : List Event)
    → TakesFirst s events
    → ((rest : List Event) → events ≢ acquire ∷ rest)
    → takes_none events ≡ true
TakesFirst-other s [] h ne = refl
TakesFirst-other s (acquire ∷ rest) h ne = absurd (ne rest refl)
TakesFirst-other s (release ∷ rest) h ne = h
TakesFirst-other s (close_upstream ∷ rest) h ne = h
TakesFirst-other s (established ∷ rest) h ne = h
TakesFirst-other s (relay ∷ rest) h ne = h
TakesFirst-other s (shut_down ∷ rest) h ne = h
TakesFirst-other s (nil_pointer ∷ rest) h ne = h
TakesFirst-other s (reply m ∷ rest) h ne = h

acquire-slot :
    (rest : List Event)
    → slot_at_end false (acquire ∷ rest) ≡ some false
    → slot_at_end true rest ≡ some false
unfolding slot_at_end
acquire-slot rest b = b

leave-holds : (held : Bool) → slot_at_end held [] ≡ some false → held ≡ false
unfolding slot_at_end
leave-holds held b = ground arith

ServingStep-IsCounted : {v w : Serving} → ServingStep v w → IsCounted v → IsCounted w
ServingStep-IsCounted (take_slot s ts q rest d) (count, bound, all) =
    let (free, none_more) = serve_http-TakesFirst s q (acquire ∷ rest) d in
    let balanced = acquire-slot rest (serve_http-slot s q (acquire ∷ rest) d) in
    (omega arith, free, ((balanced, none_more), all))
ServingStep-IsCounted (take_none s ts q events d ne) (count, bound, all) =
    let first = serve_http-TakesFirst s q events d in
    (omega arith, bound, ((serve_http-slot s q events d, TakesFirst-other s events first ne), all))
ServingStep-IsCounted (advance s us ts held next e rest d) (count, bound, all) =
    let before : Thread = record { holds = held; todo = e ∷ rest } in
    let after : Thread = record { holds = next; todo = rest } in
    let (left, (balanced, others), right) = All-split IsBalanced us before ts all in
    let counted : s.sem ≡ holding us + holding ts + (if held then 1 else 0) =
      omega (arith, holding-append us (before ∷ ts)) in
    let follows =
      sem_after-holds held next e rest s.sem (holding us + holding ts) others d counted in
    (
      omega (arith, holding-append us (after ∷ ts)),
      omega (arith, sem_after_le e rest s.sem others),
      All-append IsBalanced us (after ∷ ts) left
          (advance-IsBalanced held next e rest d (balanced, others), right),
    )
ServingStep-IsCounted (leave s us ts held) (count, bound, all) =
    let before : Thread = record { holds = held; todo = [] } in
    let (left, (balanced, _), right) = All-split IsBalanced us before ts all in
    let free = leave-holds held balanced in
    (
      ground (arith, holding-append us (before ∷ ts), holding-append us ts),
      bound,
      All-append IsBalanced us ts left right,
    )

-- From a server without requests on, however these interleave, the semaphore counts the requests that
-- hold a slot, they are at
-- most as many as it has slots, and each request gives its slot back: when all have ended, the
-- semaphore is free again.
pub Reaches-IsCounted : (s : Server) (v : Serving) → Reaches s v → IsCounted v
Reaches-IsCounted s v (idle z) = (z, omega arith, tt)
Reaches-IsCounted s v (step u w r d) = ServingStep-IsCounted d (Reaches-IsCounted s u r)
