-- ===== src/Pac/Evaluator/Slots/Progress.antt =====
-- Why every request for a slot of a pool of internal/pac/pac.go returns.
use mathlib.Core.List.{Perm}
use mathlib.Core.Path.{subst}
use px_go.Prelude.{
  ℕ, ◌*◌, ◌<◌, ◌≤◌, ◌≡◌, ◌⊎◌, refl, ap, ◌∙◌, inl, inr, true, List, [], ◌∷◌, ◌++◌, Option, some, ltb,
  length, arith, All,
}
use px_go.Strings.{Bytes}
use px_go.Pac.Evaluator.Slots.{
  SlotRequest, waiting, holding, returned, Pool, receive, answer_of, send, proceed, SlotStep, go_on,
  SlotRun, filled,
}
use px_go.Pac.Evaluator.Slots.Ownership.{slots_of, Owns, length-slots_of, SlotRun-Owns}

module _ {ℓ} {R : Type ℓ} where
  abbrev pub IsReturned : SlotRequest R → Type 0
  IsReturned (returned answer) = Unit
  IsReturned q = ⊥

  -- A request that holds a slot, if any does.
  some_holding :
      (requests : List (SlotRequest R))
      → ((before : List (SlotRequest R)) × (r : R) × (after : List (SlotRequest R)) × (requests
            ≡ before ++ (holding r ∷ after)))
        ⊎ (slots_of requests ≡ [])
  some_holding [] = inr refl
  some_holding (holding r ∷ requests) = inl ([], r, requests, refl)
  some_holding (waiting ∷ requests) = elim (some_holding requests) [
    | inl (before, r, after, e) ↦ inl (waiting ∷ before, r, after, ap (◌∷◌ waiting) e)
    | inr e ↦ inr e
  ]
  some_holding (returned a ∷ requests) = elim (some_holding requests) [
    | inl (before, r, after, e) ↦ inl (returned a ∷ before, r, after, ap (◌∷◌ (returned a)) e)
    | inr e ↦ inr e
  ]

  -- A request that waits, if any does, where none holds a slot.
  some_waiting :
      (requests : List (SlotRequest R))
      → slots_of requests ≡ []
      → ((before after : List (SlotRequest R)) × (requests ≡ before ++ (waiting ∷ after)))
        ⊎ All IsReturned requests
  some_waiting [] e = inr tt
  some_waiting (waiting ∷ requests) e = inl ([], requests, refl)
  some_waiting (holding r ∷ requests) e = absurd (cc e)
  some_waiting (returned a ∷ requests) e = elim (some_waiting requests e) [
    | inl (before, after, f) ↦ inl (returned a ∷ before, after, ap (◌∷◌ (returned a)) f)
    | inr done ↦ inr (tt, done)
  ]

  -- The channel gives a slot unless it is empty.
  receive_one :
      (slots : List R) → 0 < length slots → (o : List R × SlotRequest R) × (receive slots ≡ some o)
  unfolding receive
  receive_one [] h = absurd (omega (arith, h))
  receive_one (r ∷ rest) h = (_, refl)

  -- It has room for the slot of a request.
  send_one :
      (capacity : ℕ) (slots : List R) (r : R) (answer : Bytes)
      → length slots < capacity
      → send capacity slots r answer ≡ some (slots ++ (r ∷ []), returned answer)
  unfolding send
  send_one capacity slots r answer h =
      let fits : ltb (length slots) capacity ≡ true = ground (arith, h) in rw fits refl

  holding_steps :
      (script : R → Option Bytes) (all : List R) (total k : ℕ) (p : Pool R)
      (before after : List (SlotRequest R)) (r : R)
      → Owns all total k p.capacity p.slots p.requests
      → p.requests ≡ before ++ (holding r ∷ after)
      → (s : Pool R) × SlotStep script p s
  unfolding proceed
  holding_steps script all total k p before after r (_, sum, _) e =
      let mine = ap (λ l. length (slots_of l)) e ∙ length-slots_of before (holding r ∷ after) in
      let room : length p.slots < p.capacity = omega (arith, sum, mine) in
      (
        _,
        go_on before after (holding r) _ _ e
            (send_one p.capacity p.slots r (answer_of (script r)) room),
      )

  waiting_steps :
      (script : R → Option Bytes) (p : Pool R) (before after : List (SlotRequest R))
      → 0 < length p.slots
      → p.requests ≡ before ++ (waiting ∷ after)
      → (s : Pool R) × SlotStep script p s
  unfolding proceed
  waiting_steps script p before after some_slot e =
      let ((slots, next), taken) = receive_one p.slots some_slot in
      (_, go_on before after waiting next slots e taken)

  Owns-goes_on :
      (script : R → Option Bytes) (all : List R) (total k : ℕ) (p : Pool R)
      → 0 < length all
      → p.capacity ≡ length all
      → Owns all total k p.capacity p.slots p.requests
      → (All IsReturned p.requests × Perm all p.slots) ⊎ ((s : Pool R) × SlotStep script p s)
  Owns-goes_on script all total k p some_slot room (mine, sum, steps) =
      elim (some_holding p.requests) [
        | inl (before, r, after, e) ↦
            inr (holding_steps script all total k p before after r (mine, sum, steps) e)
        | inr none_held ↦ elim (some_waiting p.requests none_held) [
          | inl (before, after, e) ↦
              let held = ap length none_held in
              inr
                (waiting_steps script p before after (omega (arith, some_slot, room, sum, held)) e)
          | inr done ↦ inl (done, subst (λ l. Perm all (l ++ p.slots)) none_held mine)
        ]
      ]

  -- A pool with at least one slot that is filled, and any number of requests that come for one, whose
  -- runs of the script end: in every order of the steps there are at most two for each request, and as
  -- long as not all requests have returned some request can go on. When all have returned, the
  -- channel holds the slots that it was filled with.
  pub SlotRun-goes_on :
      (script : R → Option Bytes) (all : List R) (n k : ℕ) (p : Pool R)
      → 0 < length all
      → SlotRun script (filled all n) k p
      → (k ≤ 2 * n)
        × ((All IsReturned p.requests × Perm all p.slots) ⊎ ((s : Pool R) × SlotStep script p s))
  SlotRun-goes_on script all n k p some_slot run =
      let (room, (mine, sum, steps)) = SlotRun-Owns script all n k p run in
      (omega (arith, steps), Owns-goes_on script all (2 * n) k p some_slot room (mine, sum, steps))
