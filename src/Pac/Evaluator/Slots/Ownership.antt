-- ===== src/Pac/Evaluator/Slots/Ownership.antt =====
-- Who owns the slots of a pool of internal/pac/pac.go.
use mathlib.Core.List.Perm
use mathlib.Core.List.{Perm, Nodup, perm_append_singleton, perm_middle, append_assoc}
use mathlib.Core.Path.{subst}
use px_go.Prelude.{
  ℕ, zero, suc, ◌+◌, ◌*◌, ◌≡◌, refl, ap, ◌∙◌, inl, inr, List, [], ◌∷◌, ◌++◌, Option, none, some,
  ltb, length, length-append, arith, Bool-cases,
}
use px_go.Strings.{Bytes}
use px_go.Pac.Evaluator.Slots.{
  SlotRequest, waiting, holding, returned, Pool, receive, answer_of, send, proceed, SlotStep, go_on,
  SlotRun, stay, step, all_waiting, filled,
}

module _ {ℓ} {R : Type ℓ} where
  abbrev pub slots_of : List (SlotRequest R) → List R
  slots_of [] = []
  slots_of (waiting ∷ requests) = slots_of requests
  slots_of (holding r ∷ requests) = r ∷ slots_of requests
  slots_of (returned _ ∷ requests) = slots_of requests

  -- The slots that requests hold, then those in the channel.
  abbrev pub owned : Pool R → List R
  owned p = slots_of p.requests ++ p.slots

  -- The steps that the requests still have to make.
  abbrev left_of : List (SlotRequest R) → ℕ
  left_of [] = 0
  left_of (waiting ∷ requests) = 2 + left_of requests
  left_of (holding r ∷ requests) = 1 + left_of requests
  left_of (returned _ ∷ requests) = left_of requests

  slots_of-append :
      (before after : List (SlotRequest R))
      → slots_of (before ++ after) ≡ slots_of before ++ slots_of after
  slots_of-append [] after = refl
  slots_of-append (waiting ∷ before) after = slots_of-append before after
  slots_of-append (holding r ∷ before) after = ap (◌∷◌ r) (slots_of-append before after)
  slots_of-append (returned _ ∷ before) after = slots_of-append before after

  pub length-slots_of :
      (before after : List (SlotRequest R))
      → length (slots_of (before ++ after)) ≡ length (slots_of before) + length (slots_of after)
  length-slots_of before after =
      ap length (slots_of-append before after) ∙ length-append (slots_of before) (slots_of after)

  left_of-append :
      (before after : List (SlotRequest R))
      → left_of (before ++ after) ≡ left_of before + left_of after
  left_of-append [] after = omega arith
  left_of-append (waiting ∷ before) after = omega (arith, left_of-append before after)
  left_of-append (holding r ∷ before) after = omega (arith, left_of-append before after)
  left_of-append (returned _ ∷ before) after = left_of-append before after

  -- The channel and the requests have the slots of a list, as many as the channel has room for, and
  -- the requests have `total` steps to make, `k` of which they have made.
  abbrev pub Owns : List R → ℕ → ℕ → ℕ → List R → List (SlotRequest R) → Type ℓ
  Owns all total k capacity slots requests =
      Perm all (slots_of requests ++ slots)
      × (length slots + length (slots_of requests) ≡ capacity)
      × (k + left_of requests ≡ total)

  abbrev OwnsNext :
      List R
      → ℕ
      → ℕ
      → ℕ
      → List (SlotRequest R)
      → List (SlotRequest R)
      → Option (List R × SlotRequest R)
      → Type ℓ
  OwnsNext all total k capacity before after none = Unit
  OwnsNext all total k capacity before after (some (slots, q)) =
      Owns all total k capacity slots (before ++ (q ∷ after))

  -- A slot that a request gives up goes to the end of the channel.
  returned-Perm :
      (r : R) (mine slots : List R) → Perm (r ∷ (mine ++ slots)) (mine ++ (slots ++ (r ∷ [])))
  returned-Perm r mine slots =
      subst (Perm (r ∷ (mine ++ slots))) (append_assoc mine slots (r ∷ []))
        (Perm.symm (perm_append_singleton r (mine ++ slots)))

  receive-OwnsNext :
      (all slots : List R) (total k capacity : ℕ) (before after : List (SlotRequest R))
      → Owns all total k capacity slots (before ++ (waiting ∷ after))
      → OwnsNext all total (suc k) capacity before after (receive slots)
  unfolding receive
  receive-OwnsNext all [] total k capacity before after h = tt
  receive-OwnsNext all (r ∷ rest) total k capacity before after (mine, sum, steps) =
      let mine_then_theirs = slots_of before ++ slots_of after in
      (
        rw (slots_of-append before (holding r ∷ after)) (
            Perm.trans
              (subst (λ l. Perm all (l ++ (r ∷ rest))) (slots_of-append before (waiting ∷ after))
                mine)
              (Perm.trans (perm_middle mine_then_theirs rest) (
                Perm.symm
                  (Perm.append_right rest (perm_middle (slots_of before) (slots_of after)))))),
        omega (
          arith,
          sum,
          length-slots_of before (waiting ∷ after),
          length-slots_of before (holding r ∷ after),
        ),
        omega (
          arith,
          steps,
          left_of-append before (waiting ∷ after),
          left_of-append before (holding r ∷ after),
        ),
      )

  put_back-Owns :
      (all slots : List R) (total k capacity : ℕ) (before after : List (SlotRequest R)) (r : R)
      (answer : Bytes)
      → Owns all total k capacity slots (before ++ (holding r ∷ after))
      → Owns all total (suc k) capacity (slots ++ (r ∷ [])) (before ++ (returned answer ∷ after))
  put_back-Owns all slots total k capacity before after r answer (mine, sum, steps) = (
    rw (slots_of-append before (returned answer ∷ after)) (
        Perm.trans
          (subst (λ l. Perm all (l ++ slots)) (slots_of-append before (holding r ∷ after)) mine)
          (Perm.trans (Perm.append_right slots (perm_middle (slots_of before) (slots_of after)))
            (returned-Perm r (slots_of before ++ slots_of after) slots))),
    omega (
      arith,
      sum,
      length-slots_of before (holding r ∷ after),
      length-slots_of before (returned answer ∷ after),
      length-append slots (r ∷ []),
    ),
    omega (
      arith,
      steps,
      left_of-append before (holding r ∷ after),
      left_of-append before (returned answer ∷ after),
    ),
  )

  send-OwnsNext :
      (all slots : List R) (total k capacity : ℕ) (before after : List (SlotRequest R)) (r : R)
      (answer : Bytes)
      → Owns all total k capacity slots (before ++ (holding r ∷ after))
      → OwnsNext all total (suc k) capacity before after (send capacity slots r answer)
  unfolding send
  send-OwnsNext all slots total k capacity before after r answer h =
      elim (Bool-cases (ltb (length slots) capacity)) [
        | inl t ↦ rw t (put_back-Owns all slots total k capacity before after r answer h)
        | inr t ↦ rw t tt
      ]

  proceed-OwnsNext :
      (script : R → Option Bytes) (all slots : List R) (total k capacity : ℕ)
      (before after : List (SlotRequest R)) (q : SlotRequest R)
      → Owns all total k capacity slots (before ++ (q ∷ after))
      → OwnsNext all total (suc k) capacity before after (proceed script capacity slots q)
  unfolding proceed
  proceed-OwnsNext script all slots total k capacity before after waiting h =
      receive-OwnsNext all slots total k capacity before after h
  proceed-OwnsNext script all slots total k capacity before after (holding r) h =
      send-OwnsNext all slots total k capacity before after r (answer_of (script r)) h
  proceed-OwnsNext script all slots total k capacity before after (returned answer) h = tt

  SlotStep-Owns :
      (script : R → Option Bytes) (all : List R) (total k : ℕ) (p s : Pool R)
      → SlotStep script p s
      → (p.capacity ≡ length all) × Owns all total k p.capacity p.slots p.requests
      → (s.capacity ≡ length all) × Owns all total (suc k) s.capacity s.slots s.requests
  SlotStep-Owns script all total k p s (go_on before after q next slots e goes) (room, h) = (
    room,
    subst (OwnsNext all total (suc k) p.capacity before after) goes (
        proceed-OwnsNext script all p.slots total k p.capacity before after q
          (subst (Owns all total k p.capacity p.slots) e h)),
  )

  slots_of-all_waiting : (n : ℕ) → slots_of (all_waiting {R = R} n) ≡ []
  slots_of-all_waiting zero = refl
  slots_of-all_waiting (suc n) = slots_of-all_waiting n

left_of-all_waiting {ℓ} : (R : Type ℓ) (n : ℕ) → left_of (all_waiting {R = R} n) ≡ 2 * n
left_of-all_waiting R zero = omega arith
left_of-all_waiting R (suc n) = omega (arith, left_of-all_waiting R n)

module _ {ℓ} {R : Type ℓ} where
  -- What holds in every state of the pool.
  pub SlotRun-Owns :
      (script : R → Option Bytes) (all : List R) (n k : ℕ) (s : Pool R)
      → SlotRun script (filled all n) k s
      → (s.capacity ≡ length all) × Owns all (2 * n) k s.capacity s.slots s.requests
  unfolding filled
  SlotRun-Owns script all n k s stay = (
    refl,
    rw (slots_of-all_waiting n) (Perm.rfl, omega arith, omega (arith, left_of-all_waiting R n)),
  )
  SlotRun-Owns script all n k s (step {k = j} {s = t} run one) =
      SlotStep-Owns script all (2 * n) j t s one (SlotRun-Owns script all n j t run)

  -- If the slots of a new pool differ, then however requests take slots and put them back, no slot is
  -- held by two requests, and none that is held is in the channel.
  pub owned-Nodup :
      (script : R → Option Bytes) (all : List R) (n k : ℕ) (p : Pool R)
      → Nodup all
      → SlotRun script (filled all n) k p
      → Nodup (owned p)
  owned-Nodup script all n k p distinct run =
      Perm.nodup (SlotRun-Owns script all n k p run).1.0 distinct
