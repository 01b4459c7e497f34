-- ===== src/Pac/Evaluator/Slots.antt =====
-- The slots of a pool of internal/pac/pac.go: the channel that `buildPool` fills and from which each
-- request of FindProxyForURL takes a slot, which its deferred function puts back when it returns.
-- `R` is the type of the slots, and `script` the answer of the script in a slot, which is `none` for an
-- error. A run of the script is assumed to end.
pub mod Ownership
pub mod Progress
use px_go.Prelude.{
  ℕ, zero, suc, List, [], ◌∷◌, ◌++◌, Option, none, some, ltb, if◌then◌else◌, length, ◌≡◌,
}
use px_go.Strings.{Bytes, text}
use px_go.Pac.Result.{normalize_proxy_result}

-- A request behind its second look at the cache: it waits at the channel, holds a slot, in which the
-- script runs, or has returned its answer.
pub data SlotRequest {ℓ} (R : Type ℓ) : Type ℓ where
  waiting : SlotRequest R
  holding : R → SlotRequest R
  returned : Bytes → SlotRequest R

-- `slots`: the capacity and the contents of the channel, the next one first; and the requests that
-- use this pool.
pub record Pool {ℓ} (R : Type ℓ) : Type ℓ where
  pub capacity : ℕ
  pub slots : List R
  pub requests : List (SlotRequest R)

-- The answer behind the call of the script
unfoldable pub answer_of : Option Bytes → Bytes
unfolding normalize_proxy_result
answer_of none = text "DIRECT"
answer_of (some result) = normalize_proxy_result result

module _ {ℓ} {R : Type ℓ} where
  -- `slot := <-p.slots`: the channel and the request afterwards; `none` where the request waits.
  unfoldable pub receive : List R → Option (List R × SlotRequest R)
  receive [] = none
  receive (r ∷ rest) = some (rest, holding r)

  -- `p.slots <- slot`, which is deferred, with the answer that is returned; `none` where the channel is
  -- full.
  unfoldable pub send : ℕ → List R → R → Bytes → Option (List R × SlotRequest R)
  send capacity slots r answer =
      if ltb (length slots) capacity then some (slots ++ (r ∷ []), returned answer) else none

  -- What FindProxyForURL does next for a request; `none` where the request waits or has returned.
  unfoldable pub proceed :
      (R → Option Bytes) → ℕ → List R → SlotRequest R → Option (List R × SlotRequest R)
  unfolding receive send answer_of
  proceed script capacity slots waiting = receive slots
  proceed script capacity slots (holding r) = send capacity slots r (answer_of (script r))
  proceed script capacity slots (returned answer) = none

  -- One of the requests goes on.
  pub data SlotStep (script : R → Option Bytes) (p : Pool R) : Pool R → Type ℓ where
    go_on :
        (before after : List (SlotRequest R)) (q next : SlotRequest R) (slots : List R)
        → p.requests ≡ before ++ (q ∷ after)
        → proceed script p.capacity p.slots q ≡ some (slots, next)
        → SlotStep script p (record p { slots = slots; requests = before ++ (next ∷ after) })

  -- Some steps, with their number.
  pub data SlotRun (script : R → Option Bytes) (p : Pool R) : ℕ → Pool R → Type ℓ where
    stay : SlotRun script p 0 p
    step :
        {k : ℕ} {s t : Pool R}
        → SlotRun script p k s
        → SlotStep script s t
        → SlotRun script p (suc k) t

  abbrev pub all_waiting : ℕ → List (SlotRequest R)
  all_waiting zero = []
  all_waiting (suc n) = waiting ∷ all_waiting n

  -- `make(chan *pacSlot, size)` with the slots that `buildPool` sends, and the requests to come.
  unfoldable pub filled : List R → ℕ → Pool R
  filled slots n = record { capacity = length slots; slots = slots; requests = all_waiting n }
