-- ===== src/Pac/Cache/Order.antt =====
-- Facts on the linked list of internal/pac/cache.go: elements looked up by key and by address.
use px_go.Prelude.{
  ℕ, ◌+◌, ◌<◌, ◌≡◌, ◌≢◌, ◌⊎◌, inl, inr, refl, sym, ==_iff, ==_of_ne, List, [], ◌∷◌, Option, none,
  some, arith, ◌==◌, if◌then◌else◌, length, All, Bool-cases,
}
use mathlib.Core.Path.{subst}
use px_go.Strings.{Bytes, equal}
use px_go.Strings.Laws.{equal_iff, equal_refl, equal_of_ne}
use px_go.Pac.Cache.{CacheEntry, Element, value_at, unlink, modify, move_to_front, back}

-- The element that holds a key.
unfoldable pub find : Bytes → List Element → Option Element
find k [] = none
find k (e ∷ o) = if equal e.value.key k then some e else find k o

-- No address and no key stands twice.
abbrev pub IsDistinct : List Element → Type 0
IsDistinct [] = Unit {0}
IsDistinct (e ∷ o) =
    All (λ (f : Element). (f.id ≢ e.id) × (f.value.key ≢ e.value.key)) o × IsDistinct o

abbrev pub IsFresh : ℕ → List Element → Type 0
IsFresh n o = All (λ (f : Element). f.id < n) o

find-cons :
    (k : Bytes) (f e : Element) (o : List Element)
    → find k (f ∷ o) ≡ some e
    → ((f ≡ e) × (f.value.key ≡ k)) ⊎ ((f.value.key ≢ k) × (find k o ≡ some e))
unfolding find
find-cons k f e o h = ground (arith, equal_iff f.value.key k)

pub find-key : (k : Bytes) (o : List Element) (e : Element) → find k o ≡ some e → e.value.key ≡ k
unfolding find
find-key k [] e h = cc
find-key k (f ∷ o) e h = ground (arith, find-cons k f e o h, find-key k o e)

pub All-find :
    (P : Element → Type 0) (k : Bytes) (o : List Element) (e : Element)
    → All P o
    → find k o ≡ some e
    → P e
unfolding find
All-find P k [] e a h = absurd (cc h)
All-find P k (f ∷ o) e a h = elim (find-cons k f e o h) [
  | inl (here, _) ↦ rw (← here) a.0
  | inr (_, later) ↦ All-find P k o e a.1 later
]

-- In a distinct list the address of the element found by key leads back to that element.
pub value_at-find :
    (k : Bytes) (o : List Element) (e : Element)
    → IsDistinct o
    → find k o ≡ some e
    → value_at e.id o ≡ some e.value
unfolding find value_at
value_at-find k [] e d h = cc
value_at-find k (f ∷ o) e d h = elim (find-cons k f e o h) [
  | inl (here, _) ↦ ground arith
  | inr (_, later) ↦
      let apart = All-find (λ g. (g.id ≢ f.id) × (g.value.key ≢ f.value.key)) k o e d.0 later in
      ground (arith, value_at-find k o e d.1 later)
]

-- The key of the first element of a distinct list is not found behind it.
find-tail : (f : Element) (o : List Element) → IsDistinct (f ∷ o) → find f.value.key o ≡ none
unfolding find
find-tail f [] d = refl
find-tail f (g ∷ o) d =
    ground (arith, equal_iff g.value.key f.value.key, find-tail f o (d.0.1, d.1.1))

pub All-unlink : (P : Element → Type 0) (i : ℕ) (o : List Element) → All P o → All P (unlink i o)
unfolding unlink
All-unlink P i [] a = a
All-unlink P i (f ∷ o) a = elim (Bool-cases (f.id == i)) [
  | inl t ↦ rw (t, unlink) a.1
  | inr t ↦ rw (t, unlink) (a.0, All-unlink P i o a.1)
]

pub unlink-IsDistinct : (i : ℕ) (o : List Element) → IsDistinct o → IsDistinct (unlink i o)
unfolding unlink
unlink-IsDistinct i [] d = d
unlink-IsDistinct i (f ∷ o) d = elim (Bool-cases (f.id == i)) [
  | inl t ↦ rw (t, unlink) d.1
  | inr t ↦ rw (t, unlink) (All-unlink _ i o d.0, unlink-IsDistinct i o d.1)
]

-- Unlinking the element found for a key hides that key and no other.
pub find-unlink :
    (k j : Bytes) (o : List Element) (e : Element)
    → IsDistinct o
    → find k o ≡ some e
    → find j (unlink e.id o) ≡ (if equal k j then none else find j o)
unfolding find unlink
find-unlink k j [] e d h = cc
find-unlink k j (f ∷ o) e d h = elim (find-cons k f e o h) [
  | inl (here, at) ↦ ground (arith, equal_iff k j, equal_iff f.value.key j, find-tail f o d)
  | inr (other, later) ↦
      let apart = All-find (λ g. (g.id ≢ f.id) × (g.value.key ≢ f.value.key)) k o e d.0 later in
      ground (
        arith,
        equal_iff k j,
        equal_iff f.value.key j,
        equal_iff f.value.key k,
        find-unlink k j o e d.1 later,
      )
]

-- Unlinking the element found for a key shortens the list by one.
pub length-unlink :
    (k : Bytes) (o : List Element) (e : Element)
    → find k o ≡ some e
    → length (unlink e.id o) + 1 ≡ length o
unfolding find unlink
length-unlink k [] e h = cc
length-unlink k (f ∷ o) e h = ground (arith, find-cons k f e o h, length-unlink k o e)

unlink_first :
    (f : Element) (o : List Element)
    → All (λ (g : Element). (g.id ≢ f.id) × (g.value.key ≢ f.value.key)) o
    → All (λ (g : Element). (g.id ≢ f.id) × (g.value.key ≢ f.value.key)) (unlink f.id (f ∷ o))
unfolding unlink
unlink_first f o a = rw ((==_iff f.id f.id).1 refl) a

-- No element is left with the address or the key of the unlinked one.
pub unlink-apart :
    (k : Bytes) (o : List Element) (e : Element)
    → IsDistinct o
    → find k o ≡ some e
    → All (λ (g : Element). (g.id ≢ e.id) × (g.value.key ≢ k)) (unlink e.id o)
unfolding find unlink
unlink-apart k [] e d h = absurd (cc h)
unlink-apart k (f ∷ o) e d h = elim (find-cons k f e o h) [
  | inl (here, at) ↦
      subst (λ (x : Element). All (λ g. (g.id ≢ x.id) × (g.value.key ≢ k)) (unlink x.id (f ∷ o)))
        here (rw (← at) (unlink_first f o d.0))
  | inr (other, later) ↦
      let apart = All-find (λ g. (g.id ≢ f.id) × (g.value.key ≢ f.value.key)) k o e d.0 later in
      rw (==_of_ne f.id e.id (λ t. apart.0 (sym t)))
        ((λ t. apart.0 (sym t), other), unlink-apart k o e d.1 later)
]

value_at-modify :
    (i : ℕ) (w : CacheEntry → CacheEntry) (o : List Element) (v : CacheEntry)
    → value_at i o ≡ some v
    → value_at i (modify i w o) ≡ some (w v)
unfolding value_at modify
value_at-modify i w [] v h = cc
value_at-modify i w (f ∷ o) v h = elim (Bool-cases (f.id == i)) [
  | inl t ↦ ground arith
  | inr t ↦ ground (arith, value_at-modify i w o v)
]

unlink-modify :
    (i : ℕ) (w : CacheEntry → CacheEntry) (o : List Element) → unlink i (modify i w o) ≡ unlink i o
unfolding unlink modify
unlink-modify i w [] = refl
unlink-modify i w (f ∷ o) = ground (arith, unlink-modify i w o)

-- `el.Value` written through the pointer, then `MoveToFront(el)`.
pub move_to_front-modify :
    (k : Bytes) (w : CacheEntry → CacheEntry) (o : List Element) (e : Element)
    → IsDistinct o
    → find k o ≡ some e
    → move_to_front e.id (modify e.id w o) ≡ record e { value = w e.value } ∷ unlink e.id o
unfolding move_to_front
move_to_front-modify k w o e d h =
    ground
      (arith, value_at-modify e.id w o e.value (value_at-find k o e d h), unlink-modify e.id w o)

-- `Back()` of a list that is not empty is found by its key.
pub find-back :
    (o : List Element)
    → 0 < length o
    → IsDistinct o
    → (e : Element) × (back o ≡ some e) × (find e.value.key o ≡ some e)
unfolding find back
find-back [] n d = absurd (omega arith)
find-back (e ∷ []) n d = (e, refl, rw (equal_refl e.value.key))
find-back (e ∷ f ∷ o) n d =
    let (l, last, found) = find-back (f ∷ o) (omega arith) d.1 in
    let apart = All-find (λ g. (g.id ≢ e.id) × (g.value.key ≢ e.value.key)) _ (f ∷ o) l d.0 found in
    (l, last, rw (equal_of_ne e.value.key l.value.key (λ t. apart.1 (sym t))) found)

pub IsFresh-suc : (n : ℕ) (o : List Element) → IsFresh n o → IsFresh (n + 1) o
IsFresh-suc n [] a = a
IsFresh-suc n (f ∷ o) a = (omega arith, IsFresh-suc n o a.1)

pub apart_of_absent :
    (k : Bytes) (n : ℕ) (o : List Element)
    → IsFresh n o
    → find k o ≡ none
    → All (λ (f : Element). (f.id ≢ n) × (f.value.key ≢ k)) o
unfolding find
apart_of_absent k n [] a h = tt
apart_of_absent k n (f ∷ o) a h = (
  (omega arith, ground (arith, equal_iff f.value.key k)),
  apart_of_absent k n o a.1 (ground (arith, equal_iff f.value.key k)),
)
