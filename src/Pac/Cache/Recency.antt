-- ===== src/Pac/Cache/Recency.antt =====
-- The eviction order of internal/pac/cache.go: the keys of the linked list, most recent first.
use px_go.Prelude.{
  ℕ, zero, suc, ◌-◌, ◌≤◌, ◌≡◌, ◌≢◌, inl, inr, refl, sym, ap, ◌∙◌, ==_of_ne, List, [], ◌∷◌, none,
  some, arith, if◌then◌else◌, length, All, Bool-cases, Option-cases,
}
use px_go.Strings.{Bytes, equal}
use px_go.Strings.Laws.{equal_iff}
use px_go.Pac.Cache.{Element, ResultCache, unlink, back, push_front, get, put_locked, put}
use px_go.Pac.Cache.Order.{find, IsDistinct, find-key, find-back, All-find, length-unlink}
use px_go.Pac.Cache.Invariant.{IsLinked, get_absent, get_present}
use px_go.Pac.Cache.Eviction.{
  MakesRoom, already, evicted, evict-MakesRoom, put_locked_present, put_locked_absent,
}

abbrev pub keys : List Element → List Bytes
keys [] = []
keys (e ∷ o) = e.value.key ∷ keys o

unfoldable pub without : Bytes → List Bytes → List Bytes
without k [] = []
without k (j ∷ l) = if equal j k then without k l else j ∷ without k l

module _ {ℓ} {A : Type ℓ} where
  unfoldable pub take : ℕ → List A → List A
  take zero l = []
  take (suc n) [] = []
  take (suc n) (x ∷ l) = x ∷ take n l

  take_of_length-le : (n : ℕ) (l : List A) → length l ≤ n → take n l ≡ l
  unfolding take
  take_of_length-le zero [] h = refl
  take_of_length-le zero (x ∷ l) h = absurd (omega arith)
  take_of_length-le (suc n) [] h = refl
  take_of_length-le (suc n) (x ∷ l) h = ap (◌∷◌ x) (take_of_length-le n l (omega arith))

length-keys : (o : List Element) → length (keys o) ≡ length o
length-keys [] = refl
length-keys (e ∷ o) = ap suc (length-keys o)

length-without-le : (k : Bytes) (l : List Bytes) → length (without k l) ≤ length l
unfolding without
length-without-le k [] = omega arith
length-without-le k (j ∷ l) = ground (arith, length-without-le k l)

without-keys_absent : (k : Bytes) (o : List Element) → find k o ≡ none → without k (keys o) ≡ keys o
unfolding find without
without-keys_absent k [] h = refl
without-keys_absent k (e ∷ o) h = ground (arith, without-keys_absent k o)

without-keys_apart :
    (k : Bytes) (o : List Element)
    → All (λ (f : Element). f.value.key ≢ k) o
    → without k (keys o) ≡ keys o
unfolding without
without-keys_apart k [] a = refl
without-keys_apart k (e ∷ o) a = ground (arith, equal_iff e.value.key k, without-keys_apart k o a.1)

find-tail_absent : (f : Element) (o : List Element) → IsDistinct (f ∷ o) → find f.value.key o ≡ none
unfolding find
find-tail_absent f [] d = refl
find-tail_absent f (g ∷ o) d =
    ground (arith, equal_iff g.value.key f.value.key, find-tail_absent f o (d.0.1, d.1.1))

-- To unlink the element found for a key takes that key out of the order.
keys-unlink :
    (k : Bytes) (o : List Element) (e : Element)
    → IsDistinct o
    → find k o ≡ some e
    → keys (unlink e.id o) ≡ without k (keys o)
unfolding find unlink without
keys-unlink k [] e d h = cc
keys-unlink k (f ∷ o) e d h = elim (Bool-cases (equal f.value.key k)) [
  | inl t ↦
      let same : k ≡ f.value.key = sym ((equal_iff f.value.key k).0 t) in
      ground (arith, without-keys_absent k o (rw same (find-tail_absent f o d)))
  | inr t ↦
      let later : find k o ≡ some e = ground arith in
      let apart = All-find (λ g. (g.id ≢ f.id) × (g.value.key ≢ f.value.key)) k o e d.0 later in
      ground (arith, keys-unlink k o e d.1 later)
]

-- To unlink the element at the back keeps the others in order.
keys-unlink-back :
    (n : ℕ) (o : List Element) (e : Element)
    → IsDistinct o
    → length o ≡ suc n
    → back o ≡ some e
    → keys (unlink e.id o) ≡ take n (keys o)
unfolding back unlink take
keys-unlink-back n [] e d len h = cc
keys-unlink-back zero (x ∷ []) e d len h = ground arith
keys-unlink-back (suc n) (x ∷ []) e d len h = absurd (omega arith)
keys-unlink-back zero (x ∷ y ∷ o) e d len h = absurd (omega arith)
keys-unlink-back (suc n) (x ∷ y ∷ o) e d len h =
    let (l, last, found) = find-back (y ∷ o) (omega arith) d.1 in
    let apart = All-find (λ g. (g.id ≢ x.id) × (g.value.key ≢ x.value.key)) _ (y ∷ o) l d.0 found in
    let same : l ≡ e = ground arith in
    let ne : x.id ≢ e.id = λ q. apart.0 (ap (λ (g : Element). g.id) same ∙ sym q) in
    rw (==_of_ne x.id e.id ne)
      (ap (◌∷◌ x.value.key) (keys-unlink-back n (y ∷ o) e d.1 (omega arith) h))

-- After room is made the order is cut to one less than the capacity.
keys-room :
    (c d : ResultCache) (n : ℕ)
    → IsLinked c
    → c.cap ≡ suc n
    → MakesRoom c d
    → keys d.order ≡ take n (keys c.order)
keys-room c d n l cap (already e h) =
    rw e (sym (take_of_length-le n (keys c.order) (omega (arith, length-keys c.order))))
keys-room c d n l cap (evicted e full last found p) =
    rw p (keys-unlink-back n c.order e l.distinct (omega arith) last)

keys-put_suc :
    (c : ResultCache) (now : ℕ) (k r : Bytes) (n : ℕ)
    → IsLinked c
    → c.cap ≡ suc n
    → keys (put_locked c now k r c.gen).order ≡ take (suc n) (k ∷ without k (keys c.order))
unfolding push_front take
keys-put_suc c now k r n l cap = elim (Option-cases (find k c.order)) [
  | inr (e, h) ↦
      let unlinked = keys-unlink k c.order e l.distinct h in
      let fits : length (without k (keys c.order)) ≤ n = rw (← unlinked) (
        omega (arith, length-keys (unlink e.id c.order), length-unlink k c.order e h, l.bounded)) in
      rw (put_locked_present c now k r c.gen e l h)
        (ap (◌∷◌ k) (unlinked ∙ sym (take_of_length-le n (without k (keys c.order)) fits)))
  | inl h ↦
      rw (put_locked_absent c now k r c.gen l h, without-keys_absent k c.order h)
        (ap (◌∷◌ k) (keys-room c _ n l cap (evict-MakesRoom c l)))
]

-- After a `put` the key stands first, the other keys keep their order, and what does not fit in
-- the capacity is dropped from the end: the key used least recently.
pub keys-put :
    (c : ResultCache) (now : ℕ) (k r : Bytes)
    → IsLinked c
    → keys (put c now k r).order ≡ take c.cap (k ∷ without k (keys c.order))
unfolding put
keys-put c now k r l =
    let cap : c.cap ≡ suc (c.cap - 1) = omega (arith, l.positive) in
    keys-put_suc c now k r (c.cap - 1) l cap
    ∙ ap (λ (m : ℕ). take m (k ∷ without k (keys c.order))) (sym cap)

-- A `get` that hits makes its key the most recent one and keeps the order of the others.
pub keys-get :
    (c : ResultCache) (now : ℕ) (k r : Bytes)
    → IsLinked c
    → (get c now k).1 ≡ some r
    → keys (get c now k).0.order ≡ k ∷ without k (keys c.order)
keys-get c now k r l hit = elim (Option-cases (find k c.order)) [
  | inl h ↦ absurd (ground (arith, get_absent c now k l h))
  | inr (e, h) ↦ ground (
    arith,
    get_present c now k e l h,
    find-key k c.order e h,
    keys-unlink k c.order e l.distinct h,
  )
]
