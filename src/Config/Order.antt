-- ===== src/Config/Order.antt =====
-- internal/config/config.go: the order in which `applyValues` goes through a map.
use px_go.Prelude.{◌≡◌, refl, sym, ◌∙◌, true, false, List, [], ◌∷◌, Option, arith}
use mathlib.Core.Path.{subst}
use mathlib.Core.List.{Perm, Permᴰ}
use px_go.Strings.{Bytes, equal, is_member}
use px_go.Strings.Laws.{equal_iff, equal_comm}
use px_go.Config.{ℤ, Config}
use px_go.Config.Laws.{IsDistinct}
use px_go.Config.Values.{before, insert_sorted, sort, apply_values}

before_total : (a b : Bytes) → before a b ≡ false → before b a ≡ true
unfolding before
before_total [] b e = ground arith
before_total (x ∷ a) [] e = refl
before_total (x ∷ a) (y ∷ b) e = ground (arith, before_total a b)

before_antisymm : (a b : Bytes) → before a b ≡ true → before b a ≡ true → a ≡ b
unfolding before
before_antisymm [] [] e f = refl
before_antisymm [] (y ∷ b) e f = ground arith
before_antisymm (x ∷ a) [] e f = ground arith
before_antisymm (x ∷ a) (y ∷ b) e f = ground (arith, before_antisymm a b)

before_trans : (a b c : Bytes) → before a b ≡ true → before b c ≡ true → before a c ≡ true
unfolding before
before_trans [] b c e f = refl
before_trans (x ∷ a) [] c e f = ground arith
before_trans (x ∷ a) (y ∷ b) [] e f = ground arith
before_trans (x ∷ a) (y ∷ b) (z ∷ c) e f = ground (arith, before_trans a b c)

abbrev pub keys : List (Bytes × Bytes) → List Bytes
keys [] = []
keys (kv ∷ m) = kv.0 ∷ keys m

insert_sorted_comm :
    (kv jw : Bytes × Bytes) (m : List (Bytes × Bytes))
    → equal kv.0 jw.0 ≡ false
    → insert_sorted kv (insert_sorted jw m) ≡ insert_sorted jw (insert_sorted kv m)
unfolding insert_sorted
insert_sorted_comm kv jw [] ne =
    ground (arith, before_total kv.0 jw.0, before_antisymm kv.0 jw.0, equal_iff kv.0 jw.0)
insert_sorted_comm kv jw (iu ∷ m) ne = ground (
  arith,
  before_total kv.0 jw.0,
  before_antisymm kv.0 jw.0,
  equal_iff kv.0 jw.0,
  before_trans kv.0 jw.0 iu.0,
  before_trans jw.0 kv.0 iu.0,
  insert_sorted_comm kv jw m ne,
)

is_member-Permᴰ :
    {m n : List (Bytes × Bytes)} (k : Bytes)
    → Permᴰ m n
    → is_member k (keys m) ≡ is_member k (keys n)
is_member-Permᴰ k Permᴰ.nil = refl
is_member-Permᴰ k (Permᴰ.cons e d) = rw (e, is_member-Permᴰ k d) refl
is_member-Permᴰ k (Permᴰ.swap {a} {b} e f) = rw (sym e, sym f) (ground arith)
is_member-Permᴰ k (Permᴰ.trans d1 d2) = is_member-Permᴰ k d1 ∙ is_member-Permᴰ k d2

IsDistinct-Permᴰ :
    {m n : List (Bytes × Bytes)} → Permᴰ m n → IsDistinct (keys m) → IsDistinct (keys n)
IsDistinct-Permᴰ Permᴰ.nil one = one
IsDistinct-Permᴰ (Permᴰ.cons {a} {b} e d) (fresh, one) =
    (rw (sym e, sym (is_member-Permᴰ a.0 d)) fresh, IsDistinct-Permᴰ d one)
IsDistinct-Permᴰ (Permᴰ.swap {a} {b} {a'} {b'} {l} e f) one =
    let q : b ∷ a ∷ l ≡ a' ∷ b' ∷ l = rw (e, f) refl in
    subst (λ m. IsDistinct (keys m)) q (swapped one)
  where
    swapped : IsDistinct (keys (a ∷ b ∷ l)) → IsDistinct (keys (b ∷ a ∷ l))
    swapped one = ground (arith, equal_comm a.0 b.0)
IsDistinct-Permᴰ (Permᴰ.trans d1 d2) one = IsDistinct-Permᴰ d2 (IsDistinct-Permᴰ d1 one)

sort-Permᴰ : {m n : List (Bytes × Bytes)} → Permᴰ m n → IsDistinct (keys m) → sort m ≡ sort n
unfolding sort
sort-Permᴰ Permᴰ.nil one = refl
sort-Permᴰ (Permᴰ.cons {a} {b} e d) one = rw (e, sort-Permᴰ d one.1) refl
sort-Permᴰ (Permᴰ.swap {a} {b} {l = l} e f) one =
    rw (sym e, sym f) (insert_sorted_comm a b (sort l) (ground arith))
sort-Permᴰ (Permᴰ.trans d1 d2) one = sort-Permᴰ d1 one ∙ sort-Permᴰ d2 (IsDistinct-Permᴰ d1 one)

IsSet-Entries : IsSet (List (Bytes × Bytes))
IsSet-Entries = hlevel

sort-Perm : {m n : List (Bytes × Bytes)} → Perm m n → IsDistinct (keys m) → sort m ≡ sort n
sort-Perm {m} {n} p one = elim p [
  | ∣ d ∣₁ ↦ sort-Permᴰ d one
  | squash₁ (x → hx) (y → hy) i ↦ IsSet-Entries _ _ hx hy i
]

-- The entries of a map, whose keys are distinct, come in any order: `applyValues` leaves the same
-- settings and the same error, whatever that order is.
pub apply_values-Perm :
    (parse_seconds : Bytes → Option ℤ) (c : Config) (m n : List (Bytes × Bytes))
    → IsDistinct (keys m)
    → Perm m n
    → apply_values parse_seconds c m ≡ apply_values parse_seconds c n
unfolding apply_values
apply_values-Perm parse_seconds c m n one p = rw (sort-Perm p one) refl
