-- ===== src/Pac/Evaluator/Threads/Loading.antt =====
-- At most one load of internal/pac/pac.go is under way at any time.
use px_go.Prelude.{ℕ, ◌≡◌, refl, sym, ap, ◌∙◌, Bool, true, false, arith, ==_iff}
use px_go.Strings.{Bytes, text}
use px_go.Pac.Evaluator.{
  Evaluator, ready, reload, wait, load, new, kick_reload_if_stale, ensure_loaded, swap, finish_load,
  fail_reload, close, look_up, remember,
}
use px_go.Pac.Evaluator.Threads.{
  Local, start, kicking, ensuring, fetching, finishing, looking, choosing, running, done, reloading,
  ending, over, System, set, Answering, Step, Reach, initial, here, next,
}

-- Between setting the flag `reloading` and clearing it.
abbrev pub is_loading : Local → Bool
is_loading (fetching u h) = true
is_loading (finishing u h) = true
is_loading reloading = true
is_loading ending = true
is_loading _ = false

pub record HasOneLoader (e : Evaluator) (f : ℕ → Local) : Type 0 where
  pub unique : (i j : ℕ) → is_loading (f i) ≡ true → is_loading (f j) ≡ true → i ≡ j
  pub flagged : (i : ℕ) → is_loading (f i) ≡ true → e.reloading ≡ true
  pub loader : e.reloading ≡ true → (i : ℕ) × (is_loading (f i) ≡ true)

-- A thread that loads neither before nor after its step.
keep-HasOneLoader :
    (e d : Evaluator) (f : ℕ → Local) (i : ℕ) (l : Local)
    → HasOneLoader e f
    → is_loading (f i) ≡ is_loading l
    → d.reloading ≡ e.reloading
    → HasOneLoader d (set f i l)
keep-HasOneLoader e d f i l h same flag = record {
  unique = λ j k a b. h.unique j k (before j a) (before k b);
  flagged = λ j a. ground (arith, h.flagged j (before j a));
  loader = λ r. let (j, a) = h.loader (ground arith) in (j, ground arith);
}
  where
    before : (j : ℕ) → is_loading (set f i l j) ≡ true → is_loading (f j) ≡ true
    before j a = ground (arith, ==_iff i j)

begin-HasOneLoader :
    (e d : Evaluator) (f : ℕ → Local) (i : ℕ) (l : Local)
    → HasOneLoader e f
    → e.reloading ≡ false
    → is_loading l ≡ true
    → d.reloading ≡ true
    → HasOneLoader d (set f i l)
begin-HasOneLoader e d f i l h free loads flag = record {
  unique = λ j k a b. sym (only j a) ∙ only k b;
  flagged = λ j a. flag;
  loader = λ r. (i, ground arith);
}
  where
    only : (j : ℕ) → is_loading (set f i l j) ≡ true → i ≡ j
    only j a = ground (arith, ==_iff i j, h.flagged j)

end-HasOneLoader :
    (e d : Evaluator) (f : ℕ → Local) (i : ℕ) (l : Local)
    → HasOneLoader e f
    → is_loading (f i) ≡ true
    → is_loading l ≡ false
    → d.reloading ≡ false
    → HasOneLoader d (set f i l)
end-HasOneLoader e d f i l h loads ends flag = record {
  unique = λ j k a b. absurd (none_left j a);
  flagged = λ j a. absurd (none_left j a);
  loader = λ r. absurd (ground arith);
}
  where
    none_left : (j : ℕ) → ¬ (is_loading (set f i l j) ≡ true)
    none_left j a = ground (arith, ==_iff i j, h.unique i j)

-- What each critical section does to the flag.
kick-flag :
    (e : Evaluator) (now : ℕ)
    → ((kick_reload_if_stale e now).1 ≡ false → (kick_reload_if_stale e now).0 ≡ e)
      × ((kick_reload_if_stale e now).1 ≡ true
          → (e.reloading ≡ false) × ((kick_reload_if_stale e now).0.reloading ≡ true))
unfolding kick_reload_if_stale
kick-flag e now = (λ h. ground arith, λ h. ground arith)

ensure-flag :
    (e : Evaluator) (now : ℕ)
    → ((ensure_loaded e now).1 ≡ ready → (ensure_loaded e now).0 ≡ e)
      × ((ensure_loaded e now).1 ≡ wait → (ensure_loaded e now).0 ≡ e)
      × ((ensure_loaded e now).1 ≡ reload
          → (e.reloading ≡ false) × ((ensure_loaded e now).0.reloading ≡ true))
      × ((ensure_loaded e now).1 ≡ load
          → (e.reloading ≡ false) × ((ensure_loaded e now).0.reloading ≡ true))
unfolding ensure_loaded
ensure-flag e now = (λ h. ground arith, λ h. ground arith, λ h. ground arith, λ h. ground arith)

swap-flag : (e : Evaluator) (now : ℕ) (script : Bytes) → (swap e now script).reloading ≡ e.reloading
unfolding swap
swap-flag e now script = ground arith

-- Every step keeps at most one load under way, and the flag exactly while there is one.
Step-HasOneLoader :
    {Answers : Answering} {s t : System}
    → Step Answers s t
    → HasOneLoader s.shared s.threads
    → HasOneLoader t.shared t.threads
unfolding finish_load fail_reload close look_up remember
Step-HasOneLoader (Step.request i u h at _ p) o =
    rw p (keep-HasOneLoader _ _ _ i (start u h) o (ap is_loading at) refl)
Step-HasOneLoader (Step.closing p) o =
    rw p (record { unique = o.unique; flagged = o.flagged; loader = o.loader })
Step-HasOneLoader (Step.first_hit i now u h r at _ p) o =
    rw p (keep-HasOneLoader _ _ _ i (kicking r) o (ap is_loading at) refl)
Step-HasOneLoader (Step.first_miss i now u h at _ p) o =
    rw p (keep-HasOneLoader _ _ _ i (ensuring u h) o (ap is_loading at) refl)
Step-HasOneLoader {s = s} (Step.kick i now r at no_kick p) o =
    rw (p, (kick-flag s.shared now).0 no_kick)
      (keep-HasOneLoader _ _ _ i (done r) o (ap is_loading at) refl)
Step-HasOneLoader {s = s} (Step.kick_reload i now b r at free kicked p) o =
    let (before, after) = (kick-flag s.shared now).1 kicked in
    rw p (
      begin-HasOneLoader s.shared _ _ b reloading
        (keep-HasOneLoader _ s.shared _ i (done r) o (ap is_loading at) refl) before refl after)
Step-HasOneLoader {s = s} (Step.ensure_ready i now u h at e p) o =
    rw (p, (ensure-flag s.shared now).0 e)
      (keep-HasOneLoader _ _ _ i (looking u h) o (ap is_loading at) refl)
Step-HasOneLoader {s = s} (Step.ensure_wait i now u h at e p) o =
    rw (p, (ensure-flag s.shared now).1 e)
      (keep-HasOneLoader _ _ _ i (ensuring u h) o (ap is_loading at) refl)
Step-HasOneLoader {s = s} (Step.ensure_reload i now b u h at free e p) o =
    let (before, after) = (ensure-flag s.shared now).2 e in
    rw p (
      begin-HasOneLoader s.shared _ _ b reloading
        (keep-HasOneLoader _ s.shared _ i (looking u h) o (ap is_loading at) refl) before refl
        after)
Step-HasOneLoader {s = s} (Step.ensure_load i now u h at e p) o =
    let (before, after) = (ensure-flag s.shared now).3 e in
    rw p (begin-HasOneLoader s.shared _ _ i (fetching u h) o before refl after)
Step-HasOneLoader {s = s} (Step.load_ok i now u h script at p) o =
    rw p (
      keep-HasOneLoader _ _ _ i (finishing u h) o (ap is_loading at)
        (swap-flag s.shared now script))
Step-HasOneLoader (Step.load_error i u h at p) o =
    rw p (keep-HasOneLoader _ _ _ i (finishing u h) o (ap is_loading at) refl)
Step-HasOneLoader (Step.load_end i u h at p) o =
    rw p (end-HasOneLoader _ _ _ i (looking u h) o (ap is_loading at) refl refl)
Step-HasOneLoader {s = s} (Step.reload_ok i now script at p) o =
    rw p (keep-HasOneLoader _ _ _ i ending o (ap is_loading at) (swap-flag s.shared now script))
Step-HasOneLoader (Step.reload_end i at p) o =
    rw p (end-HasOneLoader _ _ _ i over o (ap is_loading at) refl refl)
Step-HasOneLoader (Step.reload_error i now at p) o =
    rw p (end-HasOneLoader _ _ _ i over o (ap is_loading at) refl refl)
Step-HasOneLoader (Step.second_hit i now u h r at _ p) o =
    rw p (keep-HasOneLoader _ _ _ i (done r) o (ap is_loading at) refl)
Step-HasOneLoader (Step.second_miss i now u h at _ p) o =
    rw p (keep-HasOneLoader _ _ _ i (choosing u h) o (ap is_loading at) refl)
Step-HasOneLoader (Step.no_pool i u h at _ p) o =
    rw p (keep-HasOneLoader _ _ _ i (done (text "DIRECT")) o (ap is_loading at) refl)
Step-HasOneLoader (Step.take_pool i u h q at _ p) o =
    rw p (keep-HasOneLoader _ _ _ i (running u h q) o (ap is_loading at) refl)
Step-HasOneLoader (Step.answer i now u h q raw at _ p) o =
    rw p (keep-HasOneLoader _ _ _ i (done _) o (ap is_loading at) refl)
Step-HasOneLoader (Step.no_answer i u h q at p) o =
    rw p (keep-HasOneLoader _ _ _ i (done (text "DIRECT")) o (ap is_loading at) refl)

-- In every state that requests, reloads and `Close` can reach, at most one thread is loading the
-- PAC file, the flag `reloading` is set while it does, and whenever the flag is set some thread is
-- loading, with the clearing of the flag still before it.
pub Reach-HasOneLoader :
    {Answers : Answering} (reload_interval : ℕ) {s : System}
    → Reach Answers (initial reload_interval) s
    → HasOneLoader s.shared s.threads
unfolding initial new
Reach-HasOneLoader _ here = record {
  unique = λ i j a b. absurd (cc a);
  flagged = λ i a. absurd (cc a);
  loader = λ a. absurd (cc a);
}
Reach-HasOneLoader n (next r x) = Step-HasOneLoader x (Reach-HasOneLoader n r)
