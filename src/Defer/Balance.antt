-- ===== src/Defer/Balance.antt =====
-- That the tasks of ext/iodine/iodine_defer.c keep their blocks in the storage exactly as long as
-- they need them.
use iodine.Base.{
  ℕ, zero, suc, ◌+◌, ◌-◌, ◌≡◌, refl, List, [], ◌∷◌, ◌++◌, Option, none, some, arith, get_elem?, set,
  length, Option-cases, inl, inr,
}
use iodine.Ruby.{Value, one_of}
use iodine.Fio.Table.{Table}
use iodine.Store.{empty_storage, refs}
use iodine.Store.Counts.{
  Call, add, drop, holders, HasRoom, run as run_calls, refs-run, refs-empty_storage,
}
use iodine.Defer.{
  State, Tasks, nil_number, no_number, fixnum, no_tasks, run, perform_once, add_timer, run_after,
  run_every, remove_at, fire, run_timer, on_state, Action, runs, runs_after, runs_every, sets_state,
  performs, fires, step, Reach, start, next,
}

-- How often a block is in a list of tasks.
abbrev pub among {ℓ} : {A : Type ℓ} → (A → Value) → Value → List A → ℕ
among f w [] = 0
among f w (x ∷ xs) = one_of (f x) w + among f w xs

abbrev pub block_of : Value → Value
block_of b = b

abbrev pub timer_block : Value × ℕ → Value
timer_block e = e.0

abbrev pub state_block : State × Value → Value
state_block e = e.1

-- The blocks that a task may still run, and those of refused timers.
abbrev pub waiting : Value → Tasks → ℕ
waiting w t =
    among block_of w t.once
    + among timer_block w t.timers
    + among state_block w t.states
    + among block_of w t.refused

module _ {A : Type 0} (f : A → Value) (w : Value) where
  among-append : (xs ys : List A) → among f w (xs ++ ys) ≡ among f w xs + among f w ys
  among-append [] ys = omega arith
  among-append (x ∷ xs) ys = omega (arith, among-append xs ys)

  among-remove_at :
      (xs : List A) (i : ℕ) (x : A)
      → get_elem? xs i ≡ some x
      → among f w (remove_at xs i) + one_of (f x) w ≡ among f w xs
  among-remove_at [] i x h = absurd (ground arith)
  among-remove_at (y ∷ xs) zero x h = ground arith
  among-remove_at (y ∷ xs) (suc i) x h = omega (arith, among-remove_at xs i x h)

  among-set :
      (xs : List A) (i : ℕ) (x y : A)
      → get_elem? xs i ≡ some x
      → f y ≡ f x
      → among f w (set xs i y) ≡ among f w xs
  among-set [] i x y h e = refl
  among-set (z ∷ xs) zero x y h e = ground arith
  among-set (z ∷ xs) (suc i) x y h e = omega (arith, among-set xs i x y h e)

holders-append :
    (xs ys : List Call) (w : Value) (n m : ℕ)
    → holders w n xs ≡ some m
    → holders w n (xs ++ ys) ≡ holders w m ys
unfolding holders
holders-append [] ys w n m h = ground arith
holders-append (add v ∷ xs) ys w n m h = holders-append xs ys w (n + one_of v w) m h
holders-append (drop v ∷ xs) ys w n m h = ground (arith, holders-append xs ys w (n - one_of v w) m)

-- The storage's calls are those of the tasks that wait.
abbrev Balanced : Value → Tasks → Type 0
Balanced w t = holders w 0 t.calls ≡ some (waiting w t)

added :
    (b w : Value) (calls : List Call) (n : ℕ)
    → holders w 0 calls ≡ some n
    → holders w 0 (calls ++ add b ∷ []) ≡ some (n + one_of b w)
unfolding holders
added b w calls n h = rw (holders-append calls (add b ∷ []) w 0 n h) refl

dropped :
    (b w : Value) (calls : List Call) (n : ℕ)
    → holders w 0 calls ≡ some (n + one_of b w)
    → holders w 0 (calls ++ drop b ∷ []) ≡ some n
unfolding holders
dropped b w calls n h =
    rw (holders-append calls (drop b ∷ []) w 0 (n + one_of b w) h) (ground arith)

run-Balanced : (b w : Value) (t : Tasks) → Balanced w t → Balanced w (run b t).0
unfolding run
run-Balanced b w t h =
    ground (arith, added b w t.calls (waiting w t) h, among-append block_of w t.once (b ∷ []))

add_timer-Balanced :
    (milli repeat : ℕ) (b w : Value) (t : Tasks)
    → Balanced w t
    → Balanced w (add_timer milli repeat b t).0
unfolding add_timer
add_timer-Balanced milli repeat b w t h = ground (
  arith,
  added b w t.calls (waiting w t) h,
  among-append timer_block w t.timers ((b, repeat) ∷ []),
  among-append block_of w t.refused (b ∷ []),
)

on_state-Balanced :
    (s : Option State) (b w : Value) (t : Tasks) → Balanced w t → Balanced w (on_state s b t).0
unfolding on_state holders
on_state-Balanced (some s) b w t h =
    ground
      (arith, added b w t.calls (waiting w t) h, among-append state_block w t.states ((s, b) ∷ []))
on_state-Balanced none b w t h =
    rw (holders-append t.calls (add b ∷ drop b ∷ []) w 0 (waiting w t) h) (ground arith)

perform_once-Balanced :
    (w : Value) (t u : Tasks) (bs : List Value)
    → t.once ≡ bs
    → perform_once t ≡ some u
    → Balanced w t
    → Balanced w u
unfolding perform_once
perform_once-Balanced w t u [] e r h = absurd (ground arith)
perform_once-Balanced w t u (b ∷ bs) e r h =
    let left =
      among block_of w bs
      + among timer_block w t.timers
      + among state_block w t.states
      + among block_of w t.refused in
    ground (arith, dropped b w t.calls left)

fire-Balanced :
    (i : ℕ) (b w : Value) (n : ℕ) (t : Tasks)
    → get_elem? t.timers i ≡ some (b, n)
    → Balanced w t
    → Balanced w (fire i b n t)
fire-Balanced i b w zero t g h = h
fire-Balanced i b w (suc zero) t g h =
    let left = waiting w (record t { timers = remove_at t.timers i }) in
    ground (arith, dropped b w t.calls left, among-remove_at timer_block w t.timers i (b, 1) g)
fire-Balanced i b w (suc (suc n)) t g h =
    ground (arith, among-set timer_block w t.timers i (b, suc (suc n)) (b, suc n) g refl)

step-Balanced :
    (a : Action) (w : Value) (t u : Tasks) → step a t ≡ some u → Balanced w t → Balanced w u
unfolding step run_after run_every run_timer
step-Balanced (runs b) w t u e h = ground (arith, run-Balanced b w t h)
step-Balanced (runs_after nil_number b) w t u e h = ground (arith, run-Balanced b w t h)
step-Balanced (runs_after no_number b) w t u e h = ground arith
step-Balanced (runs_after (fixnum m) b) w t u e h =
    ground (arith, run-Balanced b w t h, add_timer-Balanced m 1 b w t h)
step-Balanced (runs_every (fixnum m) nil_number b) w t u e h =
    ground (arith, add_timer-Balanced m 0 b w t h)
step-Balanced (runs_every (fixnum m) (fixnum r) b) w t u e h =
    ground (arith, add_timer-Balanced m r b w t h)
step-Balanced (runs_every (fixnum m) no_number b) w t u e h = ground arith
step-Balanced (runs_every nil_number r b) w t u e h = ground arith
step-Balanced (runs_every no_number r b) w t u e h = ground arith
step-Balanced (sets_state s b) w t u e h = ground (arith, on_state-Balanced s b w t h)
step-Balanced performs w t u e h = perform_once-Balanced w t u t.once refl e h
step-Balanced (fires i) w t u e h = elim (Option-cases (get_elem? t.timers i)) [
  | inl g ↦ absurd (ground arith)
  | inr (x, g) ↦ ground (arith, fire-Balanced i x.0 w x.1 t g h)
]

Reach-Balanced : (w : Value) {t : Tasks} → Reach t → Balanced w t
unfolding no_tasks holders
Reach-Balanced w start = refl
Reach-Balanced w (next {t} {u} a run_ e) = step-Balanced a w t u e (Reach-Balanced w run_)

-- Whatever tasks are set and performed, in any order, a storage with room for the counts holds
-- each block as often as a task may still run it, and once more for each of its timers that
-- facil.io refused: those stay.
pub refs-tasks :
    (T : Table ℕ) (t : Tasks) (w : Value)
    → Reach t
    → HasRoom T (empty_storage T) (length t.calls)
    → refs T (run_calls T (empty_storage T) t.calls) w ≡ waiting w t
refs-tasks T t w reached room =
    refs-run T t.calls (empty_storage T) w (waiting w t) room
      (rw (refs-empty_storage T w) (Reach-Balanced w reached))
