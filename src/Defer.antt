-- ===== src/Defer.antt =====
-- The tasks of ext/iodine/iodine_defer.c: blocks that run once, on a timer, or when the state of
-- the server changes. The calls of the storage are kept in their order. What facil.io has been
-- given is listed; it runs a timer as often as it was told, for ever if that is 0, and then gives
-- its block back, and it refuses a timer without time and repetitions.
pub mod Balance
mod Examples
use iodine.Base.{
  ℕ, zero, suc, ◌+◌, ◌≡◌, Bool, true, false, ◌&&◌, List, [], ◌∷◌, ◌++◌, Option, none, some, ◌==◌,
  if◌then◌else◌, get_elem?, set,
}
use iodine.Ruby.{Value}
use iodine.Store.Counts.{Call, add, drop}

pub data State : Type 0 where
  pre_start before_fork after_fork enter_child enter_master on_start on_parent_crush : State
  on_child_crush start_shutdown on_finish : State

-- `refused` are the blocks of timers that facil.io did not take.
pub record Tasks : Type 0 where
  pub calls : List Call
  pub once : List Value
  pub timers : List (Value × ℕ)
  pub states : List (State × Value)
  pub refused : List Value
  pub called : List Value

pub data Reply : Type 0 where
  block : Value → Reply
  nil_reply : Reply
  type_error : Reply

-- What Ruby gives for a number of milliseconds.
pub data Number : Type 0 where
  nil_number no_number : Number
  fixnum : ℕ → Number

unfoldable pub no_tasks : Tasks
no_tasks = record { calls = []; once = []; timers = []; states = []; refused = []; called = [] }

-- iodine_defer_run
unfoldable pub run : Value → Tasks → Tasks × Reply
run b t = (record t { calls = t.calls ++ add b ∷ []; once = t.once ++ b ∷ [] }, block b)

-- iodine_defer_performe_once, on the oldest task
unfoldable pub perform_once : Tasks → Option Tasks
perform_once t = elim t.once [
  | [] ↦ none
  | b ∷ rest ↦
      some (record t { calls = t.calls ++ drop b ∷ []; once = rest; called = t.called ++ b ∷ [] })
]

-- IodineStore.add(block), and the answer of `fio_run_every`
unfoldable pub add_timer : ℕ → ℕ → Value → Tasks → Tasks × Reply
add_timer milli repeat b t =
    let stored = record t { calls = t.calls ++ add b ∷ [] } in
    if milli == 0 && repeat == 0
    then (record stored { refused = t.refused ++ b ∷ [] }, nil_reply)
    else (record stored { timers = t.timers ++ (b, repeat) ∷ [] }, block b)

unfoldable pub run_after : Number → Value → Tasks → Tasks × Reply
unfolding run add_timer
run_after nil_number b t = run b t
run_after no_number b t = (t, type_error)
run_after (fixnum milli) b t = if milli == 0 then run b t else add_timer milli 1 b t

unfoldable pub run_every : Number → Number → Value → Tasks → Tasks × Reply
unfolding add_timer
run_every (fixnum milli) nil_number b t = add_timer milli 0 b t
run_every (fixnum milli) (fixnum repeat) b t = add_timer milli repeat b t
run_every milli repeat b t = (t, type_error)

abbrev pub remove_at {ℓ} : {A : Type ℓ} → List A → ℕ → List A
remove_at [] i = []
remove_at (x ∷ xs) zero = xs
remove_at (x ∷ xs) (suc i) = x ∷ remove_at xs i

-- iodine_defer_run_timer, and `IodineStore.remove` at the end of the timer
abbrev pub fire : ℕ → Value → ℕ → Tasks → Tasks
fire i b zero t = record t { called = t.called ++ b ∷ [] }
fire i b (suc zero) t = record t {
  calls = t.calls ++ drop b ∷ [];
  timers = remove_at t.timers i;
  called = t.called ++ b ∷ [];
}
fire i b (suc (suc n)) t = record t {
  timers = set t.timers i (b, suc n);
  called = t.called ++ b ∷ [];
}

unfoldable pub run_timer : ℕ → Tasks → Option Tasks
run_timer i t = elim (get_elem? t.timers i) [ none ↦ none | some e ↦ some (fire i e.0 e.1 t) ]

-- An unknown event takes the block out of the storage again.
unfoldable pub on_state : Option State → Value → Tasks → Tasks × Reply
on_state (some s) b t =
    (record t { calls = t.calls ++ add b ∷ []; states = t.states ++ (s, b) ∷ [] }, block b)
on_state none b t = (record t { calls = t.calls ++ add b ∷ drop b ∷ [] }, type_error)

pub data Action : Type 0 where
  runs : Value → Action
  runs_after : Number → Value → Action
  runs_every : Number → Number → Value → Action
  sets_state : Option State → Value → Action
  performs : Action
  fires : ℕ → Action

unfoldable pub step : Action → Tasks → Option Tasks
unfolding run run_after run_every on_state perform_once run_timer
step (runs b) t = some (run b t).0
step (runs_after milli b) t = some (run_after milli b t).0
step (runs_every milli repeat b) t = some (run_every milli repeat b t).0
step (sets_state s b) t = some (on_state s b t).0
step performs t = perform_once t
step (fires i) t = run_timer i t

pub data Reach : Tasks → Type 0 where
  start : Reach no_tasks
  next : {t u : Tasks} (a : Action) → Reach t → step a t ≡ some u → Reach u
