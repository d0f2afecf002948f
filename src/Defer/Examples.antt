-- ===== src/Defer/Examples.antt =====
-- A timer of ext/iodine/iodine_defer.c that fires twice.
use iodine.Base.{arith, ℕ, ◌≡◌, refl, List, [], ◌∷◌, Option, some, none}
use iodine.Ruby.{object}
use iodine.Fio.Table.{assoc_table}
use iodine.Store.{empty_storage, refs}
use iodine.Store.Counts.{run, refs-empty_storage}
use iodine.Defer.{Tasks, Action, runs_every, fixnum, fires, no_tasks, step, Reach, start, next}
use iodine.Defer.Balance.{refs-tasks}

abbrev or_else : Tasks → Option Tasks → Tasks
or_else t none = t
or_else t (some u) = u

abbrev after : List Action → Tasks → Tasks
after [] t = t
after (a ∷ actions) t = after actions (or_else t (step a t))

abbrev fired_once : Tasks
fired_once = after (runs_every (fixnum 100) (fixnum 2) (object 7) ∷ fires 0 ∷ []) no_tasks

fired_once-Reach : Reach fired_once
unfolding step no_tasks
fired_once-Reach =
    next (fires 0) (next (runs_every (fixnum 100) (fixnum 2) (object 7)) start refl) refl

refs-tasks_example :
    refs
      (assoc_table ℕ)
      (run (assoc_table ℕ) (empty_storage (assoc_table ℕ)) fired_once.calls)
      (object 7)
    ≡ 1
unfolding step no_tasks
refs-tasks_example =
    refs-tasks (assoc_table ℕ) fired_once (object 7) fired_once-Reach
      (λ v. ground (arith, refs-empty_storage (assoc_table ℕ) v))
