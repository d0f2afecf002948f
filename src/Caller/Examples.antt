-- ===== src/Caller/Examples.antt =====
-- Nested calls in threads of ext/iodine/iodine_caller.c.
use iodine.Base.{◌≡◌, refl, false}
use iodine.Caller.{Thread, Code, enter, leave, done, then_, run, call, run-kept, is_placed}

-- A call, and a call in a function that is run without the lock.
abbrev nested : Code
nested = enter (then_ call (then_ (leave (then_ call done)) done))

abbrev outside : Thread
outside = record { flag = false; holds = false; misuses = 0 }

run-kept_example : run nested outside ≡ outside
unfolding is_placed
run-kept_example = run-kept nested outside refl refl
