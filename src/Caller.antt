-- ===== src/Caller.antt =====
-- ext/iodine/iodine_caller.c: the flag of each thread that says whether it holds the interpreter's
-- lock, the GVL, with the threads that ext/iodine/iodine_defer.c starts.
mod Examples
use iodine.Base.{ℕ, suc, ◌≡◌, refl, ap, ◌∙◌, Bool, true, false, not, ◌&&◌, if◌then◌else◌, arith}

-- The thread: its flag, whether it does hold the lock, and the misuses so far: a call into Ruby
-- without the lock, a second taking of it, or a release of what is not held.
pub record Thread : Type 0 where
  pub flag : Bool
  pub holds : Bool
  pub misuses : ℕ

-- What runs in a thread: calls into Ruby, and functions under `enterGVL` or `leaveGVL`.
mutual
  pub data Code : Type 0 where
    ruby : Code
    enter : Codes → Code
    leave : Codes → Code

  pub data Codes : Type 0 where
    done : Codes
    then_ : Code → Codes → Codes

-- rb_thread_call_with_gvl and rb_thread_call_without_gvl, before the function and after it
abbrev pub take_lock : Thread → Thread
take_lock t = if t.holds then record t { misuses = suc t.misuses } else record t { holds = true }

abbrev pub release_lock : Thread → Thread
release_lock t =
    if t.holds then record t { holds = false } else record t { misuses = suc t.misuses }

abbrev pub call_ruby : Thread → Thread
call_ruby t = if t.holds then t else record t { misuses = suc t.misuses }

unfoldable mutual
  pub run : Code → Thread → Thread
  run ruby t = call_ruby t
  run (enter body) t =
      let inside = run_all body t in
      let after = run_all body (take_lock (record t { flag = true })) in
      if t.flag then inside else record (release_lock after) { flag = false }
  run (leave body) t =
      let inside = run_all body t in
      let after = run_all body (release_lock (record t { flag = false })) in
      if t.flag then record (take_lock after) { flag = true } else inside

  pub run_all : Codes → Thread → Thread
  run_all done t = t
  run_all (then_ c cs) t = run_all cs (run c t)

-- Every call into Ruby stands where the lock is held, for a thread that holds it as told.
mutual
  pub is_placed : Bool → Code → Bool
  is_placed held ruby = held
  is_placed held (enter body) = all_placed true body
  is_placed held (leave body) = all_placed false body

  pub all_placed : Bool → Codes → Bool
  all_placed held done = true
  all_placed held (then_ c cs) = is_placed held c && all_placed held cs

mutual
  unfolding run is_placed

  kept :
      (c : Code) (b : Bool) (n : ℕ)
      → is_placed b c ≡ true
      → run c (record { flag = b; holds = b; misuses = n })
        ≡ record { flag = b; holds = b; misuses = n }
  kept ruby true n h = refl
  kept ruby false n h = absurd cc
  kept (enter body) true n h = all_kept body true n h
  kept (enter body) false n h = rw (all_kept body true n h) refl
  kept (leave body) true n h = rw (all_kept body false n h) refl
  kept (leave body) false n h = all_kept body false n h

  all_kept :
      (cs : Codes) (b : Bool) (n : ℕ)
      → all_placed b cs ≡ true
      → run_all cs (record { flag = b; holds = b; misuses = n })
        ≡ record { flag = b; holds = b; misuses = n }
  all_kept done b n h = refl
  all_kept (then_ c cs) b n h = rw (kept c b n (ground arith)) (all_kept cs b n (ground arith))

-- A thread whose flag is right runs any nesting of `enterGVL` and `leaveGVL` without misusing the
-- lock, and comes out of it as it went in, if no call into Ruby is made right under a `leaveGVL`.
pub run-kept : (c : Code) (t : Thread) → t.flag ≡ t.holds → is_placed t.holds c ≡ true → run c t ≡ t
run-kept c t same placed = rw same (kept c t.holds t.misuses placed)

-- `IodineCaller.call`, from wherever it is called
abbrev pub call : Code
call = enter (then_ ruby done)

-- defer_thread_inGVL and defer_thread_start: the flag is set, the lock released, the flag cleared.
unfoldable pub start_thread : Codes → Thread
unfolding run
start_thread body =
    let new : Thread = record { flag = true; holds = true; misuses = 0 } in
    run_all body (record (release_lock new) { flag = false })

-- A new thread starts outside of the lock with the right flag, so that its function may call into
-- Ruby through `IodineCaller` at any depth.
pub start_thread-kept :
    (body : Codes)
    → all_placed false body ≡ true
    → start_thread body ≡ record { flag = false; holds = false; misuses = 0 }
unfolding start_thread
start_thread-kept body h = all_kept body false 0 h
