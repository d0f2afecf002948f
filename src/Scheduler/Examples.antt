-- ===== src/Scheduler/Examples.antt =====
-- Waits and transfers of ext/iodine/scheduler.c on concrete arguments.
use iodine.Base.{
  arith, ℕ, ◌+◌, ◌≡◌, refl, true, false, List, [], ◌∷◌, some, length, take, drop, length-take-le,
}
use iodine.Scheduler.Attach.{
  Flags, Watch, perform, noop, with_event, with_timeout, attach, react_all, react, on_close,
  on_data, ping, comes_back, task_lock, write_lock,
}
use iodine.Scheduler.Once.{resumed_once}
use iodine.Scheduler.Io.{Syscall, done, moved, failed, read}
use iodine.Scheduler.Transfer.{read_frame}

abbrev flags : Flags
flags = record { readable = 1; writable = 4 }

-- A wait for a readable descriptor.
abbrev waits : Watch
waits = record {
  protocol = record { on_data = perform; on_ready = noop; block = 9; fulfilled = false };
  freed = false;
  timeout = 5;
  deferred = 0;
  in_task = false;
  in_write = false;
  in_deferred = 0;
  overlaps = 0;
  resumed = [];
  removed = [];
}

-- A timeout comes while the block is called for an event.
abbrev over : Watch
over = record {
  protocol = record { on_data = perform; on_ready = noop; block = 9; fulfilled = true };
  freed = true;
  timeout = 5;
  deferred = 0;
  in_task = false;
  in_write = false;
  in_deferred = 0;
  overlaps = 1;
  resumed = with_event ∷ with_timeout ∷ [];
  removed = 9 ∷ [];
}

resumed_once_example : (length over.resumed ≡ 1 + over.overlaps) × (over.removed ≡ 9 ∷ [])
unfolding attach react_all react
resumed_once_example =
    resumed_once flags 1 9 (some 5) waits over
      (on_data ∷ ping ∷ comes_back write_lock ∷ comes_back task_lock ∷ on_data ∷ on_close ∷ []) refl
      refl refl

abbrev hello : List ℕ
hello = b'h' ∷ b'e' ∷ b'l' ∷ b'l' ∷ b'o' ∷ []

-- The descriptor has two bytes to read.
abbrev two_bytes : ℕ → Syscall (List ℕ)
two_bytes n = done (take n (b'a' ∷ b'b' ∷ []))

read_frame_example :
    let (after, result) = read true two_bytes hello 3 1 in
    (length after ≡ length hello)
    × (take 1 after ≡ take 1 hello)
    × ((e : ℕ) → result ≡ failed e → after ≡ hello)
    × ((n : ℕ) → result ≡ moved n → drop (1 + n) after ≡ drop (1 + n) hello)
read_frame_example =
    read_frame true two_bytes hello 3 1
      (λ n bytes e. ground (arith, length-take-le {A = ℕ} n (b'a' ∷ b'b' ∷ []))) (omega arith)
