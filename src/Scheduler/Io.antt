-- ===== src/Scheduler/Io.antt =====
-- `iodine_scheduler_write_async`, `iodine_scheduler_write` and `iodine_scheduler_read` of
-- ext/iodine/scheduler.c. The system calls behind `fio_read_once` and `fio_write_once` are
-- arguments: they give an error number, or what they moved.
use iodine.Base.{
  ℕ, ◌+◌, ◌-◌, Bool, List, [], ◌∷◌, ◌++◌, ◌||◌, ltb, ◌==◌, if◌then◌else◌, length, take, drop,
}

abbrev pub io_max_read : ℕ
io_max_read = 65536

-- `rb_fiber_scheduler_io_result`: bytes moved, or an error number.
pub data IoResult : Type 0 where
  moved : ℕ → IoResult
  failed : ℕ → IoResult

abbrev pub einval : ℕ
einval = 22

pub data Syscall (A : Type 0) : Type 0 where
  done : A → Syscall A
  errno : ℕ → Syscall A

-- offset > buffer_length || length > buffer_length - offset, on `size_t`
abbrev pub out_of_bounds : ℕ → ℕ → ℕ → Bool
out_of_bounds size count offset = ltb size offset || ltb (size - offset) count

abbrev pub slice : ℕ → ℕ → List ℕ → List ℕ
slice offset count buffer = take count (drop offset buffer)

-- What is queued on the descriptor, and the result; `write_async` gives no error but EINVAL.
unfoldable pub write_async : List ℕ → ℕ → ℕ → List (List ℕ) → List (List ℕ) × IoResult
write_async buffer count offset queued =
    if out_of_bounds (length buffer) count offset
    then (queued, failed einval)
    else if count == 0
    then (queued, moved count)
    else (queued ++ slice offset count buffer ∷ [], moved count)

-- The bytes that `fio_write_once` is handed decide its answer.
unfoldable pub write : (List ℕ → Syscall ℕ) → List ℕ → ℕ → ℕ → IoResult
write write_once buffer count offset =
    if out_of_bounds (length buffer) count offset
    then failed einval
    else if count == 0
    then moved 0
    else elim (write_once (slice offset count buffer)) [ done n ↦ moved n | errno e ↦ failed e ]

-- The two branches of the `#if` on RUBY_FIBER_SCHEDULER_VERSION.
abbrev pub clamp : ℕ → ℕ
clamp n = if ltb io_max_read n then io_max_read else n

unfoldable pub read_length : Bool → ℕ → ℕ → ℕ → ℕ
read_length version_4 size count offset =
    if version_4 then clamp count else if count == 0 then clamp (size - offset) else count

-- The bytes that arrive are written over the buffer at the offset.
abbrev pub overwrite : ℕ → List ℕ → List ℕ → List ℕ
overwrite offset bytes buffer = take offset buffer ++ (bytes ++ drop (offset + length bytes) buffer)

unfoldable pub read : Bool → (ℕ → Syscall (List ℕ)) → List ℕ → ℕ → ℕ → List ℕ × IoResult
unfolding read_length
read version_4 read_once buffer count offset =
    let n = read_length version_4 (length buffer) count offset in
    if out_of_bounds (length buffer) count offset
    then (buffer, failed einval)
    else if n == 0
    then (buffer, moved 0)
    else elim (read_once n) [
      | done bytes ↦ (overwrite offset bytes buffer, moved (length bytes))
      | errno e ↦ (buffer, failed e)
    ]
