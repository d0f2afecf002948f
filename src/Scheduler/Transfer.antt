-- ===== src/Scheduler/Transfer.antt =====
-- That the transfers of ext/iodine/scheduler.c stay inside their buffers.
use iodine.Base.{
  ℕ, zero, suc, ◌+◌, ◌≤◌, ◌<◌, ◌≡◌, refl, ap, subst, append_assoc, ◌↔◌, ◌⊎◌, Bool, true, false,
  List, [], ◌∷◌, ◌++◌, arith, ◌==◌, length, length-append, length-drop, take, drop, Bool-cases, inl,
  inr,
}
use iodine.Scheduler.Io.{
  IoResult, moved, failed, einval, Syscall, done, errno, slice, write_async, write, read, overwrite,
  read_length, io_max_read, out_of_bounds,
}

length-take : (n : ℕ) (xs : List ℕ) → n ≤ length xs → length (take n xs) ≡ n
length-take zero xs h = refl
length-take (suc n) [] h = omega arith
length-take (suc n) (x ∷ xs) h = omega (arith, length-take n xs)

length-slice :
    (offset count : ℕ) (buffer : List ℕ)
    → offset + count ≤ length buffer
    → length (slice offset count buffer) ≡ count
length-slice offset count buffer h =
    length-take count (drop offset buffer) (omega (arith, length-drop offset buffer))

-- A non-empty part of the buffer is queued whole, its bytes copied at the time of the call; what
-- does not lie in the buffer is refused and nothing is queued.
pub write_async_lem :
    (buffer : List ℕ) (count offset : ℕ) (queued : List (List ℕ))
    → 0 < count
    → ((offset + count ≤ length buffer)
        → (write_async buffer count offset queued
            ≡ (queued ++ slice offset count buffer ∷ [], moved count))
          × (length (slice offset count buffer) ≡ count))
      × ((length buffer < offset + count)
          → write_async buffer count offset queued ≡ (queued, failed einval))
unfolding write_async
write_async_lem buffer count offset queued h =
    ((λ fits. (ground arith, length-slice offset count buffer fits)), λ over. ground arith)

-- A write is refused exactly when its region does not lie in the buffer, also for numbers near
-- the end of `size_t`, where a sum would wrap.
pub write-failed_iff :
    (buffer : List ℕ) (count offset : ℕ)
    → ((write_once : List ℕ → Syscall ℕ) → write write_once buffer count offset ≡ failed einval)
      ↔ (length buffer < offset + count)
unfolding write
write-failed_iff buffer count offset =
    ((λ all. ground (arith, all (λ _. done 0))), λ over write_once. ground arith)

-- Overwriting inside of the buffer keeps its length and all bytes outside of the region.
pub length-overwrite :
    (offset : ℕ) (bytes buffer : List ℕ)
    → offset + length bytes ≤ length buffer
    → length (overwrite offset bytes buffer) ≡ length buffer
length-overwrite offset bytes buffer h = omega (
  arith,
  length-append (take offset buffer) (bytes ++ drop (offset + length bytes) buffer),
  length-append bytes (drop (offset + length bytes) buffer),
  length-take offset buffer (omega arith),
  length-drop (offset + length bytes) buffer,
)

take-append : (n : ℕ) (xs ys : List ℕ) → length xs ≡ n → take n (xs ++ ys) ≡ xs
take-append zero [] ys h = refl
take-append zero (x ∷ xs) ys h = absurd (omega arith)
take-append (suc n) [] ys h = absurd (omega arith)
take-append (suc n) (x ∷ xs) ys h = ap (◌∷◌ x) (take-append n xs ys (omega arith))

drop-append : (n : ℕ) (xs ys : List ℕ) → length xs ≡ n → drop n (xs ++ ys) ≡ ys
drop-append zero [] ys h = refl
drop-append zero (x ∷ xs) ys h = absurd (omega arith)
drop-append (suc n) [] ys h = absurd (omega arith)
drop-append (suc n) (x ∷ xs) ys h = drop-append n xs ys (omega arith)

-- How many bytes a read asks for: inside of the buffer, and with version 4 of the interface no
-- more than the limit.
read_length_bounds :
    (version_4 : Bool) (size count offset : ℕ)
    → offset + count ≤ size
    → (offset + read_length version_4 size count offset ≤ size)
      × (version_4 ≡ true → read_length version_4 size count offset ≤ io_max_read)
unfolding read_length
read_length_bounds true size count offset h = (ground arith, λ _. ground arith)
read_length_bounds false size count offset h = (ground arith, λ e. cc)

drop-overwrite :
    (offset : ℕ) (bytes buffer : List ℕ)
    → offset ≤ length buffer
    → drop (offset + length bytes) (overwrite offset bytes buffer)
      ≡ drop (offset + length bytes) buffer
drop-overwrite offset bytes buffer h = rw (← append_assoc) (
    drop-append (offset + length bytes) (take offset buffer ++ bytes) _
      (omega (arith, length-append (take offset buffer) bytes, length-take offset buffer h)))

-- What a read comes to: the buffer as it was, or bytes that fit written at the offset.
abbrev pub Reads : ℕ → List ℕ → List ℕ × IoResult → Type 0
Reads offset buffer r =
    (r.0 ≡ buffer)
    ⊎ ((bytes : List ℕ) × (offset + length bytes ≤ length buffer)
        × (r ≡ (overwrite offset bytes buffer, moved (length bytes))))

read-Reads :
    (version_4 : Bool) (read_once : ℕ → Syscall (List ℕ)) (buffer : List ℕ) (count offset : ℕ)
    (n : ℕ) (answer : Syscall (List ℕ))
    → ((bytes : List ℕ) → answer ≡ done bytes → length bytes ≤ n)
    → read_length version_4 (length buffer) count offset ≡ n
    → read_once n ≡ answer
    → Reads offset buffer (read version_4 read_once buffer count offset)
unfolding read
read-Reads version_4 read_once buffer count offset n (errno e) few l a = inl (ground arith)
read-Reads version_4 read_once buffer count offset n (done bytes) few l a =
    elim (Bool-cases (out_of_bounds (length buffer) count offset)) [
      | inl out ↦ inl (rw out)
      | inr fits ↦ elim (Bool-cases (n == 0)) [
        | inl z ↦ inl (ground arith)
        | inr nz ↦
            let bound = read_length_bounds version_4 (length buffer) count offset (ground arith) in
            inr (bytes, ground (arith, few bytes refl, bound.0), ground arith)
      ]
    ]

-- A read keeps the length of the buffer and every byte before the offset, and a read that fails
-- keeps the whole buffer; if it moved `n` bytes, every byte behind the `n` at the offset is kept.
-- The system call is taken to give no more bytes than it is asked for.
pub read_frame :
    (version_4 : Bool) (read_once : ℕ → Syscall (List ℕ)) (buffer : List ℕ) (count offset : ℕ)
    → ((n : ℕ) (bytes : List ℕ) → read_once n ≡ done bytes → length bytes ≤ n)
    → offset ≤ length buffer
    → let (after, result) = read version_4 read_once buffer count offset in
      (length after ≡ length buffer)
      × (take offset after ≡ take offset buffer)
      × ((e : ℕ) → result ≡ failed e → after ≡ buffer)
      × ((n : ℕ) → result ≡ moved n → drop (offset + n) after ≡ drop (offset + n) buffer)
read_frame version_4 read_once buffer count offset few h =
    elim (read-Reads version_4 read_once buffer count offset _ _ (few _) refl refl) [
      | inl e ↦ rw e (refl, refl, λ e r. refl, λ n r. refl)
      | inr (bytes, fits, e) ↦
          let short = length-take offset buffer h in
          let tail = drop (offset + length bytes) buffer in
          rw e (
            length-overwrite offset bytes buffer fits,
            take-append offset (take offset buffer) (bytes ++ tail) short,
            λ e r. cc,
            λ n r.
                subst
                  (λ k.
                    drop (offset + k) (overwrite offset bytes buffer) ≡ drop (offset + k) buffer)
                  (ground arith) (drop-overwrite offset bytes buffer h),
          )
    ]
