-- ===== src/RackIo/Reading.antt =====
-- What `read` of ext/iodine/iodine_rack_io.c gives of a request's body.
use iodine.Base.{
  ℕ, zero, suc, ◌<◌, ◌≡◌, refl, ap, ◌∙◌, Bool, true, false, List, [], ◌∷◌, ◌++◌, Option, none, some,
  arith, length, drop, take-append-drop, length-drop, List-cases, inl, inr,
}
use iodine.Fio.Stream.{Stream}
use iodine.RackIo.{
  Length, no_length, not_a_number, negative, bytes, no_buffer, string, Result, nil_result, text,
  raised, Input, rio_read, answer, fill,
}

module _ (S : Stream) where
  open S use {Carrier, whole, rest, read, read_all, read_some, rest-read_all, rest-read_some}

  abbrev pub on : Carrier → Input S
  on s = record { io = some s }

  -- A `read` without a length gives all that is left, once: the next one gives an empty String, and
  -- one with a length gives nil.
  pub rio_read_all :
      (s : Carrier) (n : ℕ)
      → let r = rio_read S no_length no_buffer (on s) in
        (r.result ≡ text (rest s))
        × ((rio_read S no_length no_buffer r.after).result ≡ text [])
        × ((rio_read S (bytes (suc n)) no_buffer r.after).result ≡ nil_result)
  unfolding rio_read
  rio_read_all s n = (
    rw (read_all s) (answer_all (rest s)),
    rw (read_all (read s 0).1, rest-read_all s) refl,
    rw (read_some (read s 0).1 n, rest-read_all s) refl,
  )
    where
      answer_all : (xs : List ℕ) → answer S false xs ≡ text xs
      answer_all [] = refl
      answer_all (c ∷ cs) = refl

  filled :
      (ret_nil : Bool) (d old : List ℕ) (c : ℕ) (cs : List ℕ)
      → answer S ret_nil d ≡ text (c ∷ cs)
      → fill S (string old) d ≡ string (c ∷ cs)
  filled true [] old c cs e = absurd cc
  filled false [] old c cs e = absurd cc
  filled true (x ∷ d) old c cs e = cc
  filled false (x ∷ d) old c cs e = cc

  -- A buffer takes the bytes that are read, and what is read does not depend on it.
  pub rio_read-buffer :
      (s : Carrier) (len : Length) (old : List ℕ)
      → let r = rio_read S len (string old) (on s) in
        (r.result ≡ (rio_read S len no_buffer (on s)).result)
        × ((c : ℕ) (cs : List ℕ) → r.result ≡ text (c ∷ cs) → r.buffer ≡ string (c ∷ cs))
  unfolding rio_read
  rio_read-buffer s no_length old = (refl, filled false (read s 0).0 old)
  rio_read-buffer s not_a_number old = (refl, λ c cs e. absurd cc)
  rio_read-buffer s negative old = (refl, λ c cs e. absurd cc)
  rio_read-buffer s (bytes zero) old = (refl, λ c cs e. absurd cc)
  rio_read-buffer s (bytes (suc n)) old = (refl, filled true (read s (suc n)).0 old)

  abbrev add_chunk : Result → Option (List ℕ) → Option (List ℕ)
  add_chunk (text c) none = none
  add_chunk (text c) (some cs) = some (c ++ cs)
  add_chunk nil_result later = some []
  add_chunk (raised e) later = none

  -- A client that reads `n` bytes at a time until it gets nil.
  pub read_chunks : ℕ → ℕ → Input S → Option (List ℕ)
  unfolding rio_read
  read_chunks zero n i = none
  read_chunks (suc fuel) n i =
      let r = rio_read S (bytes n) no_buffer i in
      let later = read_chunks fuel n r.after in add_chunk r.result later

  -- Reading piece by piece ends, and gives all that is left.
  pub read_chunks_lem :
      (fuel n : ℕ) (s : Carrier)
      → length (rest s) < fuel
      → read_chunks fuel (suc n) (on s) ≡ some (rest s)
  unfolding read_chunks
  read_chunks_lem zero n s h = absurd (omega arith)
  read_chunks_lem (suc fuel) n s h = elim (List-cases (rest s)) [
    | inl e ↦ rw (read_some s n, e) refl
    | inr (c, cs, e) ↦
        let left = (read s (suc n)).1 in
        let left_rest : rest left ≡ drop n cs = rest-read_some s n ∙ ap (drop (suc n)) e in
        let shorter : length (rest left) < fuel =
          omega (arith, ap length left_rest, length-drop n cs, ap length e, h) in
        rw (read_some s n, e, read_chunks_lem fuel n left shorter, left_rest)
          (ap some (ap (◌∷◌ c) (take-append-drop n cs)))
  ]
