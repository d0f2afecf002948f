-- ===== src/RackIo.antt =====
-- ext/iodine/iodine_rack_io.c: the `rack.input` of a request, and its hijacking.
pub mod Reading
pub mod Lines
pub mod Hijack
mod Examples
use iodine.Base.{
  ℕ, zero, suc, ◌+◌, Bool, true, false, List, [], ◌∷◌, ◌++◌, Option, none, some, ◌==◌,
  if◌then◌else◌,
}
use iodine.Ruby.{Value, qnil, qfalse}
use iodine.Fio.Stream.{Stream}

-- The length of `read`: missing or nil, no Integer, negative, or a number.
pub data Length : Type 0 where
  no_length not_a_number negative : Length
  bytes : ℕ → Length

-- The buffer of `read`.
pub data Buffer : Type 0 where
  no_buffer not_a_string : Buffer
  string : List ℕ → Buffer

pub data Error : Type 0 where
  type_error range_error : Error

pub data Result : Type 0 where
  nil_result : Result
  text : List ℕ → Result
  raised : Error → Result

module _ (S : Stream) where
  open S use {Carrier, rewind, read, gets}

  -- What the instance variable holds: the body, or a number that is no body.
  pub record Input : Type 0 where
    pub io : Option Carrier

  pub record Read : Type 0 where
    pub result : Result
    pub buffer : Buffer
    pub after : Input

  -- rio_rewind; true is the answer 0, false is nil.
  unfoldable pub rio_rewind : Input → Input × Bool
  rio_rewind i = elim i.io [ none ↦ (i, false) | some s ↦ (record { io = some (rewind s) }, true) ]

  abbrev pub line_or_nil : List ℕ → Result
  line_or_nil [] = nil_result
  line_or_nil (c ∷ cs) = text (c ∷ cs)

  unfoldable pub rio_gets : Input → Result × Input
  rio_gets i = elim i.io [
    | none ↦ (nil_result, i)
    | some s ↦ (line_or_nil (gets s).0, record { io = some (gets s).1 })
  ]

  -- The copy into the buffer, if there is one; nothing is copied at the end of the input.
  abbrev pub fill : Buffer → List ℕ → Buffer
  fill (string old) (c ∷ cs) = string (c ∷ cs)
  fill buffer data_ = buffer

  abbrev pub answer : Bool → List ℕ → Result
  answer ret_nil (c ∷ cs) = text (c ∷ cs)
  answer ret_nil [] = if ret_nil then nil_result else text []

  abbrev pub read_into : Bool → ℕ → Buffer → Carrier → Read
  read_into ret_nil n buffer s = record {
    result = answer ret_nil (read s n).0;
    buffer = fill buffer (read s n).0;
    after = record { io = some (read s n).1 };
  }

  abbrev pub stays : Result → Buffer → Input → Read
  stays result buffer i = record { result = result; buffer = buffer; after = i }

  -- Once the buffer is checked.
  abbrev pub read_length : Length → Buffer → Carrier → Input → Read
  read_length no_length buffer s i = read_into false 0 buffer s
  read_length not_a_number buffer s i = stays (raised type_error) buffer i
  read_length negative buffer s i = stays (raised range_error) buffer i
  read_length (bytes zero) buffer s i = stays (text []) buffer i
  read_length (bytes (suc n)) buffer s i = read_into true (suc n) buffer s

  abbrev pub read_checked : Length → Buffer → Carrier → Input → Read
  read_checked len not_a_string s i = stays (raised type_error) not_a_string i
  read_checked len buffer s i = read_length len buffer s i

  abbrev pub is_given : Length → Bool
  is_given no_length = false
  is_given len = true

  unfoldable pub rio_read : Length → Buffer → Input → Read
  rio_read len buffer i = elim i.io [
    | none ↦ stays (if is_given len then nil_result else text []) buffer i
    | some s ↦ read_checked len buffer s i
  ]

  unfoldable pub rio_close : Input → Input
  rio_close i = record { io = none }

  abbrev pub put_line : List ℕ → Option (List (List ℕ) × Input) → Option (List (List ℕ) × Input)
  put_line l none = none
  put_line l (some (ls, j)) = some (l ∷ ls, j)

  -- `str != Qnil`
  abbrev pub yield_line :
      Result × Input → Option (List (List ℕ) × Input) → Option (List (List ℕ) × Input)
  yield_line (text l, j) rest = put_line l rest
  yield_line (nil_result, j) rest = some ([], j)
  yield_line (raised e, j) rest = some ([], j)

  -- The loop of `rio_each`, on fuel: the lines that are yielded. `none` is a loop that goes on.
  unfoldable pub each_line : ℕ → Input → Option (List (List ℕ) × Input)
  unfolding rio_gets
  each_line zero i = none
  each_line (suc fuel) i = let rest = each_line fuel (rio_gets i).1 in yield_line (rio_gets i) rest

  unfoldable pub rio_each : ℕ → Input → Option (List (List ℕ) × Input)
  unfolding each_line rio_rewind
  rio_each fuel i = each_line fuel (rio_rewind i).0
