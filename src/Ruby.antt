-- ===== src/Ruby.antt =====
-- Ruby's `VALUE` as the C code of ext/iodine sees it: the immediates that it compares with, and a
-- reference to any other object. `Qfalse` is the null word, so the C test `!obj` is `qfalse`.
use iodine.Base.{ℕ, Bool, true, false, ◌==◌, if◌then◌else◌}

pub data Value : Type 0 where
  qnil : Value
  qtrue : Value
  qfalse : Value
  object : ℕ → Value

-- `!obj || obj == Qnil || obj == Qtrue || obj == Qfalse`
abbrev pub is_special : Value → Bool
is_special qnil = true
is_special qtrue = true
is_special qfalse = true
is_special (object n) = false

-- The bits of a reference, by which the tables find it.
abbrev pub key_of : Value → ℕ
key_of (object n) = n
key_of v = 0

-- How much a holder of `v` adds to the holders of `w`: immediates are never counted.
abbrev pub one_of : Value → Value → ℕ
one_of (object m) (object n) = if m == n then 1 else 0
one_of v w = 0

abbrev pub is_nil : Value → Bool
is_nil qnil = true
is_nil v = false

-- Whether two words are the same VALUE.
abbrev pub same_value : Value → Value → Bool
same_value qnil qnil = true
same_value qtrue qtrue = true
same_value qfalse qfalse = true
same_value (object m) (object n) = m == n
same_value v w = false

-- `obj == Qnil || obj == Qfalse`
abbrev pub is_falsy : Value → Bool
is_falsy qnil = true
is_falsy qfalse = true
is_falsy v = false

-- `!obj`
abbrev pub is_null : Value → Bool
is_null qfalse = true
is_null v = false
