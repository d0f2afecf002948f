-- ===== src/Http/Headers.antt =====
-- `for_each_header_data` of ext/iodine/iodine_http.c: how the headers of the application's response
-- are handed to facil.io. The lengths are taken as shorter than 2^31 bytes, as the `int`s of the
-- source do.
pub mod Clean
pub mod Leaves
use iodine.Base.{
  ℕ, zero, suc, ◌+◌, Bool, true, false, ◌&&◌, List, [], ◌∷◌, ◌++◌, map, Option, none, some, leb,
  ◌==◌, if◌then◌else◌, length,
}

-- The value of a header as Ruby has it: an object is told by what its `to_s` answers.
mutual
  pub data Header : Type 0 where
    nil_header : Header
    text : List ℕ → Header
    array : Headers → Header
    object : Option (List ℕ) → Header

  pub data Headers : Type 0 where
    none_left : Headers
    item : Header → Headers → Headers

pub data Key : Type 0 where
  nil_key : Key
  text_key : List ℕ → Key
  object_key : Option (List ℕ) → Key

-- ST_CONTINUE and ST_STOP
pub data Flow : Type 0 where
  continue stop : Flow

-- The calls of `http_set_header`, in their order.
abbrev pub Calls : Type 0
Calls = List (List ℕ × List ℕ)

abbrev pub to_lower : ℕ → ℕ
to_lower c = if leb b'A' c && leb c b'Z' then c + 32 else c

-- memchr(pos_s, '\n', …): what is before the newline and what is after it.
unfoldable pub line_end : List ℕ → List ℕ × List ℕ
line_end [] = ([], [])
line_end (c ∷ cs) = let rest = line_end cs in if c == b'\n' then ([], cs) else (c ∷ rest.0, rest.1)

abbrev pub put_first {ℓ} : {A : Type ℓ} → A → Option (List A) → Option (List A)
put_first l none = none
put_first l (some ls) = some (l ∷ ls)

-- The `while (pos_s < pos_e)` loop; `none` is a loop that ran out of fuel.
unfoldable pub header_lines : ℕ → List ℕ → Option (List (List ℕ))
unfolding line_end
header_lines fuel [] = some []
header_lines zero (c ∷ cs) = none
header_lines (suc fuel) (c ∷ cs) =
    put_first (line_end (c ∷ cs)).0 (header_lines fuel (line_end (c ∷ cs)).1)

-- `http_set_header` on each line. The fuel is the value's length.
unfoldable pub set_lines : List ℕ → Option (List (List ℕ)) → Calls → Calls
set_lines name none out = out
set_lines name (some []) out = out
set_lines name (some (l ∷ ls)) out = set_lines name (some ls) (out ++ (name, l) ∷ [])

abbrev pub key_text : Key → Option (List ℕ)
key_text nil_key = none
key_text (text_key k) = some k
key_text (object_key k) = k

unfoldable pub set_text : List ℕ → List ℕ → Calls → Calls
unfolding set_lines header_lines
set_text key val out = set_lines (map to_lower key) (header_lines (length val) val) out

-- A value that is no Array, under a key that is not nil.
unfoldable pub set_value : Option (List ℕ) → Option (List ℕ) → Calls → Calls × Flow
unfolding set_text
set_value none val out = (out, continue)
set_value (some key) none out = (out, stop)
set_value (some key) (some val) out = (set_text key val out, continue)

abbrev pub is_nil_key : Key → Bool
is_nil_key nil_key = true
is_nil_key k = false

-- What follows is done only if there was no ST_STOP.
abbrev pub go_on : Calls × Flow → Calls × Flow → Calls × Flow
go_on (out, continue) rest = rest
go_on (out, stop) rest = (out, stop)

unfoldable mutual
  unfolding set_value

  pub for_each_header_data : Key → Header → Calls → Calls × Flow
  for_each_header_data key nil_header out = (out, continue)
  for_each_header_data key (array vals) out =
      let r = for_each_item key vals out in if is_nil_key key then (out, continue) else r
  for_each_header_data key (text val) out =
      if is_nil_key key then (out, continue) else set_value (key_text key) (some val) out
  for_each_header_data key (object val) out =
      if is_nil_key key then (out, continue) else set_value (key_text key) val out

  -- The loop of `array_style_multi_value`.
  pub for_each_item : Key → Headers → Calls → Calls × Flow
  for_each_item key none_left out = (out, continue)
  for_each_item key (item val vals) out =
      let r = for_each_header_data key val out in
      let rest = for_each_item key vals r.0 in go_on r rest

-- rb_hash_foreach(response_headers, for_each_header_data, h)
unfoldable pub set_headers : List (Key × Header) → Calls → Calls
unfolding for_each_header_data
set_headers [] out = out
set_headers ((key, val) ∷ rest) out =
    let r = for_each_header_data key val out in
    (go_on (r.0, r.1) (set_headers rest r.0, continue)).0
