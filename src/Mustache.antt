-- ===== src/Mustache.antt =====
-- The callbacks of ext/iodine/iodine_mustache.c: how a template's names are looked up in Ruby data,
-- and what arguments and sections write. The template parser is facil.io's.
pub mod Lookup
pub mod Sections
mod Examples
use iodine.Base.{
  ℕ, zero, suc, ◌-◌, ◌%◌, ◌^◌, Bool, true, false, ◌&&◌, List, [], ◌∷◌, ◌++◌, Option, none, some,
  ltb, ◌==◌, if◌then◌else◌, length, get_elem?, bytes_eq,
}
use iodine.Ruby.{Value, qnil, qtrue, qfalse, object, is_nil, is_null, is_falsy}

-- What Ruby answers about its objects. `method` calls a method by its name, where `none` says that
-- the object does not respond to it; an exception shows as nil.
pub record World : Type 0 where
  pub is_hash : Value → Bool
  pub array : Value → Option (List Value)
  pub string : Value → Option (List ℕ)
  pub symbol_entry : Value → List ℕ → Option Value
  pub string_entry : Value → List ℕ → Option Value
  pub method : Value → List ℕ → Option Value
  pub call_with : Value → Option (List ℕ) → Value

abbrev pub call_word : List ℕ
call_word = b'c' ∷ b'a' ∷ b'l' ∷ b'l' ∷ []

abbrev pub to_s_word : List ℕ
to_s_word = b't' ∷ b'o' ∷ b'_' ∷ b's' ∷ []

abbrev pub true_word : List ℕ
true_word = b't' ∷ b'r' ∷ b'u' ∷ b'e' ∷ []

abbrev pub or_value : Option Value → Value → Value
or_value none other = other
or_value (some v) other = v

-- The name up to its first dot, and what is behind it.
abbrev pub cons_first : ℕ → Option (List ℕ × List ℕ) → Option (List ℕ × List ℕ)
cons_first b none = none
cons_first b (some (first, after)) = some (b ∷ first, after)

abbrev pub cut : List ℕ → Option (List ℕ × List ℕ)
cut [] = none
cut (b ∷ name) = if b == b'.' then some ([], name) else cons_first b (cut name)

-- What is written: text of the template or the word for true, or text that can be escaped.
pub data Output : Type 0 where
  raw : List ℕ → Output
  escaped : Bool → List ℕ → Output

module _ (w : World) where
  open w use {is_hash, array, string, symbol_entry, string_entry, method, call_with}

  -- fiobj_mustache_find_obj_absolute
  unfoldable pub find_obj_absolute : Value → List ℕ → Value
  find_obj_absolute o name =
      let called = or_value (method o name) qnil in
      if is_hash o
      then or_value (symbol_entry o name) (or_value (string_entry o name) called)
      else (if bytes_eq name (b'.' ∷ []) then o else called)

  -- fiobj_mustache_find_obj_tree, over the data of the section and of its parents
  unfoldable pub find_obj_tree : List Value → List ℕ → Value
  unfolding find_obj_absolute
  find_obj_tree [] name = qnil
  find_obj_tree (o ∷ parents) name =
      let tmp = find_obj_absolute o name in if is_nil tmp then find_obj_tree parents name else tmp

  abbrev pub deeper :
      Value → Option (List ℕ × List ℕ) → (Value → List ℕ → Option Value) → Option Value
  unfolding find_obj_absolute
  deeper tmp none k = some qnil
  deeper tmp (some (first, after)) k =
      let next = find_obj_absolute tmp first in if is_nil next then some qnil else k next after

  -- The loop of fiobj_mustache_find_obj, on what is left of the name; `none` is an end of the fuel.
  unfoldable pub descend : ℕ → Value → List ℕ → Option Value
  unfolding find_obj_absolute deeper
  descend zero tmp name = none
  descend (suc fuel) tmp name =
      let obj = find_obj_absolute tmp name in
      if is_nil obj then deeper tmp (cut name) (λ next after. descend fuel next after) else some obj

  abbrev pub from_first : List Value → Option (List ℕ × List ℕ) → Option Value
  unfolding find_obj_tree descend
  from_first sections none = some qnil
  from_first sections (some (first, after)) =
      let tmp = find_obj_tree sections first in
      if is_null tmp then some qnil else descend (suc (length after)) tmp after

  -- fiobj_mustache_find_obj
  unfoldable pub find_obj : List Value → List ℕ → Option Value
  unfolding find_obj_tree from_first
  find_obj sections name =
      let tmp = find_obj_tree sections name in
      if is_nil tmp then from_first sections (cut name) else some tmp

  -- The String of a value: what `call` gives, and its `to_s`.
  abbrev pub is_text : Option (List ℕ) → Bool
  is_text none = false
  is_text (some t) = true

  abbrev pub to_text : Value → Value
  to_text o =
      let called = or_value (method o call_word) o in
      if is_text (string o)
      then o
      else (if is_text (string called) then called else or_value (method called to_s_word) qnil)

  abbrev pub write_text : Bool → Option (List ℕ) → List Output
  write_text escape none = []
  write_text escape (some t) = if ltb 0 (length t) then escaped escape t ∷ [] else []

  abbrev pub arg_output : Bool → Value → List Output
  arg_output escape qnil = []
  arg_output escape qfalse = []
  arg_output escape qtrue = raw true_word ∷ write_text escape (string (to_text qtrue))
  arg_output escape (object n) = write_text escape (string (to_text (object n)))

  abbrev pub output_of : Bool → Option Value → Option (List Output)
  output_of escape none = none
  output_of escape (some o) = some (arg_output escape o)

  -- mustache_on_arg
  unfoldable pub on_arg : List Value → List ℕ → Bool → Option (List Output)
  unfolding find_obj
  on_arg sections name escape = output_of escape (find_obj sections name)

  -- What a lambda makes of the text of its section: written if it is a String, after `to_s`.
  abbrev pub lambda_text : Value → Option (List ℕ) → Value
  lambda_text o txt =
      let made = call_with o txt in
      if is_text (string made) then made else or_value (method made to_s_word) qnil

  -- The text of a section; an empty one is nil.
  abbrev pub section_text : List ℕ → Option (List ℕ)
  section_text txt = if ltb 0 (length txt) then some txt else none

  abbrev pub test_lambda : Bool → List ℕ → Value → ℕ × List Output
  test_lambda true txt o = (0, write_text false (string (lambda_text o (section_text txt))))
  test_lambda false txt o = (1, [])

  abbrev pub responds : Option Value → Bool
  responds none = false
  responds (some v) = true

  -- The count is the length as an int32_t, which is kept here as its two's complement word.
  abbrev pub test_array : Option (List Value) → Bool → List ℕ → Value → ℕ × List Output
  test_array (some vs) callable txt o = (length vs % 2 ^ 32, [])
  test_array none callable txt o = test_lambda (callable && responds (method o call_word)) txt o

  abbrev pub test_of : Bool → List ℕ → Option Value → Option (ℕ × List Output)
  test_of callable txt none = none
  test_of callable txt (some o) =
      some (if is_falsy o then (0, []) else test_array (array o) callable txt o)

  -- mustache_on_section_test
  unfoldable pub on_section_test : List Value → List ℕ → Bool → List ℕ → Option (ℕ × List Output)
  unfolding find_obj
  on_section_test sections name callable txt = test_of callable txt (find_obj sections name)

  -- mustache_on_section_start: the data of the new section, where `udata` is that of its parent.
  abbrev pub start_with : Value → ℕ → Value → Option (List Value) → Value
  start_with udata index o (some vs) = or_value (get_elem? vs index) qnil
  start_with udata index o none = if is_hash o then o else udata

  abbrev pub start_of : Value → ℕ → Option Value → Option Value
  start_of udata index none = none
  start_of udata index (some o) = some (start_with udata index o (array o))

  unfoldable pub on_section_start : List Value → Value → List ℕ → ℕ → Option Value
  unfolding find_obj
  on_section_start sections udata name index = start_of udata index (find_obj sections name)
