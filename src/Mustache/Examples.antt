-- ===== src/Mustache/Examples.antt =====
-- A Hash whose entry `a` is a Hash whose entry `a` is an Array of two values.
use iodine.Base.{
  arith, ℕ, ◌<◌, ◌≡◌, refl, Bool, true, false, List, [], ◌∷◌, ◌++◌, Option, none, some, length, ◌⊎◌,
  suc, ltb, Bool-cases, inl, inr, if◌then◌else◌, bytes_eq, ◌==◌, ◌&&◌,
}
use iodine.Ruby.{Value, qnil, qtrue, qfalse, object, is_null}
use iodine.Mustache.{World, Output, find_obj, find_obj_tree, find_obj_absolute, on_section_test}
use iodine.Mustache.Lookup.{dig, join, find_obj-join}
use iodine.Mustache.Sections.{all_some, started, section-repetitions}

abbrev a_name : List ℕ
a_name = b'a' ∷ []

abbrev entry : Value → List ℕ → Option Value
entry (object n) name = if bytes_eq a_name name then some (object (suc n)) else none
entry o name = none

abbrev is_table : Value → Bool
is_table (object n) = ltb n 2
is_table o = false

abbrev items_of : Value → Option (List Value)
items_of (object n) = if n == 2 then some (qtrue ∷ object 3 ∷ []) else none
items_of o = none

abbrev world : World
world = record {
  is_hash = is_table;
  array = items_of;
  string = λ o. none;
  symbol_entry = entry;
  string_entry = λ o name. none;
  method = λ o name. none;
  call_with = λ o txt. qnil;
}

and_false : (x : Bool) → x && false ≡ false
and_false true = refl
and_false false = refl

-- Neither the name `a` nor a dot is a name with a dot behind other characters.
one_byte :
    (c : ℕ) (s more : List ℕ)
    → 0 < length s
    → (bytes_eq (c ∷ []) (s ++ b'.' ∷ more) ≡ false)
      × (bytes_eq (s ++ b'.' ∷ more) (c ∷ []) ≡ false)
one_byte c [] more h = absurd (omega (arith, h))
one_byte c (b ∷ []) more h = (and_false (c == b), and_false (b == c))
one_byte c (b ∷ d ∷ s) more h = (and_false (c == b), and_false (b == c))

undotted :
    (o : Value) (s more : List ℕ)
    → 0 < length s
    → find_obj_absolute world o (s ++ b'.' ∷ more) ≡ qnil
unfolding find_obj_absolute
undotted (object n) s more h = elim (Bool-cases (ltb n 2)) [
  | inl table ↦ rw (table, (one_byte b'a' s more h).0) refl
  | inr other ↦ rw (other, (one_byte b'.' s more h).1) refl
]
undotted qnil s more h = rw ((one_byte b'.' s more h).1) refl
undotted qtrue s more h = rw ((one_byte b'.' s more h).1) refl
undotted qfalse s more h = rw ((one_byte b'.' s more h).1) refl

find_obj-join_example :
    find_obj world (object 0 ∷ []) (join a_name (a_name ∷ []))
    ≡ some (
        if is_null (find_obj_tree world (object 0 ∷ []) a_name)
        then qnil
        else dig world (find_obj_tree world (object 0 ∷ []) a_name) (a_name ∷ []))
find_obj-join_example =
    find_obj-join world undotted (object 0 ∷ []) a_name a_name [] (refl, omega arith)
      (refl, omega arith) tt

found : find_obj world (object 0 ∷ []) (join a_name (a_name ∷ [])) ≡ some (object 2)
unfolding find_obj
found = refl

section-repetitions_example :
    (written : List Output) × (on_section_test world
        (object 0 ∷ [])
        (join a_name (a_name ∷ []))
        false
        []
      ≡ some (2, written))
    × ((written ≡ []) ⊎ (qtrue ∷ object 3 ∷ [] ≡ []))
    × (started world (object 0 ∷ []) (object 0) (join a_name (a_name ∷ [])) 0 2
        ≡ all_some (qtrue ∷ object 3 ∷ []))
section-repetitions_example =
    section-repetitions world (object 0 ∷ []) (join a_name (a_name ∷ [])) (object 0) (object 2)
      false [] found (omega arith)
