-- ===== src/Params/Query.antt =====
-- `parse_nested_query` (ext/iodine/iodine_helpers.c): every pair of the string, decoded and filed.
use iodine.Base.{ℕ, List, [], ◌∷◌, Option, none, some, if◌then◌else◌, length}
use iodine.Query.{Pair, Value, nil_value, string, scan_pairs, add_pair}
use iodine.Params.Tree
use iodine.Params.Tree.{Key, Node, Entries, nil, no_entries, undecodable, Result, ok, raises, ◌>>=◌}
use iodine.Params.Adding.{add_to_params}

abbrev pub value_node : Value → Node
value_node nil_value = nil
value_node (string s) = Tree.string s

-- The byte behind the key: a decoded key is a Ruby string of its own, which ends in a NUL.
abbrev pub behind_part : Option (List ℕ) → ℕ
behind_part none = 0
behind_part (some t) = b'&'

abbrev pub after_key : Pair → ℕ
after_key p =
    if p.key.should_decode
    then 0
    else elim p.value [ none ↦ behind_part p.key.next | some v ↦ b'=' ]

abbrev pub file_decoded : ℕ → Entries → Option (Key × Value) → Result Entries
file_decoded after params none = raises undecodable
file_decoded after params (some (key, value)) = add_to_params after params key (value_node value)

module _ (decode : List ℕ → Option (List ℕ)) where
  unfoldable pub file_pair : Entries → Pair → Result Entries
  unfolding add_pair add_to_params
  file_pair params p = file_decoded (after_key p) params (add_pair decode p)

  unfoldable pub file_pairs : Entries → List Pair → Result Entries
  unfolding file_pair
  file_pairs params [] = ok params
  file_pairs params (p ∷ ps) = file_pair params p >>= λ more. file_pairs more ps

  abbrev pub file_scanned : Option (List Pair) → Option (Result Entries)
  file_scanned none = none
  file_scanned (some ps) = some (file_pairs no_entries ps)

  -- `none` is a loop that goes on after as many pairs as the string has bytes.
  unfoldable pub parse_nested_query : List ℕ → Option (Result Entries)
  unfolding file_pairs scan_pairs
  parse_nested_query s = file_scanned (scan_pairs (length s) s)
