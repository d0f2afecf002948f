-- ===== src/Params/Adding.antt =====
-- `http_add_to_params` (ext/iodine/http.c). The C code walks down with pointers to the hash or the
-- array at hand and changes it there; here the place at hand is the argument of a recursive call,
-- and what hangs above it is put together when the call returns. A raise leaves the caller's
-- parameters to the garbage collector, so nothing is said of them.
use iodine.Base.{ℕ, zero, suc, List, [], ◌∷◌, Option, none, some, if◌then◌else◌}
use iodine.Params.Tree.{
  Key, Node, Nodes, Entries, array, hash, no_nodes, no_entries, aref, aset, push, last, set_last,
  is_nil, too_deep, bad_params, Result, ok, raises, ◌>>=◌, array_of, hash_of, check_hash,
}
use iodine.Params.Reading.{
  Step, memchr, array_step, hash_step, skip, malformed, read_step, look_ahead,
}

abbrev pub params_max_depth : ℕ
params_max_depth = 5

-- The hash that a name behind `[]` goes into: the array's last, or `none` for a new one.
abbrev pub nested_in : ℕ → Node → List ℕ → Result Node
nested_in after (hash es) rest = look_ahead after (hash es) rest [] rest
nested_in after n rest = ok n

abbrev pub pick_from : ℕ → Key → List ℕ → Option Node → Result (Option Entries)
pick_from after k rest none = ok none
pick_from after k rest (some l) = check_hash l >>= λ es.
    nested_in after (aref es k) rest >>= λ n. ok (if is_nil n then some es else none)

unfoldable pub pick_last : ℕ → Nodes → Key → List ℕ → Result (Option Entries)
unfolding look_ahead
pick_last after arr k rest = pick_from after k rest (last arr)

abbrev pub entries_of : Option Entries → Entries
entries_of none = no_entries
entries_of (some es) = es

abbrev pub put_hash : Nodes → Option Entries → Entries → Nodes
put_hash arr none es = push arr (hash es)
put_hash arr (some old) es = set_last arr (hash es)

-- One round of the loop, by what it takes from the key: at the entry of a hash, by what is filed
-- there, and in an array. What follows is the rest of the loop.
abbrev pub entry_round :
    (List ℕ → Node → Result Node) → (List ℕ → Nodes → Result Nodes) → Node → Step → Result Node
entry_round enter within old (array_step rest) =
    array_of old >>= λ arr. within rest arr >>= λ ns. ok (array ns)
entry_round enter within old (hash_step k rest) =
    hash_of old >>= λ es. enter rest (aref es k) >>= λ n. ok (hash (aset es k n))
entry_round enter within old (skip rest) = enter rest old
entry_round enter within old malformed = raises bad_params

abbrev pub array_round :
    ℕ
    → (List ℕ → Node → Result Node)
    → (List ℕ → Nodes → Result Nodes)
    → Nodes
    → Step
    → Result Nodes
array_round after enter within arr (array_step rest) =
    within rest no_nodes >>= λ ns. ok (push arr (array ns))
array_round after enter within arr (hash_step k rest) = pick_last after arr k rest >>= λ chosen.
    enter rest (aref (entries_of chosen) k) >>= λ n.
    ok (put_hash arr chosen (aset (entries_of chosen) k n))
array_round after enter within arr (skip rest) = within rest arr
array_round after enter within arr malformed = raises bad_params

-- The loop; `left` is what is left of the depth.
module _ (after : ℕ) (value : Node) where
  unfoldable mutual
    unfolding read_step pick_last

    pub at_entry : ℕ → List ℕ → Node → Result Node
    at_entry left [] old = ok value
    at_entry zero (c ∷ cs) old = raises too_deep
    at_entry (suc left) (c ∷ cs) old =
        entry_round (λ rest n. at_entry left rest n) (λ rest arr. in_array left rest arr) old
          (read_step after c cs)

    pub in_array : ℕ → List ℕ → Nodes → Result Nodes
    in_array left [] arr = ok (push arr value)
    in_array zero (c ∷ cs) arr = raises too_deep
    in_array (suc left) (c ∷ cs) arr =
        array_round after (λ rest n. at_entry left rest n) (λ rest more. in_array left rest more)
          arr (read_step after c cs)

-- memchr(key + 1, '[', key_len - 1), if the key has more than one byte
abbrev pub with_head : ℕ → Option (List ℕ × List ℕ) → Option (Key × List ℕ)
with_head c none = none
with_head c (some (before, behind)) = some (c ∷ before, behind)

unfoldable pub split_key : Key → Option (Key × List ℕ)
unfolding memchr
split_key [] = none
split_key (c ∷ cs) = with_head c (memchr b'[' cs)

-- By what the key is cut into: the whole key, or its first name and what follows the `[`.
unfoldable pub add_under : ℕ → Entries → Key → Node → Option (Key × List ℕ) → Result Entries
unfolding at_entry in_array
add_under after params key value none = ok (aset params key value)
add_under after params key value (some (k, rest)) =
    at_entry after value params_max_depth (b'[' ∷ rest) (aref params k) >>= λ n.
    ok (aset params k n)

unfoldable pub add_to_params : ℕ → Entries → Key → Node → Result Entries
unfolding split_key add_under
add_to_params after params key value = add_under after params key value (split_key key)
