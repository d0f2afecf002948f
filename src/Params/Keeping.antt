-- ===== src/Params/Keeping.antt =====
-- That filing a value loses nothing but what it replaces (ext/iodine/http.c,
-- `http_add_to_params`).
use iodine.Base.{
  ℕ, zero, suc, ◌≡◌, refl, List, [], ◌∷◌, Option, none, some, Bool, true, false, if◌then◌else◌,
}
use iodine.Params.Tree.{
  Key, Node, Nodes, Entries, nil, string, uploaded_file, array, hash, no_nodes, aref, aset, last,
  is_nil, Result, array_of, hash_of, check_hash, Ensures, Ensures-bind, Ensures-any, Ensures-ok, ok,
}
use iodine.Params.Reading.{Step, array_step, hash_step, skip, malformed, read_step}
use iodine.Params.Adding.{
  nested_in, pick_from, pick_last, entries_of, put_hash, entry_round, array_round, at_entry,
  in_array, params_max_depth, split_key, add_under, add_to_params,
}
use iodine.Params.Places.{
  Place, IsLeaf, dig, Filed, Kept, KeptNodes, Kept-put, Kept-nil, Kept-hash, Kept-array,
  KeptNodes-push, KeptNodes-set_last,
}

module _ (v : Node) where
  -- An array or a hash that comes from a place, and may go back changed.
  abbrev FromArray : Node → Nodes → Type 0
  FromArray old arr = (ns : Nodes) → KeptNodes v arr ns → Kept v old (array ns)

  abbrev FromHash : Node → Entries → Type 0
  FromHash old es = (k : Key) (n : Node) → Kept v (aref es k) n → Kept v old (hash (aset es k n))

  array_of-FromArray : (old : Node) → Ensures (FromArray old) (array_of old)
  array_of-FromArray nil = λ ns kept. Kept-nil v (array ns)
  array_of-FromArray (string s) = tt
  array_of-FromArray (uploaded_file f) = tt
  array_of-FromArray (array arr) = λ ns kept. Kept-array v arr ns kept
  array_of-FromArray (hash es) = tt

  hash_of-FromHash : (old : Node) → Ensures (FromHash old) (hash_of old)
  hash_of-FromHash nil = λ k n kept. Kept-nil v _
  hash_of-FromHash (string s) = tt
  hash_of-FromHash (uploaded_file f) = tt
  hash_of-FromHash (array arr) = tt
  hash_of-FromHash (hash es) = λ k n kept. Kept-hash v es k n kept

  check_hash-FromHash : (old : Node) → Ensures (FromHash old) (check_hash old)
  check_hash-FromHash nil = tt
  check_hash-FromHash (string s) = tt
  check_hash-FromHash (uploaded_file f) = tt
  check_hash-FromHash (array arr) = tt
  check_hash-FromHash (hash es) = λ k n kept. Kept-hash v es k n kept

  -- The hash that was picked goes back into the array.
  abbrev FromPick : Nodes → Option Entries → Type 0
  FromPick arr o =
      (k : Key) (n : Node)
      → Kept v (aref (entries_of o) k) n
      → KeptNodes v arr (put_hash arr o (aset (entries_of o) k n))

  pushed-FromPick : (arr : Nodes) → FromPick arr none
  pushed-FromPick arr k n kept = KeptNodes-push v arr _

  chosen-FromPick :
      (arr : Nodes) (l : Node) (b : Bool) (es : Entries)
      → last arr ≡ some l
      → FromHash l es
      → FromPick arr (if b then some es else none)
  chosen-FromPick arr l true es e from k n kept = KeptNodes-set_last v arr l _ e (from k n kept)
  chosen-FromPick arr l false es e from k n kept = pushed-FromPick arr k n kept

  pick_from-FromPick :
      (after : ℕ) (arr : Nodes) (k : Key) (rest : List ℕ) (o : Option Node)
      → last arr ≡ o
      → Ensures (FromPick arr) (pick_from after k rest o)
  pick_from-FromPick after arr k rest none e = pushed-FromPick arr
  pick_from-FromPick after arr k rest (some l) e =
      Ensures-bind (FromHash l) _ (check_hash l) _ (check_hash-FromHash l) λ es from.
        Ensures-bind (λ _. Unit {0}) _ (nested_in after (aref es k) rest) _
          (Ensures-any (nested_in after (aref es k) rest))
          λ n _. chosen-FromPick arr l (is_nil n) es e from

  abbrev Enters : (List ℕ → Node → Result Node) → Type 0
  Enters enter = (rest : List ℕ) (n : Node) → Ensures (Kept v n) (enter rest n)

  abbrev Fills : (List ℕ → Nodes → Result Nodes) → Type 0
  Fills fill = (rest : List ℕ) (ns : Nodes) → Ensures (KeptNodes v ns) (fill rest ns)

  module _ (enter : List ℕ → Node → Result Node) (fill : List ℕ → Nodes → Result Nodes)
      (enters : Enters enter) (fills : Fills fill) where
    entry_round-Kept : (old : Node) (s : Step) → Ensures (Kept v old) (entry_round enter fill old s)
    entry_round-Kept old (array_step rest) =
        Ensures-bind (FromArray old) _ (array_of old) _ (array_of-FromArray old) λ arr from.
          Ensures-bind (KeptNodes v arr) _ (fill rest arr) _ (fills rest arr)
            λ ns kept. from ns kept
    entry_round-Kept old (hash_step k rest) =
        Ensures-bind (FromHash old) _ (hash_of old) _ (hash_of-FromHash old) λ es from.
          Ensures-bind (Kept v (aref es k)) _ (enter rest (aref es k)) _ (enters rest (aref es k))
            λ n kept. from k n kept
    entry_round-Kept old (skip rest) = enters rest old
    entry_round-Kept old malformed = tt

    array_round-Kept :
        (after : ℕ) (arr : Nodes) (s : Step)
        → Ensures (KeptNodes v arr) (array_round after enter fill arr s)
    unfolding pick_last
    array_round-Kept after arr (array_step rest) =
        Ensures-bind (λ _. Unit {0}) _ (fill rest no_nodes) _ (Ensures-any (fill rest no_nodes))
          λ ns _. KeptNodes-push v arr (array ns)
    array_round-Kept after arr (hash_step k rest) =
        Ensures-bind (FromPick arr) _ (pick_last after arr k rest) _
          (pick_from-FromPick after arr k rest (last arr) refl)
          λ o from.
            Ensures-bind (Kept v (aref (entries_of o) k)) _ (enter rest (aref (entries_of o) k)) _
              (enters rest (aref (entries_of o) k)) λ n kept. from k n kept
    array_round-Kept after arr (skip rest) = fills rest arr
    array_round-Kept after arr malformed = tt

  module _ (after : ℕ) where
    mutual
      unfolding at_entry

      entry-Kept :
          (left : ℕ) (rest : List ℕ) (old : Node)
          → Ensures (Kept v old) (at_entry after v left rest old)
      entry-Kept left [] old = Kept-put v old
      entry-Kept zero (c ∷ cs) old = tt
      entry-Kept (suc left) (c ∷ cs) old =
          entry_round-Kept _ _ (λ rest n. entry-Kept left rest n)
            (λ rest ns. array_kept left rest ns) old (read_step after c cs)

      array_kept :
          (left : ℕ) (rest : List ℕ) (arr : Nodes)
          → Ensures (KeptNodes v arr) (in_array after v left rest arr)
      array_kept left [] arr = KeptNodes-push v arr v
      array_kept zero (c ∷ cs) arr = tt
      array_kept (suc left) (c ∷ cs) arr =
          array_round-Kept _ _ (λ rest n. entry-Kept left rest n)
            (λ rest ns. array_kept left rest ns) after arr (read_step after c cs)

    add_under-Kept :
        (params : Entries) (key : Key) (o : Option (Key × List ℕ))
        → Ensures (λ more. Kept v (hash params) (hash more)) (add_under after params key v o)
    unfolding add_under
    add_under-Kept params key none = Kept-hash v params key v (Kept-put v (aref params key))
    add_under-Kept params key (some (k, rest)) =
        Ensures-bind (Kept v (aref params k)) _
          (at_entry after v params_max_depth (b'[' ∷ rest) (aref params k)) _
          (entry-Kept params_max_depth (b'[' ∷ rest) (aref params k))
          λ n kept. Kept-hash v params k n kept

    Kept-added :
        (params : Entries) (key : Key)
        → Ensures (λ more. Kept v (hash params) (hash more)) (add_to_params after params key v)
    unfolding add_to_params
    Kept-added params key = add_under-Kept params key (split_key key)

    -- Whatever the key, if the value is filed then every string and every file that the parameters
    -- held hangs where it hung, or the value stands in its place or in that of a hash or an array
    -- around it.
    pub add_to_params-kept :
        (params more : Entries) (key : Key) (q : List Place)
        → add_to_params after params key v ≡ ok more
        → IsLeaf (dig q (hash params))
        → Filed v q (hash params) (hash more)
    add_to_params-kept params more key q e =
        Ensures-ok (λ m. Kept v (hash params) (hash m)) (add_to_params after params key v) more
          (Kept-added params key) e q
