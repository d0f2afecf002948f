-- ===== src/Params/Depth.antt =====
-- How deep the parameters can be nested (ext/iodine/http.c, `http_add_to_params`).
use iodine.Base.{
  arith, ℕ, zero, suc, ◌≤◌, ◌≡◌, refl, subst, inl, inr, Bool, true, false, List, [], ◌∷◌, Option,
  none, some, Bool-cases, if◌then◌else◌, bytes_eq,
}
use iodine.Params.Tree.{
  Key, Node, Nodes, Entries, nil, string, uploaded_file, array, hash, no_nodes, node, no_entries,
  entry, aref, aset, push, last, set_last, is_nil, Result, array_of, hash_of, check_hash, Ensures,
  Ensures-bind, Ensures-any,
}
use iodine.Params.Reading.{Step, array_step, hash_step, skip, malformed, read_step}
use iodine.Params.Adding.{
  nested_in, pick_from, pick_last, entries_of, entry_round, array_round, add_under, put_hash,
  at_entry, in_array, params_max_depth, split_key, add_to_params,
}

-- At most so many hashes and arrays one inside the other.
abbrev mutual
  pub Within : ℕ → Node → Type 0
  Within d nil = Unit {0}
  Within d (string s) = Unit {0}
  Within d (uploaded_file f) = Unit {0}
  Within zero (array ns) = ⊥
  Within (suc d) (array ns) = NodesWithin d ns
  Within zero (hash es) = ⊥
  Within (suc d) (hash es) = EntriesWithin d es

  pub NodesWithin : ℕ → Nodes → Type 0
  NodesWithin d no_nodes = Unit {0}
  NodesWithin d (node n ns) = Within d n × NodesWithin d ns

  pub EntriesWithin : ℕ → Entries → Type 0
  EntriesWithin d no_entries = Unit {0}
  EntriesWithin d (entry k n es) = Within d n × EntriesWithin d es

aref-Within : (d : ℕ) (es : Entries) (k : Key) → EntriesWithin d es → Within d (aref es k)
aref-Within d no_entries k h = tt
aref-Within d (entry j n es) k (h, hs) = ground (arith, aref-Within d es k hs)

aset-Within :
    (d : ℕ) (es : Entries) (k : Key) (v : Node)
    → EntriesWithin d es
    → Within d v
    → EntriesWithin d (aset es k v)
aset-Within d no_entries k v h w = (w, tt)
aset-Within d (entry j n es) k v (h, hs) w = elim (Bool-cases (bytes_eq j k)) [
  | inl same ↦ rw same (w, hs)
  | inr other ↦ rw other (h, aset-Within d es k v hs w)
]

push-Within :
    (d : ℕ) (ns : Nodes) (v : Node) → NodesWithin d ns → Within d v → NodesWithin d (push ns v)
push-Within d no_nodes v h w = (w, tt)
push-Within d (node n ns) v (h, hs) w = (h, push-Within d ns v hs w)

last-Within : (d : ℕ) (ns : Nodes) (n : Node) → NodesWithin d ns → last ns ≡ some n → Within d n
last-Within d no_nodes n h e = absurd cc
last-Within d (node m no_nodes) n (h, hs) e = let same : m ≡ n = cc in subst (Within d) same h
last-Within d (node m (node m' ns)) n (h, hs) e = last-Within d (node m' ns) n hs e

set_last-Within :
    (d : ℕ) (ns : Nodes) (v : Node) → NodesWithin d ns → Within d v → NodesWithin d (set_last ns v)
set_last-Within d no_nodes v h w = tt
set_last-Within d (node n no_nodes) v h w = (w, tt)
set_last-Within d (node n (node m ns)) v (h, hs) w = (h, set_last-Within d (node m ns) v hs w)

array_of-Within : (d : ℕ) (n : Node) → Within (suc d) n → Ensures (NodesWithin d) (array_of n)
array_of-Within d nil h = tt
array_of-Within d (string s) h = tt
array_of-Within d (uploaded_file f) h = tt
array_of-Within d (array ns) h = h
array_of-Within d (hash es) h = tt

hash_of-Within : (d : ℕ) (n : Node) → Within (suc d) n → Ensures (EntriesWithin d) (hash_of n)
hash_of-Within d nil h = tt
hash_of-Within d (string s) h = tt
hash_of-Within d (uploaded_file f) h = tt
hash_of-Within d (array ns) h = tt
hash_of-Within d (hash es) h = h

check_hash-Within : (d : ℕ) (n : Node) → Within (suc d) n → Ensures (EntriesWithin d) (check_hash n)
check_hash-Within d nil h = tt
check_hash-Within d (string s) h = tt
check_hash-Within d (uploaded_file f) h = tt
check_hash-Within d (array ns) h = tt
check_hash-Within d (hash es) h = h

chosen-Within :
    (d : ℕ) (b : Bool) (es : Entries)
    → EntriesWithin d es
    → EntriesWithin d (entries_of (if b then some es else none))
chosen-Within d true es h = h
chosen-Within d false es h = tt

pick_from-Within :
    (after d : ℕ) (k : Key) (rest : List ℕ) (o : Option Node)
    → ((l : Node) → o ≡ some l → Within (suc d) l)
    → Ensures (λ p. EntriesWithin d (entries_of p)) (pick_from after k rest o)
pick_from-Within after d k rest none h = tt
pick_from-Within after d k rest (some l) h =
    Ensures-bind (EntriesWithin d) _ (check_hash l) _ (check_hash-Within d l (h l refl)) λ es w.
      Ensures-bind (λ _. Unit {0}) _ (nested_in after (aref es k) rest) _
        (Ensures-any (nested_in after (aref es k) rest)) λ n _. chosen-Within d (is_nil n) es w

put_hash-Within :
    (d : ℕ) (arr : Nodes) (o : Option Entries) (es : Entries)
    → NodesWithin (suc d) arr
    → EntriesWithin d es
    → NodesWithin (suc d) (put_hash arr o es)
put_hash-Within d arr none es h w = push-Within (suc d) arr (hash es) h w
put_hash-Within d arr (some old) es h w = set_last-Within (suc d) arr (hash es) h w

-- What the rest of the loop keeps.
abbrev Enters : ℕ → (List ℕ → Node → Result Node) → Type 0
Enters d enter = (rest : List ℕ) (n : Node) → Within d n → Ensures (Within d) (enter rest n)

abbrev Fills : ℕ → (List ℕ → Nodes → Result Nodes) → Type 0
Fills d within =
    (rest : List ℕ) (ns : Nodes) → NodesWithin d ns → Ensures (NodesWithin d) (within rest ns)

module _ (d : ℕ) (enter : List ℕ → Node → Result Node) (fill : List ℕ → Nodes → Result Nodes)
    (enters : Enters d enter) (fills : Fills d fill) where
  entry_round-Within :
      (old : Node) (s : Step)
      → Enters (suc d) enter
      → Within (suc d) old
      → Ensures (Within (suc d)) (entry_round enter fill old s)
  entry_round-Within old (array_step rest) higher h =
      Ensures-bind (NodesWithin d) _ (array_of old) _ (array_of-Within d old h)
        λ arr w. Ensures-bind (NodesWithin d) _ (fill rest arr) _ (fills rest arr w) λ ns ws. ws
  entry_round-Within old (hash_step k rest) higher h =
      Ensures-bind (EntriesWithin d) _ (hash_of old) _ (hash_of-Within d old h) λ es w.
        Ensures-bind (Within d) _ (enter rest (aref es k)) _
          (enters rest (aref es k) (aref-Within d es k w)) λ n wn. aset-Within d es k n w wn
  entry_round-Within old (skip rest) higher h = higher rest old h
  entry_round-Within old malformed higher h = tt

  array_round-Within :
      (after : ℕ) (arr : Nodes) (s : Step)
      → Fills (suc d) fill
      → NodesWithin (suc d) arr
      → Ensures (NodesWithin (suc d)) (array_round after enter fill arr s)
  unfolding pick_last
  array_round-Within after arr (array_step rest) higher h =
      Ensures-bind (NodesWithin d) _ (fill rest no_nodes) _ (fills rest no_nodes tt)
        λ ns ws. push-Within (suc d) arr (array ns) h ws
  array_round-Within after arr (hash_step k rest) higher h =
      Ensures-bind _ _ (pick_last after arr k rest) _
        (pick_from-Within after d k rest (last arr) (λ l e. last-Within (suc d) arr l h e))
        λ o w.
          Ensures-bind (Within d) _ (enter rest (aref (entries_of o) k)) _
            (enters rest (aref (entries_of o) k) (aref-Within d (entries_of o) k w))
            λ n wn. put_hash-Within d arr o _ h (aset-Within d (entries_of o) k n w wn)
  array_round-Within after arr (skip rest) higher h = higher rest arr h
  array_round-Within after arr malformed higher h = tt

module _ (after : ℕ) (value : Node) (flat : (d : ℕ) → Within d value) where
  mutual
    unfolding at_entry

    entry-Within :
        (left d : ℕ) (rest : List ℕ) (old : Node)
        → left ≤ d
        → Within d old
        → Ensures (Within d) (at_entry after value left rest old)
    entry-Within left d [] old le h = flat d
    entry-Within zero d (c ∷ cs) old le h = tt
    entry-Within (suc left) zero (c ∷ cs) old le h = absurd (omega arith)
    entry-Within (suc left) (suc d) (c ∷ cs) old le h =
        entry_round-Within d _ _ (λ rest n. entry-Within left d rest n (omega arith))
          (λ rest ns. array_within left d rest ns (omega arith)) old (read_step after c cs)
          (λ rest n. entry-Within left (suc d) rest n (omega arith)) h

    array_within :
        (left d : ℕ) (rest : List ℕ) (arr : Nodes)
        → left ≤ d
        → NodesWithin d arr
        → Ensures (NodesWithin d) (in_array after value left rest arr)
    array_within left d [] arr le h = push-Within d arr value h (flat d)
    array_within zero d (c ∷ cs) arr le h = tt
    array_within (suc left) zero (c ∷ cs) arr le h = absurd (omega arith)
    array_within (suc left) (suc d) (c ∷ cs) arr le h =
        array_round-Within d _ _ (λ rest n. entry-Within left d rest n (omega arith))
          (λ rest ns. array_within left d rest ns (omega arith)) after arr (read_step after c cs)
          (λ rest ns. array_within left (suc d) rest ns (omega arith)) h

  add_under-Within :
      (params : Entries) (key : Key) (o : Option (Key × List ℕ))
      → EntriesWithin params_max_depth params
      → Ensures (EntriesWithin params_max_depth) (add_under after params key value o)
  unfolding add_under
  add_under-Within params key none h =
      aset-Within params_max_depth params key value h (flat params_max_depth)
  add_under-Within params key (some (k, rest)) h =
      Ensures-bind (Within params_max_depth) _
        (at_entry after value params_max_depth (b'[' ∷ rest) (aref params k)) _
        (entry-Within params_max_depth params_max_depth (b'[' ∷ rest) (aref params k) (omega arith)
          (aref-Within params_max_depth params k h))
        λ n w. aset-Within params_max_depth params k n h w

  -- Parameters whose entries are nested at most as deep as the constant allows stay so.
  pub add_to_params-Within :
      (params : Entries) (key : Key)
      → EntriesWithin params_max_depth params
      → Ensures (EntriesWithin params_max_depth) (add_to_params after params key value)
  unfolding add_to_params
  add_to_params-Within params key h = add_under-Within params key (split_key key) h
