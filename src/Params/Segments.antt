-- ===== src/Params/Segments.antt =====
-- The keys that the rules of nested parameters are written for, `user[tags][]`, as a name and its
-- segments, and what filing by the segments is (ext/iodine/http.c, `http_add_to_params`).
use iodine.Base.{ℕ, ◌≢◌, List, [], ◌∷◌, ◌++◌, Option, none, some, if◌then◌else◌, All}
use iodine.Params.Tree.{
  Key, Node, Nodes, Entries, array, hash, no_nodes, node, no_entries, entry, aref, aset, push, last,
  is_nil, Result, ok, ◌>>=◌, array_of, hash_of, check_hash,
}
use iodine.Params.Adding.{entries_of, put_hash}

pub data Segment : Type 0 where
  index : Segment
  name : Key → Segment

abbrev pub written : List Segment → List ℕ
written [] = []
written (index ∷ ss) = b'[' ∷ b']' ∷ written ss
written (name k ∷ ss) = b'[' ∷ k ++ b']' ∷ written ss

-- A name that can be written between brackets.
abbrev pub IsName : Key → Type 0
IsName [] = ⊥
IsName (c ∷ cs) = All (λ d. d ≢ b']') (c ∷ cs)

abbrev pub IsSegment : Segment → Type 0
IsSegment index = Unit {0}
IsSegment (name k) = IsName k

-- The name in front of the segments: the bracket that ends it is not its first byte.
abbrev pub IsFront : Key → Type 0
IsFront [] = ⊥
IsFront (c ∷ cs) = All (λ d. d ≢ b'[') cs

-- What the names in front of the next `[]` lead to, as far as there is something.
abbrev pub leads : Node → List Segment → Result Node
leads n [] = ok n
leads n (index ∷ ss) = ok n
leads n (name k ∷ ss) = if is_nil n then ok n else (check_hash n >>= λ es. leads (aref es k) ss)

abbrev pub leads_in : Node → List Segment → Result Node
leads_in (hash es) ss = leads (hash es) ss
leads_in n ss = ok n

-- The last hash of an array takes a name, unless the names lead to something in it already.
abbrev pub choose : Option Node → Key → List Segment → Result (Option Entries)
choose none k ss = ok none
choose (some l) k ss =
    check_hash l >>= λ es. leads_in (aref es k) ss >>= λ n. ok (if is_nil n then some es else none)

module _ (value : Node) where
  unfoldable mutual
    pub insert_at : List Segment → Node → Result Node
    insert_at [] old = ok value
    insert_at (index ∷ ss) old = array_of old >>= λ arr. insert_in ss arr >>= λ ns. ok (array ns)
    insert_at (name k ∷ ss) old =
        hash_of old >>= λ es. insert_at ss (aref es k) >>= λ n. ok (hash (aset es k n))

    pub insert_in : List Segment → Nodes → Result Nodes
    insert_in [] arr = ok (push arr value)
    insert_in (index ∷ ss) arr = insert_in ss no_nodes >>= λ ns. ok (push arr (array ns))
    insert_in (name k ∷ ss) arr = choose (last arr) k ss >>= λ chosen.
        insert_at ss (aref (entries_of chosen) k) >>= λ n.
        ok (put_hash arr chosen (aset (entries_of chosen) k n))

  -- What the segments make where nothing is.
  abbrev pub built : List Segment → Node
  built [] = value
  built (index ∷ ss) = array (node (built ss) no_nodes)
  built (name k ∷ ss) = hash (entry k (built ss) no_entries)
