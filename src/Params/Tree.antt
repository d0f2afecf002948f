-- ===== src/Params/Tree.antt =====
-- The parameters of a request: Ruby hashes, arrays and what is filed in them
-- (ext/iodine/http.c, `http_add_to_params`). Every object hangs in one place only.
use iodine.Base.{
  ℕ, ◌≡◌, subst, Bool, true, false, List, Option, none, some, if◌then◌else◌, bytes_eq,
}

-- The keys are the bytes of a symbol.
abbrev pub Key : Type 0
Key = List ℕ

mutual
  pub data Node : Type 0 where
    nil : Node
    string : List ℕ → Node
    uploaded_file : ℕ → Node
    array : Nodes → Node
    hash : Entries → Node

  pub data Nodes : Type 0 where
    no_nodes : Nodes
    node : Node → Nodes → Nodes

  pub data Entries : Type 0 where
    no_entries : Entries
    entry : Key → Node → Entries → Entries

-- rb_hash_aref
abbrev pub aref : Entries → Key → Node
aref no_entries k = nil
aref (entry j n es) k = if bytes_eq j k then n else aref es k

-- rb_hash_aset: a new key goes to the end.
abbrev pub aset : Entries → Key → Node → Entries
aset no_entries k v = entry k v no_entries
aset (entry j n es) k v = if bytes_eq j k then entry j v es else entry j n (aset es k v)

-- rb_ary_push
abbrev pub push : Nodes → Node → Nodes
push no_nodes v = node v no_nodes
push (node n ns) v = node n (push ns v)

-- rb_ary_entry(arr, -1), if the array is not empty
abbrev pub last : Nodes → Option Node
last no_nodes = none
last (node n no_nodes) = some n
last (node n (node m ns)) = last (node m ns)

-- The change of the last element, where it hangs.
abbrev pub set_last : Nodes → Node → Nodes
set_last no_nodes v = no_nodes
set_last (node n no_nodes) v = node v no_nodes
set_last (node n (node m ns)) v = node n (set_last (node m ns) v)

abbrev pub is_nil : Node → Bool
is_nil nil = true
is_nil n = false

pub data Error : Type 0 where
  too_deep bad_params type_error undecodable : Error

pub data Result (A : Type 0) : Type 0 where
  ok : A → Result A
  raises : Error → Result A

module _ {A B : Type 0} where
  infixl 5 ◌>>=◌
  abbrev pub ◌>>=◌ : Result A → (A → Result B) → Result B
  ok a >>= k = k a
  raises e >>= k = raises e

-- `if (x == Qnil) new else Check_Type(x, …)`
abbrev pub array_of : Node → Result Nodes
array_of nil = ok no_nodes
array_of (array ns) = ok ns
array_of n = raises type_error

abbrev pub hash_of : Node → Result Entries
hash_of nil = ok no_entries
hash_of (hash es) = ok es
hash_of n = raises type_error

-- Check_Type(x, T_HASH)
abbrev pub check_hash : Node → Result Entries
check_hash (hash es) = ok es
check_hash n = raises type_error

module _ {A : Type 0} where
  -- What holds of the result, if there is one.
  abbrev pub Ensures : (A → Type 0) → Result A → Type 0
  Ensures P (ok a) = P a
  Ensures P (raises e) = Unit {0}

  pub Ensures-ok : (P : A → Type 0) (m : Result A) (a : A) → Ensures P m → m ≡ ok a → P a
  Ensures-ok P (ok b) a p e = let same : b ≡ a = cc in subst P same p
  Ensures-ok P (raises e) a p h = absurd cc

  pub Ensures-any : (m : Result A) → Ensures (λ _. Unit {0}) m
  Ensures-any (ok a) = tt
  Ensures-any (raises e) = tt

module _ {A B : Type 0} where
  pub Ensures-bind :
      (P : A → Type 0) (Q : B → Type 0) (m : Result A) (k : A → Result B)
      → Ensures P m
      → ((a : A) → P a → Ensures Q (k a))
      → Ensures Q (m >>= k)
  Ensures-bind P Q (ok a) k p f = f a p
  Ensures-bind P Q (raises e) k p f = tt
