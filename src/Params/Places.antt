-- ===== src/Params/Places.antt =====
-- Where a value hangs in the parameters, and what a change of one place leaves of the others
-- (ext/iodine/http.c, `http_add_to_params`).
use iodine.Base.{
  arith, ℕ, zero, suc, ◌≡◌, refl, sym, ap, ◌∙◌, subst, ◌⊎◌, inl, inr, List, [], ◌∷◌, ◌++◌, some,
  Bool-cases, if◌then◌else◌, bytes_eq, bytes_eq_iff,
}
use iodine.Params.Tree.{
  Key, Node, Nodes, Entries, nil, string, uploaded_file, array, hash, no_nodes, node, no_entries,
  entry, aref, aset, push, last, set_last,
}

pub data Place : Type 0 where
  by_key : Key → Place
  by_index : ℕ → Place

abbrev pub nth : Nodes → ℕ → Node
nth no_nodes i = nil
nth (node n ns) zero = n
nth (node n ns) (suc i) = nth ns i

abbrev pub child : Place → Node → Node
child (by_key k) (hash es) = aref es k
child (by_index i) (array ns) = nth ns i
child p n = nil

abbrev pub dig : List Place → Node → Node
dig [] n = n
dig (p ∷ q) n = dig q (child p n)

abbrev pub IsLeaf : Node → Type 0
IsLeaf (string s) = Unit {0}
IsLeaf (uploaded_file f) = Unit {0}
IsLeaf n = ⊥

-- What hung at `q` hangs there still, or `v` was put there or above it.
abbrev pub Filed : Node → List Place → Node → Node → Type 0
Filed v q n m =
    (dig q m ≡ dig q n) ⊎ ((p : List Place) × (r : List Place) × (q ≡ p ++ r) × (dig p m ≡ v))

-- Of all that was filed nothing is lost but what `v` replaced.
abbrev pub Kept : Node → Node → Node → Type 0
Kept v n m = (q : List Place) → IsLeaf (dig q n) → Filed v q n m

abbrev pub KeptNodes : Node → Nodes → Nodes → Type 0
KeptNodes v ns ms = (i : ℕ) → Kept v (nth ns i) (nth ms i)

child-nil : (p : Place) → child p nil ≡ nil
child-nil (by_key k) = refl
child-nil (by_index i) = refl

pub dig-nil : (q : List Place) → dig q nil ≡ nil
dig-nil [] = refl
dig-nil (p ∷ q) = rw (child-nil p) (dig-nil q)

nothing_filed : (q : List Place) (n : Node) → n ≡ nil → IsLeaf (dig q n) → ⊥
nothing_filed q n e leaf = subst IsLeaf (ap (dig q) e ∙ dig-nil q) leaf

pub aref-aset :
    (es : Entries) (k j : Key) (v : Node)
    → aref (aset es k v) j ≡ (if bytes_eq k j then v else aref es j)
aref-aset no_entries k j v = refl
aref-aset (entry i n es) k j v =
    ground (arith, bytes_eq_iff i k, bytes_eq_iff i j, bytes_eq_iff k j, aref-aset es k j v)

nth-push : (ns : Nodes) (v : Node) (i : ℕ) → (nth (push ns v) i ≡ nth ns i) ⊎ (nth ns i ≡ nil)
nth-push no_nodes v i = inr refl
nth-push (node n ns) v zero = inl refl
nth-push (node n ns) v (suc i) = nth-push ns v i

nth-set_last :
    (ns : Nodes) (l v : Node) (i : ℕ)
    → last ns ≡ some l
    → (nth (set_last ns v) i ≡ nth ns i) ⊎ ((nth ns i ≡ l) × (nth (set_last ns v) i ≡ v))
nth-set_last no_nodes l v i e = absurd cc
nth-set_last (node n no_nodes) l v zero e = inr (cc, refl)
nth-set_last (node n no_nodes) l v (suc i) e = inl refl
nth-set_last (node n (node m ns)) l v zero e = inl refl
nth-set_last (node n (node m ns)) l v (suc i) e = nth-set_last (node m ns) l v i e

module _ (v : Node) where
  pub Kept-same : (n m : Node) → m ≡ n → Kept v n m
  Kept-same n m e q leaf = inl (ap (dig q) e)

  pub Kept-put : (n : Node) → Kept v n v
  Kept-put n q leaf = inr ([], q, refl, refl)

  pub Kept-nil : (m : Node) → Kept v nil m
  Kept-nil m q leaf = absurd (nothing_filed q nil refl leaf)

  -- A place below another.
  below :
      (p : Place) (q : List Place) (n m : Node)
      → Filed v q (child p n) (child p m)
      → Filed v (p ∷ q) n m
  below p q n m (inl e) = inl e
  below p q n m (inr (above, rest, e, put)) = inr (p ∷ above, rest, ap (◌∷◌ p) e, put)

  pub Kept-hash :
      (es : Entries) (k : Key) (n : Node)
      → Kept v (aref es k) n
      → Kept v (hash es) (hash (aset es k n))
  Kept-hash es k n kept [] leaf = absurd leaf
  Kept-hash es k n kept (by_index i ∷ q) leaf = absurd (nothing_filed q nil refl leaf)
  Kept-hash es k n kept (by_key j ∷ q) leaf = elim (Bool-cases (bytes_eq k j)) [
    | inl same ↦
        let here_k : k ≡ j = (bytes_eq_iff k j).0 same in
        let there : aref (aset es k n) j ≡ n = ground (arith, aref-aset es k j n) in
        let old : aref es k ≡ aref es j = ap (aref es) here_k in
        below (by_key j) q (hash es) (hash (aset es k n)) (
          subst (λ x. Filed v q (aref es j) x) (sym there)
            (subst (λ x. Kept v x n) old kept q leaf))
    | inr other ↦
        let there : aref (aset es k n) j ≡ aref es j = ground (arith, aref-aset es k j n) in
        inl (ap (dig q) there)
  ]

  pub Kept-array : (ns ms : Nodes) → KeptNodes v ns ms → Kept v (array ns) (array ms)
  Kept-array ns ms kept [] leaf = absurd leaf
  Kept-array ns ms kept (by_key k ∷ q) leaf = absurd (nothing_filed q nil refl leaf)
  Kept-array ns ms kept (by_index i ∷ q) leaf =
      below (by_index i) q (array ns) (array ms) (kept i q leaf)

  pub KeptNodes-push : (ns : Nodes) (n : Node) → KeptNodes v ns (push ns n)
  KeptNodes-push ns n i q leaf = elim (nth-push ns n i) [
    | inl e ↦ inl (ap (dig q) e)
    | inr e ↦ absurd (nothing_filed q (nth ns i) e leaf)
  ]

  pub KeptNodes-set_last :
      (ns : Nodes) (l n : Node) → last ns ≡ some l → Kept v l n → KeptNodes v ns (set_last ns n)
  KeptNodes-set_last ns l n e kept i = elim (nth-set_last ns l n i e) [
    | inl same ↦ Kept-same (nth ns i) (nth (set_last ns n) i) same
    | inr (was, now) ↦ subst (Kept v (nth ns i)) (sym now) (subst (λ x. Kept v x n) (sym was) kept)
  ]
