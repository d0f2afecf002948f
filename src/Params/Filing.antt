-- ===== src/Params/Filing.antt =====
-- What a written key does to the parameters (ext/iodine/http.c, `http_add_to_params`).
use iodine.Base.{
  arith, ℕ, ◌≤◌, ◌<◌, ◌≡◌, refl, ap, ◌∙◌, List, [], ◌∷◌, ◌++◌, append-nil, none, some, length, All,
}
use iodine.Params.Tree.{
  Key, Node, Entries, nil, no_nodes, node, aref, aset, Error, Result, ok, raises, ◌>>=◌, Ensures,
  Ensures-bind,
}
use iodine.Params.Adding.{at_entry, params_max_depth, split_key, add_under, add_to_params}
use iodine.Params.Segments.{
  Segment, index, name, written, IsSegment, IsFront, insert_at, insert_in, built,
}
use iodine.Params.Written.{memchr-here, memchr-nowhere, at_entry-written, at_entry-fails}

refused : {A : Type 0} (m : Result A) → Ensures (λ _. ⊥) m → (e : Error) × (m ≡ raises e)
refused (ok a) h = absurd h
refused (raises e) h = (e, refl)

-- A written key is cut behind its front.
split_key-front : (k : Key) → IsFront k → split_key k ≡ none
unfolding split_key
split_key-front [] h = absurd h
split_key-front (c ∷ cs) h = rw (memchr-nowhere b'[' cs h) refl

-- What follows the first `[`.
abbrev unopened : Segment → List Segment → List ℕ
unopened index ss = b']' ∷ written ss
unopened (name j) ss = j ++ b']' ∷ written ss

written-cons : (s : Segment) (ss : List Segment) → written (s ∷ ss) ≡ b'[' ∷ unopened s ss
written-cons index ss = refl
written-cons (name j) ss = refl

split_key-written :
    (k : Key) (s : Segment) (ss : List Segment)
    → IsFront k
    → split_key (k ++ written (s ∷ ss)) ≡ some (k, unopened s ss)
unfolding split_key
split_key-written [] s ss h = absurd h
split_key-written (c ∷ cs) s ss h =
    rw (written-cons s ss, memchr-here b'[' cs (unopened s ss) h) refl

module _ (value : Node) where
  mutual
    unfolding insert_at

    at_nothing : (ss : List Segment) → insert_at value ss nil ≡ ok (built value ss)
    at_nothing [] = refl
    at_nothing (index ∷ ss) = rw (in_nothing ss) refl
    at_nothing (name k ∷ ss) = rw (at_nothing ss) refl

    in_nothing :
        (ss : List Segment) → insert_in value ss no_nodes ≡ ok (node (built value ss) no_nodes)
    in_nothing [] = refl
    in_nothing (index ∷ ss) = rw (in_nothing ss) refl
    in_nothing (name k ∷ ss) = rw (at_nothing ss) refl

  module _ (after : ℕ) (params : Entries) (k : Key) (front : IsFront k) where
    -- A key that is written as a name and at most as many segments as the depth allows files its
    -- value as the segments say.
    pub add_to_params-written :
        (ss : List Segment)
        → All IsSegment ss
        → length ss ≤ params_max_depth
        → add_to_params after params (k ++ written ss) value
          ≡ (insert_at value ss (aref params k) >>= λ n. ok (aset params k n))
    unfolding add_to_params add_under insert_at
    add_to_params-written [] h le = rw (append-nil, split_key-front k front) refl
    add_to_params-written (s ∷ ss) h le =
        let whole = at_entry-written after value params_max_depth (s ∷ ss) (aref params k) h le in
        rw (split_key-written k s ss front)
          (ap (λ m. m >>= λ n. ok (aset params k n)) (rw (written-cons s ss) at whole))

    -- A key with more segments than the depth allows is refused, and what it raises ends the call.
    pub add_to_params-refused :
        (ss : List Segment)
        → All IsSegment ss
        → params_max_depth < length ss
        → (e : Error) × (add_to_params after params (k ++ written ss) value ≡ raises e)
    unfolding add_to_params add_under
    add_to_params-refused [] h lt = absurd (omega arith)
    add_to_params-refused (s ∷ ss) h lt =
        let fails = at_entry-fails after value params_max_depth (s ∷ ss) (aref params k) h lt in
        rw (split_key-written k s ss front) (
          refused _ (
            Ensures-bind (λ _. ⊥) (λ _. ⊥)
              (at_entry after value params_max_depth (b'[' ∷ unopened s ss) (aref params k)) _
              (rw (written-cons s ss) at fails) λ n no_way. no_way))

    -- Where nothing is filed under the name yet, such a key never raises, and the hashes and arrays
    -- that it spells are all made.
    pub add_to_params-new :
        (ss : List Segment)
        → All IsSegment ss
        → length ss ≤ params_max_depth
        → aref params k ≡ nil
        → add_to_params after params (k ++ written ss) value ≡ ok (aset params k (built value ss))
    add_to_params-new ss h le e =
        add_to_params-written ss h le
        ∙ ap (λ n. insert_at value ss n >>= λ m. ok (aset params k m)) e
        ∙ ap (λ m. m >>= λ n. ok (aset params k n)) (at_nothing ss)
