-- ===== src/Params/Written.antt =====
-- That the bytes of a written key are read as its segments (ext/iodine/http.c,
-- `http_add_to_params`).
use iodine.Base.{
  arith, ℕ, zero, suc, ◌≤◌, ◌<◌, ◌≡◌, ◌≢◌, refl, sym, ap, ◌∙◌, inl, inr, true, false, List, [], ◌∷◌,
  ◌++◌, append_assoc, Option, none, some, ◌==◌, if◌then◌else◌, length, All, Bool-cases,
}
use iodine.Params.Tree.{
  Key, Node, Nodes, Entries, nil, string, uploaded_file, array, hash, no_nodes, aref, aset, push,
  last, is_nil, Result, ok, raises, ◌>>=◌, array_of, hash_of, check_hash, Ensures, Ensures-bind,
  Ensures-any,
}
use iodine.Params.Reading.{hash_step, memchr, tail, opens_name, read_step, look_ahead}
use iodine.Params.Adding.{nested_in, pick_from, pick_last, entries_of, put_hash, at_entry, in_array}
use iodine.Params.Segments.{
  Segment, index, name, written, IsName, IsSegment, leads, leads_in, choose, insert_at, insert_in,
}

pub memchr-here :
    (b : ℕ) (xs ys : List ℕ) → All (λ d. d ≢ b) xs → memchr b (xs ++ b ∷ ys) ≡ some (xs, ys)
unfolding memchr
memchr-here b [] ys h = ground arith
memchr-here b (x ∷ xs) ys (h, hs) = ground (arith, memchr-here b xs ys hs)

pub memchr-nowhere : (b : ℕ) (xs : List ℕ) → All (λ d. d ≢ b) xs → memchr b xs ≡ none
unfolding memchr
memchr-nowhere b [] h = refl
memchr-nowhere b (x ∷ xs) (h, hs) = ground (arith, memchr-nowhere b xs hs)

read_step-name :
    (after : ℕ) (k : Key) (rest : List ℕ)
    → IsName k
    → read_step after b'[' (k ++ b']' ∷ rest) ≡ hash_step k rest
unfolding read_step
read_step-name after [] rest h = absurd h
read_step-name after (d ∷ ds) rest (h, hs) = ground (arith, memchr-here b']' ds rest hs)

-- The loop that looks ahead, from inside a name to the bracket that ends it.
look_ahead-name :
    (after : ℕ) (n : Node) (start taken : List ℕ) (c : ℕ) (xs rest : List ℕ)
    → is_nil n ≡ false
    → opens_name after start ≡ true
    → All (λ d. d ≢ b']') xs
    → look_ahead after n start taken (c ∷ xs ++ b']' ∷ rest)
      ≡ (check_hash n >>= λ es. look_ahead after (aref es (tail (taken ++ c ∷ xs))) rest [] rest)
unfolding look_ahead
look_ahead-name after n start taken c [] rest some_n opens h = rw (some_n, opens) refl
look_ahead-name after n start taken c (x ∷ xs) rest some_n opens (h, hs) =
    let other : (x == b']') ≡ false = ground arith in
    rw (some_n, opens, other)
      (look_ahead-name after n start (taken ++ c ∷ []) x xs rest some_n opens hs
        ∙ ap (λ k. check_hash n >>= λ es. look_ahead after (aref es (tail k)) rest [] rest)
            (append_assoc taken (c ∷ []) (x ∷ xs)))

opens_name-written :
    (after : ℕ) (k : Key) (rest : List ℕ)
    → IsName k
    → opens_name after (b'[' ∷ k ++ b']' ∷ rest) ≡ true
opens_name-written after [] rest h = absurd h
opens_name-written after (d ∷ ds) rest (h, hs) = ground arith

tail_name : (k : Key) → IsName k → All (λ d. d ≢ b']') k
tail_name [] h = tt
tail_name (d ∷ ds) h = h

check_hash-cong :
    (n : Node) (f g : Entries → Result Node)
    → ((es : Entries) → f es ≡ g es)
    → (check_hash n >>= f) ≡ (check_hash n >>= g)
check_hash-cong nil f g h = refl
check_hash-cong (string s) f g h = refl
check_hash-cong (uploaded_file u) f g h = refl
check_hash-cong (array ns) f g h = refl
check_hash-cong (hash es) f g h = h es

leads-name :
    (n : Node) (k : Key) (ss : List Segment)
    → is_nil n ≡ false
    → leads n (name k ∷ ss) ≡ (check_hash n >>= λ es. leads (aref es k) ss)
leads-name n k ss e = rw e refl

look_ahead-leads :
    (after : ℕ) (n : Node) (ss : List Segment)
    → All IsSegment ss
    → look_ahead after n (written ss) [] (written ss) ≡ leads n ss
unfolding look_ahead
look_ahead-leads after n [] h = refl
look_ahead-leads after n (index ∷ ss) h = elim (Bool-cases (is_nil n)) [
  | inl e ↦ rw e refl
  | inr e ↦ rw e refl
]
look_ahead-leads after n (name [] ∷ ss) (h, hs) = absurd h
look_ahead-leads after n (name (d ∷ ds) ∷ ss) (h, hs) = elim (Bool-cases (is_nil n)) [
  | inl e ↦ rw e refl
  | inr e ↦
      look_ahead-name after n (written (name (d ∷ ds) ∷ ss)) [] b'[' (d ∷ ds) (written ss) e
        (opens_name-written after (d ∷ ds) (written ss) h) h
      ∙ check_hash-cong n _ _ (λ es. look_ahead-leads after (aref es (d ∷ ds)) ss hs)
      ∙ sym (leads-name n (d ∷ ds) ss e)
]

nested_in-leads :
    (after : ℕ) (n : Node) (ss : List Segment)
    → All IsSegment ss
    → nested_in after n (written ss) ≡ leads_in n ss
nested_in-leads after nil ss h = refl
nested_in-leads after (string s) ss h = refl
nested_in-leads after (uploaded_file f) ss h = refl
nested_in-leads after (array ns) ss h = refl
nested_in-leads after (hash es) ss h = look_ahead-leads after (hash es) ss h

module _ {A B : Type 0} where
  bind-cong : (m : Result A) (f g : A → Result B) → ((a : A) → f a ≡ g a) → (m >>= f) ≡ (m >>= g)
  bind-cong (ok a) f g h = h a
  bind-cong (raises e) f g h = refl

pick_from-choose :
    (after : ℕ) (o : Option Node) (k : Key) (ss : List Segment)
    → All IsSegment ss
    → pick_from after k (written ss) o ≡ choose o k ss
pick_from-choose after none k ss h = refl
pick_from-choose after (some l) k ss h = bind-cong (check_hash l) _ _ λ es.
    ap (λ m. m >>= λ n. ok (if is_nil n then some es else none))
      (nested_in-leads after (aref es k) ss h)

module _ (after : ℕ) (value : Node) where
  mutual
    unfolding at_entry insert_at read_step pick_last

    entry_written :
        (left : ℕ) (ss : List Segment) (old : Node)
        → All IsSegment ss
        → length ss ≤ left
        → at_entry after value left (written ss) old ≡ insert_at value ss old
    entry_written left [] old h le = refl
    entry_written zero (s ∷ ss) old h le = absurd (omega arith)
    entry_written (suc left) (index ∷ ss) old (h, hs) le =
        bind-cong (array_of old) _ _
          λ arr. ap (λ m. m >>= λ ns. ok (array ns)) (array_written left ss arr hs (omega arith))
    entry_written (suc left) (name k ∷ ss) old (h, hs) le =
        rw (read_step-name after k (written ss) h) (
          bind-cong (hash_of old) _ _ λ es.
            ap (λ m. m >>= λ n. ok (hash (aset es k n)))
              (entry_written left ss (aref es k) hs (omega arith)))

    array_written :
        (left : ℕ) (ss : List Segment) (arr : Nodes)
        → All IsSegment ss
        → length ss ≤ left
        → in_array after value left (written ss) arr ≡ insert_in value ss arr
    array_written left [] arr h le = refl
    array_written zero (s ∷ ss) arr h le = absurd (omega arith)
    array_written (suc left) (index ∷ ss) arr (h, hs) le =
        ap (λ m. m >>= λ ns. ok (push arr (array ns)))
          (array_written left ss no_nodes hs (omega arith))
    array_written (suc left) (name k ∷ ss) arr (h, hs) le =
        rw (read_step-name after k (written ss) h, pick_from-choose after (last arr) k ss hs)
          (bind-cong (choose (last arr) k ss) _ _ λ o.
            ap (λ m. m >>= λ n. ok (put_hash arr o (aset (entries_of o) k n)))
              (entry_written left ss (aref (entries_of o) k) hs (omega arith)))

  pub at_entry-written :
      (left : ℕ) (ss : List Segment) (old : Node)
      → All IsSegment ss
      → length ss ≤ left
      → at_entry after value left (written ss) old ≡ insert_at value ss old
  at_entry-written = entry_written

  mutual
    unfolding at_entry read_step pick_last

    entry_fails :
        (left : ℕ) (ss : List Segment) (old : Node)
        → All IsSegment ss
        → left < length ss
        → Ensures (λ _. ⊥) (at_entry after value left (written ss) old)
    entry_fails left [] old h lt = absurd (omega arith)
    entry_fails zero (index ∷ ss) old h lt = tt
    entry_fails zero (name k ∷ ss) old h lt = tt
    entry_fails (suc left) (index ∷ ss) old (h, hs) lt =
        Ensures-bind (λ _. Unit {0}) _ (array_of old) _ (Ensures-any (array_of old))
          λ arr _.
            Ensures-bind (λ _. ⊥) _ (in_array after value left (written ss) arr) _
              (array_fails left ss arr hs (omega arith)) λ ns no_way. no_way
    entry_fails (suc left) (name k ∷ ss) old (h, hs) lt =
        rw (read_step-name after k (written ss) h) (
          Ensures-bind (λ _. Unit {0}) _ (hash_of old) _ (Ensures-any (hash_of old))
            λ es _.
              Ensures-bind (λ _. ⊥) _ (at_entry after value left (written ss) (aref es k)) _
                (entry_fails left ss (aref es k) hs (omega arith)) λ n no_way. no_way)

    array_fails :
        (left : ℕ) (ss : List Segment) (arr : Nodes)
        → All IsSegment ss
        → left < length ss
        → Ensures (λ _. ⊥) (in_array after value left (written ss) arr)
    array_fails left [] arr h lt = absurd (omega arith)
    array_fails zero (index ∷ ss) arr h lt = tt
    array_fails zero (name k ∷ ss) arr h lt = tt
    array_fails (suc left) (index ∷ ss) arr (h, hs) lt =
        Ensures-bind (λ _. ⊥) _ (in_array after value left (written ss) no_nodes) _
          (array_fails left ss no_nodes hs (omega arith)) λ ns no_way. no_way
    array_fails (suc left) (name k ∷ ss) arr (h, hs) lt =
        rw (read_step-name after k (written ss) h) (
          Ensures-bind (λ _. Unit {0}) _ (pick_last after arr k (written ss)) _
            (Ensures-any (pick_last after arr k (written ss)))
            λ o _.
              Ensures-bind (λ _. ⊥) _
                (at_entry after value left (written ss) (aref (entries_of o) k)) _
                (entry_fails left ss (aref (entries_of o) k) hs (omega arith)) λ n no_way. no_way)

  pub at_entry-fails :
      (left : ℕ) (ss : List Segment) (old : Node)
      → All IsSegment ss
      → left < length ss
      → Ensures (λ _. ⊥) (at_entry after value left (written ss) old)
  at_entry-fails = entry_fails
