-- ===== src/Mustache/Lookup.antt =====
-- The lookup of dotted names (ext/iodine/iodine_mustache.c).
use iodine.Base.{
  arith, ℕ, zero, suc, ◌<◌, ◌≤◌, ◌≡◌, refl, sym, ap, ◌∙◌, subst, true, false, List, [], ◌∷◌, ◌++◌,
  Option, none, some, inl, inr, Bool-cases, if◌then◌else◌, length, length-append, ◌==◌,
}
use iodine.Ruby.{Value, qnil, is_nil, is_null}
use iodine.Mustache.{
  World, find_obj_absolute, find_obj_tree, find_obj, descend, deeper, from_first, cut, cons_first,
}

-- A list of names with dots between them.
abbrev pub join : List ℕ → List (List ℕ) → List ℕ
join s [] = s
join s (t ∷ ts) = s ++ b'.' ∷ join t ts

abbrev pub IsPlain : List ℕ → Type 0
IsPlain s = cut s ≡ none

abbrev pub IsName : List ℕ → Type 0
IsName s = IsPlain s × (0 < length s)

abbrev pub AreNames : List (List ℕ) → Type 0
AreNames [] = Unit
AreNames (s ∷ ss) = IsName s × AreNames ss

cut_dot : (b : ℕ) (s : List ℕ) → (b == b'.') ≡ true → cut (b ∷ s) ≡ some ([], s)
cut_dot b s dot = rw dot refl

cut_other : (b : ℕ) (s : List ℕ) → (b == b'.') ≡ false → cut (b ∷ s) ≡ cons_first b (cut s)
cut_other b s other = rw other refl

cons_first-none : (b : ℕ) (o : Option (List ℕ × List ℕ)) → cons_first b o ≡ none → o ≡ none
cons_first-none b none h = refl
cons_first-none b (some (a, c)) h = cc

cut-join : (s more : List ℕ) → IsPlain s → cut (s ++ b'.' ∷ more) ≡ some (s, more)
cut-join [] more plain = refl
cut-join (b ∷ s) more plain = elim (Bool-cases (b == b'.')) [
  | inl dot ↦ let found = cut_dot b s dot in cc
  | inr other ↦
      let tail : IsPlain s = cons_first-none b (cut s) (sym (cut_other b s other) ∙ plain) in
      cut_other b (s ++ b'.' ∷ more) other ∙ ap (cons_first b) (cut-join s more tail)
]

-- What is behind the first dot is shorter.
abbrev IsShorter : ℕ → Option (List ℕ × List ℕ) → Type 0
IsShorter n none = Unit
IsShorter n (some (first, after)) = length after < n

cons_first-IsShorter :
    (b n : ℕ) (o : Option (List ℕ × List ℕ)) → IsShorter n o → IsShorter (suc n) (cons_first b o)
cons_first-IsShorter b n none h = tt
cons_first-IsShorter b n (some (first, after)) h = omega (arith, h)

IsShorter-le : (n m : ℕ) (o : Option (List ℕ × List ℕ)) → n ≤ m → IsShorter n o → IsShorter m o
IsShorter-le n m none le h = tt
IsShorter-le n m (some (first, after)) le h = omega (arith, le, h)

cut-IsShorter : (name : List ℕ) → IsShorter (length name) (cut name)
cut-IsShorter [] = tt
cut-IsShorter (b ∷ s) = elim (Bool-cases (b == b'.')) [
  | inl dot ↦ subst (IsShorter (suc (length s))) (sym (cut_dot b s dot)) (omega arith)
  | inr other ↦
      subst (IsShorter (suc (length s))) (sym (cut_other b s other))
        (cons_first-IsShorter b (length s) (cut s) (cut-IsShorter s))
]

module _ (w : World) where
  -- Each name is looked up in what the one before it gave, as far as there is something.
  abbrev pub dig : Value → List (List ℕ) → Value
  unfolding find_obj_absolute
  dig o [] = o
  dig o (s ∷ ss) = let v = find_obj_absolute w o s in if is_nil v then qnil else dig v ss

  module _ (fuel : ℕ)
      (ends : (tmp : Value) (name : List ℕ)
        → length name < fuel
        → (v : Value) × (descend w fuel tmp name ≡ some v)) where
    deeper-ends :
        (tmp : Value) (o : Option (List ℕ × List ℕ))
        → IsShorter fuel o
        → (v : Value) × (deeper w tmp o (λ next after. descend w fuel next after) ≡ some v)
    unfolding deeper
    deeper-ends tmp none h = (qnil, refl)
    deeper-ends tmp (some (first, after)) h =
        elim (Bool-cases (is_nil (find_obj_absolute w tmp first))) [
          | inl no_value ↦ (qnil, rw no_value refl)
          | inr value ↦
              let (v, found) = ends (find_obj_absolute w tmp first) after h in (v, rw value found)
        ]

  -- The loop ends, with as much fuel as the name has characters, and one more.
  descend-ends :
      (fuel : ℕ) (tmp : Value) (name : List ℕ)
      → length name < fuel
      → (v : Value) × (descend w fuel tmp name ≡ some v)
  unfolding descend
  descend-ends zero tmp name h = absurd (omega (arith, h))
  descend-ends (suc fuel) tmp name h = elim (Bool-cases (is_nil (find_obj_absolute w tmp name))) [
    | inl no_value ↦
        let (v, found) =
          deeper-ends fuel (λ t n small. descend-ends fuel t n small) tmp (cut name)
            (IsShorter-le (length name) fuel (cut name) (omega (arith, h)) (cut-IsShorter name)) in
        (v, rw no_value found)
    | inr value ↦ (find_obj_absolute w tmp name, rw value refl)
  ]

  first-ends :
      (sections : List Value) (o : Option (List ℕ × List ℕ))
      → (v : Value) × (from_first w sections o ≡ some v)
  unfolding from_first
  first-ends sections none = (qnil, refl)
  first-ends sections (some (first, after)) =
      elim (Bool-cases (is_null (find_obj_tree w sections first))) [
        | inl null_value ↦ (qnil, rw null_value refl)
        | inr value ↦
            let (v, found) =
              descend-ends (suc (length after)) (find_obj_tree w sections first) after
                (omega arith) in
            (v, rw value found)
      ]

  -- A lookup ends for every name: the fuel in it is enough.
  pub find_obj-ends :
      (sections : List Value) (name : List ℕ) → (v : Value) × (find_obj w sections name ≡ some v)
  unfolding find_obj
  find_obj-ends sections name = elim (Bool-cases (is_nil (find_obj_tree w sections name))) [
    | inl no_value ↦ let (v, found) = first-ends sections (cut name) in (v, rw no_value found)
    | inr value ↦ (find_obj_tree w sections name, rw value refl)
  ]

  module _
      (undotted : (o : Value) (s more : List ℕ)
        → 0 < length s
        → find_obj_absolute w o (s ++ b'.' ∷ more) ≡ qnil) where
    tree-undotted :
        (sections : List Value) (s more : List ℕ)
        → 0 < length s
        → find_obj_tree w sections (s ++ b'.' ∷ more) ≡ qnil
    unfolding find_obj_tree
    tree-undotted [] s more long = refl
    tree-undotted (o ∷ parents) s more long =
        rw (undotted o s more long) (tree-undotted parents s more long)

    descend-dig :
        (fuel : ℕ) (tmp : Value) (s : List ℕ) (ss : List (List ℕ))
        → IsName s
        → AreNames ss
        → length (join s ss) < fuel
        → descend w fuel tmp (join s ss) ≡ some (dig tmp (s ∷ ss))
    unfolding descend
    descend-dig zero tmp s ss (plain, long) plains h = absurd (omega (arith, h))
    descend-dig (suc fuel) tmp s [] (plain, long) plains h =
        elim (Bool-cases (is_nil (find_obj_absolute w tmp s))) [
          | inl no_value ↦ rw (no_value, plain) refl
          | inr value ↦ rw value refl
        ]
    descend-dig (suc fuel) tmp s (t ∷ ts) (plain, long) (plain_t, plains) h =
        let small : length (join t ts) < fuel =
          omega (arith, h, length-append s (b'.' ∷ join t ts)) in
        rw (undotted tmp s (join t ts) long, cut-join s (join t ts) plain)
          (elim (Bool-cases (is_nil (find_obj_absolute w tmp s))) [
            | inl no_value ↦ rw no_value refl
            | inr value ↦
                rw value (descend-dig fuel (find_obj_absolute w tmp s) t ts plain_t plains small)
          ])

    -- If nothing is found under a name with a dot behind other characters, a dotted name is what its parts give one after the
    -- other, where the first part is looked up in the section and its parents. If that gives false,
    -- the whole is nil; if it gives nil, the other parts are looked up in nil all the same.
    pub find_obj-join :
        (sections : List Value) (s t : List ℕ) (ts : List (List ℕ))
        → IsName s
        → IsName t
        → AreNames ts
        → find_obj w sections (join s (t ∷ ts))
          ≡ some (
              if is_null (find_obj_tree w sections s)
              then qnil
              else dig (find_obj_tree w sections s) (t ∷ ts))
    unfolding find_obj
    find_obj-join sections s t ts (plain, long) plain_t plains =
        rw (tree-undotted sections s (join t ts) long, cut-join s (join t ts) plain)
          (elim (Bool-cases (is_null (find_obj_tree w sections s))) [
            | inl null_value ↦ rw null_value refl
            | inr value ↦ rw value (
                descend-dig (suc (length (join t ts))) (find_obj_tree w sections s) t ts plain_t
                  plains (omega arith))
          ])
