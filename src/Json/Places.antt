-- ===== src/Json/Places.antt =====
-- The container that `iodine_json_parser_s` is filling (ext/iodine/iodine_json.c), and what one more
-- object does to it.
use iodine.Base.{
  ℕ, suc, ◌+◌, ◌≡◌, refl, sym, ap, Bool, true, false, List, [], ◌∷◌, ◌++◌, append_assoc, some,
  length, get_elem?, length-append,
}
use iodine.Json.{
  Value, no, container, Cell, hash, array, Call, drop, aset, is_null, Parser, alter, add2parser,
  with_calls, start_object, start_array, retyped, pop,
}

-- The container that is being filled, a Hash with the key that waits for its value.
pub data Place : Type 0 where
  array_at : List Value → Place
  hash_at : List (Value × Value) → Value → Place

abbrev pub cell_at : Place → Cell
cell_at (array_at vs) = array vs
cell_at (hash_at es k) = hash es

abbrev pub is_hash_at : Place → Bool
is_hash_at (array_at vs) = false
is_hash_at (hash_at es k) = true

abbrev pub key_at : Place → Value
key_at (array_at vs) = no
key_at (hash_at es k) = k

abbrev pub put : Place → Value → Place
put (array_at vs) v = array_at (vs ++ v ∷ [])
put (hash_at es k) v = hash_at (aset es k v) no

abbrev pub put_calls : Place → List Call
put_calls (array_at vs) = []
put_calls (hash_at es k) = drop k ∷ []

abbrev pub IsReady : Place → Type 0
IsReady (array_at vs) = Unit
IsReady (hash_at es k) = is_null k ≡ false

pub key_at-put : (place : Place) (v : Value) → key_at (put place v) ≡ no
key_at-put (array_at vs) v = refl
key_at-put (hash_at es k) v = refl

pub alter-append :
    (xs ys : List Cell) (c : Cell) (f : Cell → Cell)
    → alter (xs ++ c ∷ ys) (length xs) f ≡ xs ++ f c ∷ ys
alter-append [] ys c f = refl
alter-append (x ∷ xs) ys c f = ap (◌∷◌ x) (alter-append xs ys c f)

get_elem-append : (xs ys : List Cell) (c : Cell) → get_elem? (xs ++ c ∷ ys) (length xs) ≡ some c
get_elem-append [] ys c = refl
get_elem-append (x ∷ xs) ys c = get_elem-append xs ys c

pub with_calls-append :
    (xs ys : List Call) (r : List Call × Parser)
    → with_calls xs (with_calls ys r) ≡ with_calls (xs ++ ys) r
with_calls-append xs ys (zs, p) = rw (append_assoc xs ys zs) refl

module _ (symbolize : Bool) where
  abbrev pub in_place : List Cell → Place → List Cell → List Value → Parser
  in_place base place rest stack = record {
    cells = base ++ cell_at place ∷ rest;
    key = key_at place;
    top = container (length base);
    target = no;
    stack = stack;
    is_hash = is_hash_at place;
    symbolize = symbolize;
  }

  pub add2parser-put :
      (o : Value) (base : List Cell) (place : Place) (rest : List Cell) (stack : List Value)
      → IsReady place
      → add2parser o (in_place base place rest stack)
        ≡ (put_calls place, in_place base (put place o) rest stack)
  unfolding add2parser
  add2parser-put o base (array_at vs) rest stack ready =
      rw (alter-append base rest (array vs) _) refl
  add2parser-put o base (hash_at es k) rest stack ready =
      rw (ready, alter-append base rest (hash es) _) refl

  pub started_array :
      (n : ℕ) (base : List Cell) (place : Place) (rest : List Cell) (stack : List Value)
      → IsReady place
      → n ≡ length base + suc (length rest)
      → start_array (in_place base place rest stack)
        ≡ some (
          put_calls place,
          in_place
              (base ++ cell_at (put place (container n)) ∷ rest)
              (array_at [])
              []
              (container (length base) ∷ stack),
        )
  unfolding start_array
  started_array n base place rest stack ready at =
      rw
        (
          append_assoc base (cell_at place ∷ rest) (array [] ∷ []),
          length-append base (cell_at place ∷ rest),
          length-append base (cell_at (put place (container n)) ∷ rest),
          sym at,
          add2parser-put (container n) base place (rest ++ array [] ∷ []) stack ready,
          append_assoc base (cell_at (put place (container n)) ∷ rest) (array [] ∷ []),
          key_at-put place (container n),
        )
        refl

  pub started_object :
      (n : ℕ) (base : List Cell) (place : Place) (rest : List Cell) (stack : List Value)
      → IsReady place
      → n ≡ length base + suc (length rest)
      → start_object (in_place base place rest stack) ≡ (
        put_calls place,
        in_place
            (base ++ cell_at (put place (container n)) ∷ rest)
            (hash_at [] no)
            []
            (container (length base) ∷ stack),
      )
  unfolding start_object
  started_object n base place rest stack ready at =
      rw
        (
          append_assoc base (cell_at place ∷ rest) (hash [] ∷ []),
          length-append base (cell_at place ∷ rest),
          length-append base (cell_at (put place (container n)) ∷ rest),
          sym at,
          add2parser-put (container n) base place (rest ++ hash [] ∷ []) stack ready,
          append_assoc base (cell_at (put place (container n)) ∷ rest) (hash [] ∷ []),
          key_at-put place (container n),
        )
        refl

  pub ended :
      (v : Value) (base : List Cell) (place : Place) (rest : List Cell) (stack : List Value)
      (inner : Place) (more : List Cell)
      → key_at inner ≡ no
      → retyped (
          pop (
            in_place
              (base ++ cell_at (put place v) ∷ rest)
              inner
              more
              (container (length base) ∷ stack)))
        ≡ in_place base (put place v) (rest ++ cell_at inner ∷ more) stack
  ended v base (array_at vs) rest stack inner more none_waits =
      rw
        (
          none_waits,
          append_assoc base (cell_at (put (array_at vs) v) ∷ rest) (cell_at inner ∷ more),
          get_elem-append base (rest ++ cell_at inner ∷ more) (cell_at (put (array_at vs) v)),
        )
        refl
  ended v base (hash_at es k) rest stack inner more none_waits =
      rw
        (
          none_waits,
          append_assoc base (cell_at (put (hash_at es k) v) ∷ rest) (cell_at inner ∷ more),
          get_elem-append base (rest ++ cell_at inner ∷ more) (cell_at (put (hash_at es k) v)),
        )
        refl
