-- ===== src/Mustache/Sections.antt =====
-- The repetitions of sections, and the value true as an argument (ext/iodine/iodine_mustache.c).
use iodine.Base.{
  ℕ, suc, zero, ◌<◌, ◌^◌, arith, ◌≡◌, refl, ap, sym, subst, ◌∙◌, ◌⊎◌, inl, inr, Bool, false, ◌&&◌,
  List, [], ◌∷◌, ◌++◌, Option, none, some, length, length-append, get_elem?, Bool-cases,
  Option-cases, if◌then◌else◌,
}
use iodine.Ruby.{Value, qtrue, is_falsy}
use iodine.Mustache.{
  World, Output, find_obj, on_section_test, on_section_start, on_arg, responds, write_text,
  lambda_text, section_text, raw, escaped, true_word, call_word, to_s_word,
}

get_elem-append :
    (before : List Value) (v : Value) (vs : List Value)
    → get_elem? (before ++ v ∷ vs) (length before) ≡ some v
get_elem-append [] v vs = refl
get_elem-append (b ∷ before) v vs = get_elem-append before v vs

append-shift :
    (before : List Value) (v : Value) (vs : List Value)
    → (before ++ v ∷ []) ++ vs ≡ before ++ (v ∷ vs)
append-shift [] v vs = refl
append-shift (b ∷ before) v vs = ap (◌∷◌ b) (append-shift before v vs)

abbrev pub all_some : List Value → List (Option Value)
all_some [] = []
all_some (v ∷ vs) = some v ∷ all_some vs

module _ (w : World) where
  open w use {is_hash, array, method}

  abbrev pub once_or_each : Bool → Value → Value → Option (List Value) → List Value
  once_or_each callable udata o (some vs) = vs
  once_or_each callable udata o none =
      if callable && responds w (method o call_word)
      then []
      else (if is_hash o then o else udata) ∷ []

  -- The data of a section's repetitions: none if the value is false or nil; the elements of an
  -- Array; none if the value is called, as a lambda that writes the section by itself; a Hash, which
  -- is the data once; and for any other value the data of the parent, once.
  abbrev pub repetitions : Bool → Value → Value → List Value
  repetitions callable udata o = if is_falsy o then [] else once_or_each callable udata o (array o)

  -- What on_section_start gives for a number of indices from the first on.
  abbrev pub started : List Value → Value → List ℕ → ℕ → ℕ → List (Option Value)
  unfolding on_section_start
  started sections udata name index zero = []
  started sections udata name index (suc n) =
      on_section_start w sections udata name index ∷ started sections udata name (suc index) n

  module _ (sections : List Value) (name : List ℕ) (udata o : Value)
      (found : find_obj w sections name ≡ some o) where
    started-elements :
        (before vs all : List Value)
        → all ≡ before ++ vs
        → array o ≡ some all
        → started sections udata name (length before) (length vs) ≡ all_some vs
    unfolding on_section_start
    started-elements before [] all split elements = refl
    started-elements before (v ∷ vs) all split elements =
        let here : on_section_start w sections udata name (length before) ≡ some v =
          rw (found, elements, split, get_elem-append before v vs) refl in
        let next : length (before ++ v ∷ []) ≡ suc (length before) =
          omega (arith, length-append before (v ∷ [])) in
        let rest =
          started-elements (before ++ v ∷ []) vs all (split ∙ sym (append-shift before v vs))
            elements in
        rw (here, sym next, rest) refl

  -- A section, as long as it has less than 2^31 repetitions: mustache_on_section_test gives their
  -- number and writes nothing unless there are none, and mustache_on_section_start, for the indices
  -- from 0 on, gives their data in order.
  pub section-repetitions :
      (sections : List Value) (name : List ℕ) (udata o : Value) (callable : Bool) (txt : List ℕ)
      → find_obj w sections name ≡ some o
      → length (repetitions callable udata o) < 2 ^ 31
      → (written : List Output) × (on_section_test w sections name callable txt
          ≡ some (length (repetitions callable udata o), written))
        × ((written ≡ []) ⊎ (repetitions callable udata o ≡ []))
        × (started sections udata name 0 (length (repetitions callable udata o))
            ≡ all_some (repetitions callable udata o))
  unfolding on_section_test on_section_start
  section-repetitions sections name udata o callable txt found small =
      elim (Bool-cases (is_falsy o)) [
        | inl falsy ↦ ([], rw (found, falsy) refl, inl refl, rw falsy refl)
        | inr truthy ↦ elim (Option-cases (array o)) [
          | inr (vs, elements) ↦
              let same : repetitions callable udata o ≡ vs = rw (truthy, elements) refl in
              let few : length vs < 2 ^ 31 = subst (λ l. length l < 2 ^ 31) same small in
              (
                [],
                rw (found, truthy, elements) (ap (λ n. some (n, [])) (omega (arith, few))),
                inl refl,
                rw (truthy, elements)
                    (started-elements sections name udata o found [] vs vs refl elements),
              )
          | inl single ↦ elim (Bool-cases (callable && responds w (method o call_word))) [
            | inl called ↦ (
              write_text w false (World.string w (lambda_text w o (section_text w txt))),
              rw (found, truthy, single, called) refl,
              inr (rw (truthy, single, called) refl),
              rw (truthy, single, called) refl,
            )
            | inr once ↦ (
              [],
              rw (found, truthy, single, once) refl,
              inl refl,
              rw (truthy, single, once, found, single) refl,
            )
          ]
        ]
      ]

  -- If true is no String, does not respond to `call` and has the `to_s` "true", then an argument
  -- that is true writes its word twice.
  pub on_arg-true :
      (sections : List Value) (name : List ℕ) (escape : Bool) (t : Value)
      → find_obj w sections name ≡ some qtrue
      → World.string w qtrue ≡ none
      → World.method w qtrue call_word ≡ none
      → World.method w qtrue to_s_word ≡ some t
      → World.string w t ≡ some true_word
      → on_arg w sections name escape ≡ some (raw true_word ∷ escaped escape true_word ∷ [])
  unfolding on_arg
  on_arg-true sections name escape t found no_string no_call to_s text =
      rw (found, no_string, no_call, no_string, to_s, text) refl
