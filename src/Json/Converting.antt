-- ===== src/Json/Converting.antt =====
-- Whole documents through `iodine_json_convert` (ext/iodine/iodine_json.c).
use iodine.Base.{
  ◌↔◌, arith, ℕ, ◌≡◌, refl, ap, ◌∙◌, Bool, true, false, List, [], ◌∷◌, ◌++◌, append-nil, ltb,
  Bool-cases, inl, inr, ◌==◌, ◌||◌, not,
}
use iodine.Json.{
  container, Call, add, drop, on_end_array, on_end_object, is_null, Outcome, Parser, new_parser,
  with_calls, finish, answer, top_calls, convert, run, callback, malformed, parsed, raised,
}
use iodine.Json.Tree.{
  Json, null, true_, false_, number, real, text, list, object_, Items, nothing, item, Members, bare,
  member, events, value_of, cells_of, calls_of, calls_of_items, calls_of_members,
}
use iodine.Json.Building.{run_items, run_members}

-- Each object that is added is removed by the next call.
abbrev pub IsPaired : List Call → Type 0
IsPaired [] = Unit
IsPaired (add v ∷ drop w ∷ calls) = (v ≡ w) × IsPaired calls
IsPaired calls = ⊥

pub IsPaired-append : (xs ys : List Call) → IsPaired xs → IsPaired ys → IsPaired (xs ++ ys)
IsPaired-append [] ys p q = q
IsPaired-append (add v ∷ drop w ∷ xs) ys (same, p) q = (same, IsPaired-append xs ys p q)
IsPaired-append (add v ∷ []) ys p q = absurd p
IsPaired-append (add v ∷ add w ∷ xs) ys p q = absurd p
IsPaired-append (drop v ∷ xs) ys p q = absurd p

module _ (unescape : List ℕ → List ℕ) (symbolize : Bool) where
  mutual
    unfolding calls_of

    calls_of-IsPaired : (t : Json) → IsPaired (calls_of unescape symbolize t)
    calls_of-IsPaired null = tt
    calls_of-IsPaired true_ = tt
    calls_of-IsPaired false_ = tt
    calls_of-IsPaired (number i) = tt
    calls_of-IsPaired (real f) = tt
    calls_of-IsPaired (text t) = tt
    calls_of-IsPaired (list items) = items-IsPaired items
    calls_of-IsPaired (object_ members) = members-IsPaired members

    pub items-IsPaired : (items : Items) → IsPaired (calls_of_items unescape symbolize items)
    items-IsPaired nothing = tt
    items-IsPaired (item t items) =
        IsPaired-append (calls_of unescape symbolize t) _ (calls_of-IsPaired t)
          (items-IsPaired items)

    pub members-IsPaired :
        (members : Members) → IsPaired (calls_of_members unescape symbolize members)
    members-IsPaired bare = tt
    members-IsPaired (member k t members) = (
      refl,
      IsPaired-append (calls_of unescape symbolize t) _ (calls_of-IsPaired t)
          (members-IsPaired members),
    )

  abbrev is_hash_top : Json → Bool
  is_hash_top (object_ members) = true
  is_hash_top t = false

  -- What is left of the parser at the end of a document.
  abbrev ended : Json → Parser
  ended t = record (new_parser symbolize) {
    cells = cells_of unescape symbolize t 0;
    top = value_of unescape symbolize t 0;
    is_hash = is_hash_top t;
  }

  -- The whole of a document.
  run_document :
      (t : Json)
      → run unescape (events t) (new_parser symbolize)
        ≡ (add (value_of unescape symbolize t 0) ∷ calls_of unescape symbolize t, ended t)
  unfolding run callback events cells_of calls_of
  run_document null = refl
  run_document true_ = refl
  run_document false_ = refl
  run_document (number i) = refl
  run_document (real f) = refl
  run_document (text t) = elim (Bool-cases symbolize) [
    | inl on ↦ rw on refl
    | inr off ↦ rw off refl
  ]
  run_document (list items) =
      ap (with_calls (add (container 0) ∷ []))
        (run_items unescape symbolize items 1 (on_end_array ∷ []) [] [] [] (container 0 ∷ []) refl)
      ∙ rw (append-nil (calls_of_items unescape symbolize items)) refl
  run_document (object_ members) =
      ap (with_calls (add (container 0) ∷ [])) (
        run_members unescape symbolize members 1 (on_end_object ∷ []) [] [] [] (container 0 ∷ [])
          refl)
      ∙ rw (append-nil (calls_of_members unescape symbolize members)) refl

  false_of_null : (t : Json) → is_null (value_of unescape symbolize t 0) ≡ true → t ≡ false_
  false_of_null null h = cc
  false_of_null true_ h = cc
  false_of_null false_ h = refl
  false_of_null (number i) h = cc
  false_of_null (real f) h = cc
  false_of_null (text t) h = cc
  false_of_null (list items) h = cc
  false_of_null (object_ members) h = cc

  module _ (parser : List ℕ → Outcome) (str : List ℕ) (t : Json)
      (announced : (parser str).events ≡ events t) (some_bytes : ltb 0 (parser str).consumed ≡ true)
      (complete : (parser str).depth ≡ 0) where
    is_whole : ((parser str).consumed == 0 || not ((parser str).depth == 0)) ≡ false
    is_whole = ground (arith, some_bytes, complete)

    converted : convert unescape parser str symbolize ≡ (
      (add (value_of unescape symbolize t 0) ∷ calls_of unescape symbolize t)
          ++ top_calls (value_of unescape symbolize t 0),
      answer (cells_of unescape symbolize t 0) (value_of unescape symbolize t 0),
    )
    unfolding convert
    converted =
        ap (λ es. finish (parser str) (run unescape es (new_parser symbolize))) announced
        ∙ ap (finish (parser str)) (run_document t)
        ∙ rw (is_whole, append-nil (calls_of unescape symbolize t)) refl

    -- If the parser announces a document that is not the word `false`, then `convert` answers the
    -- objects of this document, with every String under its place, each key a Symbol if that was
    -- asked for, and the last of the values with the same key.
    pub convert_lem :
        is_null (value_of unescape symbolize t 0) ≡ false
        → (convert unescape parser str symbolize).1
          ≡ parsed (cells_of unescape symbolize t 0) (value_of unescape symbolize t 0)
    convert_lem some_value = ap (λ r. r.1) converted ∙ rw some_value refl

    -- In the storage, `convert` holds the whole document from its first callback to its last line,
    -- and each key only until its value comes.
    pub convert-holds :
        is_null (value_of unescape symbolize t 0) ≡ false
        → (keys : List Call) × ((convert unescape parser str symbolize).0
            ≡ add (value_of unescape symbolize t 0) ∷ keys
              ++ drop (value_of unescape symbolize t 0) ∷ [])
          × IsPaired keys
    convert-holds some_value = (
      calls_of unescape symbolize t,
      ap (λ r. r.0) converted ∙ rw some_value refl,
      calls_of-IsPaired t,
    )

    -- The only document that `convert` refuses is the word `false` alone, which it takes for
    -- malformed.
    pub convert-malformed_iff :
        (convert unescape parser str symbolize).1 ≡ raised malformed ↔ t ≡ false_
    convert-malformed_iff = (
      λ refused. elim (Bool-cases (is_null (value_of unescape symbolize t 0))) [
        | inl null_value ↦ false_of_null t null_value
        | inr some_value ↦ let whole = convert_lem some_value in cc
      ],
      λ h.
          ap (λ r. r.1) converted
          ∙ ap (λ d. answer (cells_of unescape symbolize d 0) (value_of unescape symbolize d 0)) h,
    )
