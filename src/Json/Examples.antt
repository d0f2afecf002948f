-- ===== src/Json/Examples.antt =====
-- The document `{"a":[null,"b"]}`, and the document `{"a":[null` that is cut off.
use iodine.Base.{ℕ, ◌≡◌, refl, true, false, List, [], ◌∷◌, ◌++◌}
use iodine.Json.{
  Value, nil, string, symbol, container, hash, array, Call, add, drop, Outcome, Event, convert,
  parsed, raised, malformed, key_calls,
}
use iodine.Json.Tree.{
  Json, null, text, list, object_, nothing, item, bare, member, events, value_of, cells_of,
}
use iodine.Json.Converting.{IsPaired, convert_lem, convert-holds}
use iodine.Json.Cutting.{Cut, hash_in, array_cut, first, events_inside, key_adds, convert-cut}

abbrev same : List ℕ → List ℕ
same t = t

abbrev document : Json
document = object_ (member (b'a' ∷ []) (list (item null (item (text (b'b' ∷ [])) nothing))) bare)

abbrev half : Cut
half = hash_in bare (b'a' ∷ []) (array_cut (item null nothing))

abbrev announces : List Event → ℕ → List ℕ → Outcome
announces es depth str = record { events = es; consumed = 3; depth = depth }

abbrev whole : Json → List ℕ → Outcome
whole t = announces (events t) 0

cells_of-document :
    cells_of same true document 0
    ≡ hash ((symbol (b'a' ∷ []), container 1) ∷ []) ∷ array (nil ∷ string (b'b' ∷ []) ∷ []) ∷ []
unfolding cells_of
cells_of-document = refl

convert_lem_example :
    (convert same (whole document) [] true).1
    ≡ parsed (cells_of same true document 0) (value_of same true document 0)
convert_lem_example = convert_lem same true (whole document) [] document refl refl refl refl

convert-holds_example :
    (keys : List Call) × ((convert same (whole document) [] true).0
      ≡ add (value_of same true document 0) ∷ keys ++ drop (value_of same true document 0) ∷ [])
    × IsPaired keys
convert-holds_example = convert-holds same true (whole document) [] document refl refl refl refl

convert-cut_example :
    (keys : List Call) × (key : Value) × (convert same
        (announces (first half ∷ events_inside half) 2)
        []
        false
      ≡ (
        add (container 0) ∷ (keys ++ (key_adds key ++ drop (container 0) ∷ key_calls key)),
        raised malformed,
      ))
    × IsPaired keys
convert-cut_example =
    convert-cut same false (announces (first half ∷ events_inside half) 2) [] half refl refl
