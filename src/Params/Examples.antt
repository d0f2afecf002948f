-- ===== src/Params/Examples.antt =====
-- `user[tags][]` and the like (ext/iodine/http.c, ext/iodine/iodine_helpers.c).
use iodine.Base.{arith, ℕ, ◌≡◌, ◌≢◌, refl, false, ◌==◌, List, [], ◌∷◌, ◌++◌, Option, some}
use iodine.Params.Tree.{
  Node, Entries, string, array, hash, no_nodes, node, no_entries, entry, aref, aset, type_error,
  Result, ok, raises, ◌>>=◌, Ensures,
}
use iodine.Params.Adding.{params_max_depth, add_to_params}
use iodine.Params.Query.{parse_nested_query}
use iodine.Params.Depth.{EntriesWithin}
use iodine.Params.Places.{Place, by_key, Filed}
use iodine.Params.Segments.{Segment, index, name, written, insert_at, built}
use iodine.Params.Keeping.{add_to_params-kept}
use iodine.Params.Filing.{add_to_params-written, add_to_params-new}
use iodine.Params.Parsing.{parse_nested_query_lem}

abbrev plain : List ℕ → Option (List ℕ)
plain s = some s

-- a=1&a=2
twice :
    parse_nested_query plain (b'a' ∷ b'=' ∷ b'1' ∷ b'&' ∷ b'a' ∷ b'=' ∷ b'2' ∷ [])
    ≡ some (ok (entry (b'a' ∷ []) (string (b'2' ∷ [])) no_entries))
unfolding parse_nested_query
twice = refl

-- a[]=1&a[]=2
listed :
    parse_nested_query plain
      (b'a' ∷ b'[' ∷ b']' ∷ b'=' ∷ b'1' ∷ b'&' ∷ b'a' ∷ b'[' ∷ b']' ∷ b'=' ∷ b'2' ∷ [])
    ≡ some (
        ok (
          entry
            (b'a' ∷ [])
            (array (node (string (b'1' ∷ [])) (node (string (b'2' ∷ [])) no_nodes)))
            no_entries))
unfolding parse_nested_query
listed = refl

abbrev key : List ℕ
key = b'a' ∷ []

-- [x][]
abbrev segments : List Segment
segments = name (b'x' ∷ []) ∷ index ∷ []

abbrev value : Node
value = string (b'1' ∷ [])

abbrev params : Entries
params = entry key (hash (entry (b'y' ∷ []) (string (b'2' ∷ [])) no_entries)) no_entries

-- `a[y]=2`, and then `a[][x]=1`
typed : add_to_params 0 params (key ++ written (index ∷ segments)) value ≡ raises type_error
unfolding add_to_params
typed = refl

-- a[][x]=1 twice makes two hashes, a[][x]=1 and a[][y]=2 make one.
abbrev row : List ℕ → Entries
row k = entry k value no_entries

rows :
    (add_to_params 0
        (entry key (array (node (hash (row (b'x' ∷ []))) no_nodes)) no_entries)
        (key ++ written (index ∷ name (b'x' ∷ []) ∷ []))
        value
      ≡ ok (
          entry key
            (array (node (hash (row (b'x' ∷ []))) (node (hash (row (b'x' ∷ []))) no_nodes)))
            no_entries))
    × (add_to_params 0
          (entry key (array (node (hash (row (b'x' ∷ []))) no_nodes)) no_entries)
          (key ++ written (index ∷ name (b'y' ∷ []) ∷ []))
          value
        ≡ ok (
            entry key
              (array (node (hash (entry (b'x' ∷ []) value (row (b'y' ∷ [])))) no_nodes))
              no_entries))
unfolding add_to_params
rows = (refl, refl)

not_close : (c : ℕ) → (c == b']') ≡ false → c ≢ b']'
not_close c h e = ground arith

abbrev more : Entries
more =
    entry key
      (hash (
        entry (b'y' ∷ []) (string (b'2' ∷ []))
          (entry (b'x' ∷ []) (array (node value no_nodes)) no_entries)))
      no_entries

more_lem : add_to_params 0 params (key ++ written segments) value ≡ ok more
unfolding add_to_params
more_lem = refl

abbrev place : List Place
place = by_key key ∷ by_key (b'y' ∷ []) ∷ []

add_to_params-kept_example : Filed value place (hash params) (hash more)
add_to_params-kept_example =
    add_to_params-kept value 0 params more (key ++ written segments) place more_lem tt

add_to_params-written_example :
    add_to_params 0 params (key ++ written segments) value
    ≡ (insert_at value segments (aref params key) >>= λ n. ok (aset params key n))
add_to_params-written_example =
    add_to_params-written value 0 params key tt segments ((not_close b'x' refl, tt), (tt, tt))
      (omega arith)

add_to_params-new_example :
    add_to_params 0 no_entries (key ++ written segments) value
    ≡ ok (aset no_entries key (built value segments))
add_to_params-new_example =
    add_to_params-new value 0 no_entries key tt segments ((not_close b'x' refl, tt), (tt, tt))
      (omega arith) refl

parse_nested_query_lem_example :
    (r : Result Entries) × (parse_nested_query plain (b'a' ∷ b'=' ∷ []) ≡ some r)
    × Ensures (EntriesWithin params_max_depth) r
parse_nested_query_lem_example = parse_nested_query_lem plain (b'a' ∷ b'=' ∷ [])
