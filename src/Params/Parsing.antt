-- ===== src/Params/Parsing.antt =====
-- What `parse_nested_query` returns (ext/iodine/iodine_helpers.c).
use iodine.Base.{arith, ℕ, ◌≡◌, ap, List, [], ◌∷◌, Option, none, some, length}
use iodine.Query.{Pair, add_pair, Value, nil_value, string}
use iodine.Query.Pairs.{scan_pairs_lem}
use iodine.Params.Tree.{Key, Entries, no_entries, Result, Ensures, Ensures-bind}
use iodine.Params.Adding.{params_max_depth}
use iodine.Params.Query.{
  value_node, after_key, file_decoded, file_pair, file_pairs, file_scanned, parse_nested_query,
}
use iodine.Params.Depth.{Within, EntriesWithin, add_to_params-Within}

value_node-Within : (v : Value) (d : ℕ) → Within d (value_node v)
value_node-Within nil_value d = tt
value_node-Within (string s) d = tt

module _ (decode : List ℕ → Option (List ℕ)) where
  filed-Within :
      (params : Entries) (p : Pair) (o : Option (Key × Value))
      → EntriesWithin params_max_depth params
      → Ensures (EntriesWithin params_max_depth) (file_decoded (after_key p) params o)
  filed-Within params p none h = tt
  filed-Within params p (some (key, value)) h =
      add_to_params-Within (after_key p) (value_node value) (value_node-Within value) params key h

  file_pairs-Within :
      (params : Entries) (ps : List Pair)
      → EntriesWithin params_max_depth params
      → Ensures (EntriesWithin params_max_depth) (file_pairs decode params ps)
  unfolding file_pairs file_pair
  file_pairs-Within params [] h = h
  file_pairs-Within params (p ∷ ps) h =
      Ensures-bind (EntriesWithin params_max_depth) _ (file_pair decode params p) _
        (filed-Within params p (add_pair decode p) h) λ more w. file_pairs-Within more ps w

  -- Whatever the string and its decoding, the parser comes to an end within as many rounds as there
  -- are bytes, with an exception or with parameters that are nested no deeper than the depth allows.
  pub parse_nested_query_lem :
      (s : List ℕ)
      → (r : Result Entries) × (parse_nested_query decode s ≡ some r)
        × Ensures (EntriesWithin params_max_depth) r
  unfolding parse_nested_query
  parse_nested_query_lem s =
      let (ps, found, made) = scan_pairs_lem (length s) s (omega arith) in
      (
        file_pairs decode no_entries ps,
        ap (file_scanned decode) found,
        file_pairs-Within no_entries ps tt,
      )
