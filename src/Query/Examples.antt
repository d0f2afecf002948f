-- ===== src/Query/Examples.antt =====
-- A query string of two pairs (ext/iodine/iodine_helpers.c).
use iodine.Base.{arith, ℕ, ◌≡◌, refl, false, ◌==◌, if◌then◌else◌, List, [], ◌∷◌, Option, some}
use iodine.Query.{Pair, scan_pairs}
use iodine.Query.Pairs.{PairsOf, scan_pairs_lem}
use iodine.Query.Decoding.{any_encoded}

abbrev query : List ℕ
query = b'a' ∷ b'=' ∷ b'1' ∷ b'&' ∷ b'b' ∷ []

scan_pairs_lem_example : (ps : List Pair) × (scan_pairs 5 query ≡ some ps) × PairsOf query ps
scan_pairs_lem_example = scan_pairs_lem 5 query (omega arith)

abbrev spaces : List ℕ → List ℕ
spaces [] = []
spaces (c ∷ cs) = (if c == b'+' then b' ' else c) ∷ spaces cs

-- Plus signs are spaces.
abbrev decode : List ℕ → Option (List ℕ)
decode s = some (spaces s)

decode_plain : (s : List ℕ) → any_encoded s ≡ false → decode s ≡ some s
decode_plain [] h = refl
decode_plain (c ∷ cs) h = ground (arith, decode_plain cs)
