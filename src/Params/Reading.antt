-- ===== src/Params/Reading.antt =====
-- How the bytes of a key are read (ext/iodine/http.c, `http_add_to_params`). `after` is the byte in
-- memory behind the key, which the tests of `*(pos + 1)` may read.
use iodine.Base.{
  ℕ, Bool, false, ◌&&◌, ◌||◌, not, List, [], ◌∷◌, ◌++◌, Option, none, some, ◌==◌, if◌then◌else◌,
}
use iodine.Params.Tree.{Key, Node, aref, is_nil, Result, ok, check_hash, ◌>>=◌}

-- memchr: what stands before the byte, and what stands behind it.
abbrev pub put_before : ℕ → Option (List ℕ × List ℕ) → Option (List ℕ × List ℕ)
put_before c none = none
put_before c (some (before, behind)) = some (c ∷ before, behind)

unfoldable pub memchr : ℕ → List ℕ → Option (List ℕ × List ℕ)
memchr b [] = none
memchr b (c ∷ cs) = let r = memchr b cs in if c == b then some ([], cs) else put_before c r

abbrev pub peek : ℕ → List ℕ → ℕ
peek after [] = after
peek after (c ∷ cs) = c

abbrev pub tail : List ℕ → List ℕ
tail [] = []
tail (c ∷ cs) = cs

-- One round of the loop at `pos`: what it takes, and what is left.
pub data Step : Type 0 where
  array_step : List ℕ → Step
  hash_step : Key → List ℕ → Step
  skip : List ℕ → Step
  malformed : Step

abbrev pub keyed : ℕ → Option (List ℕ × List ℕ) → Step
keyed d none = malformed
keyed d (some (before, behind)) = hash_step (d ∷ before) behind

-- The name behind a `[`: it has a byte at least, and runs up to a `]`.
abbrev pub read_name : List ℕ → Step
read_name [] = malformed
read_name (d ∷ ds) = keyed d (memchr b']' ds)

unfoldable pub read_step : ℕ → ℕ → List ℕ → Step
unfolding memchr
read_step after c cs =
    if c == b'[' && peek after cs == b']'
    then array_step (tail cs)
    else if c == b'['
    then read_name cs
    else skip cs

-- The condition of the loop that looks ahead: `*n_pos_start == '[' && *(n_pos_start + 1) != ']'`.
abbrev pub opens_name : ℕ → List ℕ → Bool
opens_name after [] = false
opens_name after (c ∷ cs) = c == b'[' && not (peek after cs == b']')

-- That loop: the bytes from `n_pos_start`, those up to `n_pos_end`, and those from there.
unfoldable pub look_ahead : ℕ → Node → List ℕ → List ℕ → List ℕ → Result Node
look_ahead after nested start taken [] = ok nested
look_ahead after nested start taken (c ∷ []) =
    if is_nil nested || not (opens_name after start)
    then ok nested
    else if after == b']'
    then (check_hash nested >>= λ es. ok (aref es (tail (taken ++ c ∷ []))))
    else ok nested
look_ahead after nested start taken (c ∷ d ∷ rest) =
    let closed = check_hash nested >>= λ es.
    look_ahead after (aref es (tail (taken ++ c ∷ []))) rest [] rest in
    let longer = look_ahead after nested start (taken ++ c ∷ []) (d ∷ rest) in
    if is_nil nested || not (opens_name after start)
    then ok nested
    else if d == b']'
    then closed
    else longer
