-- ===== src/Http/Env/Tables.antt =====
-- The `env` as a Ruby Hash, and the headers of a request as facil.io keeps them
-- (ext/iodine/iodine_http.c).
use iodine.Base.{
  arith, ℕ, ◌≡◌, refl, List, [], ◌∷◌, Option, none, some, if◌then◌else◌, bytes_eq, bytes_eq_iff,
}
use iodine.Ruby

pub data EnvValue : Type 0 where
  text : List ℕ → EnvValue
  texts : List (List ℕ) → EnvValue
  ruby : Ruby.Value → EnvValue

abbrev pub Env : Type 0
Env = List (List ℕ × EnvValue)

-- rb_hash_aset
abbrev pub aset : Env → List ℕ → EnvValue → Env
aset [] k v = (k, v) ∷ []
aset ((j, w) ∷ env) k v = if bytes_eq j k then (j, v) ∷ env else (j, w) ∷ aset env k v

-- rb_hash_aref, where a missing key is `none`
abbrev pub aref : Env → List ℕ → Option EnvValue
aref [] k = none
aref ((j, w) ∷ env) k = if bytes_eq j k then some w else aref env k

pub aref-aset :
    (env : Env) (k j : List ℕ) (v : EnvValue)
    → aref (aset env k v) j ≡ (if bytes_eq k j then some v else aref env j)
aref-aset [] k j v = refl
aref-aset ((i, w) ∷ env) k j v =
    ground (arith, bytes_eq_iff i k, bytes_eq_iff i j, bytes_eq_iff k j, aref-aset env k j v)

-- A header that came more than once is an Array.
pub data HeaderValue : Type 0 where
  one : List ℕ → HeaderValue
  many : List (List ℕ) → HeaderValue

abbrev pub Headers : Type 0
Headers = List (List ℕ × HeaderValue)

-- fiobj_hash_get2 and fiobj_hash_delete2, by the name in place of its hash
abbrev pub get : Headers → List ℕ → Option HeaderValue
get [] name = none
get ((n, v) ∷ hs) name = if bytes_eq n name then some v else get hs name

abbrev pub delete : Headers → List ℕ → Headers
delete [] name = []
delete ((n, v) ∷ hs) name = if bytes_eq n name then hs else (n, v) ∷ delete hs name
