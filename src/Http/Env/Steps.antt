-- ===== src/Http/Env/Steps.antt =====
-- The steps of `copy2env` (ext/iodine/iodine_http.c): which keys each of them writes.
use iodine.Base.{
  arith, ℕ, ◌≡◌, refl, ap, ◌∙◌, Bool, true, false, List, [], ◌∷◌, ◌++◌, map, Option, none, some,
  Bool-cases, inl, inr, ltb, if◌then◌else◌, length, bytes_eq, bytes_eq_iff,
}
use iodine.Ruby.{qtrue, qfalse}
use iodine.Http.Names.{env_byte, env_name_lem}
use iodine.Http.Names.Ready.{http_prefix}
use iodine.Http.Scheme.{https_word}
use iodine.Http.Env.Keys.{
  request_method, path_info, query_string, server_name, server_port, content_length, content_type,
  server_protocol, iodine_has_body, url_scheme_name, content_length_name, content_type_name,
}
use iodine.Http.Env.Tables.{EnvValue, text, ruby, Env, aset, aref, aref-aset, Headers, get, delete}
use iodine.Http.Env.Copying.{
  HttpRequest, or_empty, copy_line, with_port, length_by, type_by, value_of, copy_headers,
}

-- The key of a header in the `env`.
abbrev pub header_key : List ℕ → List ℕ
header_key name = http_prefix ++ map env_byte name

-- A key that no header can have.
abbrev pub IsApart : List ℕ → Type 0
IsApart k = (name : List ℕ) → bytes_eq (header_key name) k ≡ false

pub aset-other :
    (env : Env) (k j : List ℕ) (v : EnvValue)
    → bytes_eq k j ≡ false
    → aref (aset env k v) j ≡ aref env j
aset-other env k j v apart = ground (arith, aref-aset env k j v)

pub aset-same : (env : Env) (k : List ℕ) (v : EnvValue) → aref (aset env k v) k ≡ some v
aset-same env k v = ground (arith, aref-aset env k k v, bytes_eq_iff k k)

-- No step behind the request line writes to this key.
abbrev pub IsOwn : List ℕ → Type 0
IsOwn k =
    IsApart k
    × (bytes_eq server_name k ≡ false)
    × (bytes_eq server_port k ≡ false)
    × (bytes_eq content_length k ≡ false)
    × (bytes_eq content_type k ≡ false)
    × (bytes_eq url_scheme_name k ≡ false)

-- The value of the last header with this key.
abbrev pub over : Option EnvValue → Option EnvValue → Option EnvValue
over none old = old
over (some v) old = some v

abbrev pub latest : Headers → List ℕ → Option EnvValue
latest [] k = none
latest ((n, v) ∷ hs) k =
    over (latest hs k) (if bytes_eq (header_key n) k then some (value_of v) else none)

pub over-if :
    (late old : Option EnvValue) (same : Bool) (v : EnvValue)
    → over late (if same then some v else old)
      ≡ over (over late (if same then some v else none)) old
over-if none old true v = refl
over-if none old false v = refl
over-if (some w) old same v = refl

pub latest-apart : (hs : Headers) (k : List ℕ) → IsApart k → latest hs k ≡ none
latest-apart [] k apart = refl
latest-apart ((n, v) ∷ hs) k apart = rw (latest-apart hs k apart, apart n) refl

pub over-none : (late : Option EnvValue) → late ≡ over late none
over-none none = refl
over-none (some v) = refl

pub latest-delete :
    (hs : Headers) (n k : List ℕ)
    → bytes_eq (header_key n) k ≡ false
    → latest (delete hs n) k ≡ latest hs k
latest-delete [] n k other = refl
latest-delete ((m, v) ∷ hs) n k other = elim (Bool-cases (bytes_eq m n)) [
  | inl same ↦
      let renamed : bytes_eq (header_key m) k ≡ false =
        ap (λ i. bytes_eq (header_key i) k) ((bytes_eq_iff m n).0 same) ∙ other in
      rw (same, renamed) (over-none (latest hs k))
  | inr apart ↦ rw (apart, latest-delete hs n k other) refl
]

-- The headers give an env, in which each key has the value of its last header.
pub copy_headers_lem :
    (hs : Headers) (env : Env)
    → (after : Env) × (copy_headers hs env ≡ some after)
      × ((k : List ℕ) → aref after k ≡ over (latest hs k) (aref env k))
unfolding copy_headers
copy_headers_lem [] env = (env, refl, λ k. refl)
copy_headers_lem ((name, v) ∷ hs) env =
    let next = aset env (header_key name) (value_of v) in
    let (after, copied, last) = copy_headers_lem hs next in
    (
      after,
      rw (env_name_lem name) copied,
      λ k.
          last k
          ∙ ap (over (latest hs k)) (aref-aset env (header_key name) k (value_of v))
          ∙ over-if (latest hs k) (aref env k) (bytes_eq (header_key name) k) (value_of v),
    )

pub get-delete :
    (hs : Headers) (name other : List ℕ) → get hs name ≡ none → get (delete hs other) name ≡ none
get-delete [] name other h = refl
get-delete ((n, v) ∷ hs) name other h = ground (arith, get-delete hs name other)

-- A step that changes no key but its own.
pub length_by-other :
    (t : Option (List ℕ)) (env : Env) (hs : Headers) (k : List ℕ)
    → bytes_eq content_length k ≡ false
    → aref (length_by t env hs).0 k ≡ aref env k
length_by-other none env hs k apart = refl
length_by-other (some t) env hs k apart = aset-other env content_length k (text t) apart

pub type_by-other :
    (t : Option (List ℕ)) (env : Env) (hs : Headers) (k : List ℕ)
    → bytes_eq content_type k ≡ false
    → aref (type_by t env hs).0 k ≡ aref env k
type_by-other none env hs k apart = refl
type_by-other (some t) env hs k apart = elim (Bool-cases (ltb 0 (length t))) [
  | inl some_text ↦ rw some_text (aset-other env content_type k (text t) apart)
  | inr no_text ↦ rw no_text refl
]

pub with_port-other :
    (port : Option (List ℕ)) (env : Env) (k : List ℕ)
    → bytes_eq server_port k ≡ false
    → aref (with_port port env) k ≡ aref env k
with_port-other none env k apart = refl
with_port-other (some port) env k apart = aset-other env server_port k (text port) apart

-- The five entries of the request line.
pub line_entries :
    (r : HttpRequest) (env : Env)
    → let line = copy_line r env in
      (aref line request_method ≡ some (text r.method))
      × (aref line path_info ≡ some (text r.path))
      × (aref line query_string ≡ some (text (or_empty r.query)))
      × (aref line server_protocol ≡ some (text r.version))
      × (aref line iodine_has_body ≡ some (ruby (if r.has_body then qtrue else qfalse)))
unfolding copy_line
line_entries r env = elim (Bool-cases (ltb 0 (length r.peer))) [
  | inl peer ↦
      rw peer (simp aref-aset, simp aref-aset, simp aref-aset, simp aref-aset, simp aref-aset)
  | inr no_peer ↦
      rw no_peer (simp aref-aset, simp aref-aset, simp aref-aset, simp aref-aset, simp aref-aset)
]

-- The request line leaves the scheme alone.
pub line_scheme :
    (r : HttpRequest) (env : Env)
    → aref (copy_line r env) url_scheme_name ≡ aref env url_scheme_name
unfolding copy_line
line_scheme r env = elim (Bool-cases (ltb 0 (length r.peer))) [
  | inl peer ↦ rw peer (simp aref-aset)
  | inr no_peer ↦ rw no_peer (simp aref-aset)
]

-- The steps between the request line and the headers, on a request with no forwarding header.
abbrev pub put_tls : Bool → Env → Env
put_tls tls env = if tls then aset env url_scheme_name (text https_word) else env

pub length_by-none :
    (t : Option (List ℕ)) (env : Env) (hs : Headers) (name : List ℕ)
    → get hs name ≡ none
    → get (length_by t env hs).1 name ≡ none
length_by-none none env hs name h = h
length_by-none (some t) env hs name h = get-delete hs name content_length_name h

pub type_by-none :
    (t : Option (List ℕ)) (env : Env) (hs : Headers) (name : List ℕ)
    → get hs name ≡ none
    → get (type_by t env hs).1 name ≡ none
type_by-none none env hs name h = h
type_by-none (some t) env hs name h = elim (Bool-cases (ltb 0 (length t))) [
  | inl some_text ↦ rw some_text (get-delete hs name content_type_name h)
  | inr no_text ↦ rw no_text h
]

pub put_tls-other :
    (tls : Bool) (env : Env) (k : List ℕ)
    → bytes_eq url_scheme_name k ≡ false
    → aref (put_tls tls env) k ≡ aref env k
put_tls-other true env k apart = aset-other env url_scheme_name k (text https_word) apart
put_tls-other false env k apart = refl

pub put_tls-scheme :
    (tls : Bool) (env : Env)
    → aref (put_tls tls env) url_scheme_name
      ≡ (if tls then some (text https_word) else aref env url_scheme_name)
put_tls-scheme true env = aset-same env url_scheme_name (text https_word)
put_tls-scheme false env = refl

-- The two headers that move change no other key.
pub length_by-latest :
    (t : Option (List ℕ)) (env : Env) (hs : Headers) (k : List ℕ)
    → bytes_eq (header_key content_length_name) k ≡ false
    → latest (length_by t env hs).1 k ≡ latest hs k
length_by-latest none env hs k other = refl
length_by-latest (some t) env hs k other = latest-delete hs content_length_name k other

pub type_by-latest :
    (t : Option (List ℕ)) (env : Env) (hs : Headers) (k : List ℕ)
    → bytes_eq (header_key content_type_name) k ≡ false
    → latest (type_by t env hs).1 k ≡ latest hs k
type_by-latest none env hs k other = refl
type_by-latest (some t) env hs k other = elim (Bool-cases (ltb 0 (length t))) [
  | inl some_text ↦ rw some_text (latest-delete hs content_type_name k other)
  | inr no_text ↦ rw no_text refl
]
