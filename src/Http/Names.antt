-- ===== src/Http/Names.antt =====
-- `iodine_copy2env_task` of ext/iodine/iodine_http.c: the name of a request header in the `env`.
pub mod Ready
use iodine.Base.{
  ℕ, ◌+◌, ◌-◌, ◌≤◌, ◌<◌, ◌≡◌, refl, sym, ap, ◌&&◌, Bool, true, false, List, [], ◌∷◌, ◌++◌, map,
  Option, none, some, arith, ltb, leb, ◌==◌, if◌then◌else◌, bytes_eq, bytes_eq_iff, length,
  Bool-cases, inl, inr,
}
use Ready.{
  accept, user_agent, accept_encoding, accept_language, connection, host, http_prefix, http_accept,
  http_user_agent, http_accept_encoding, http_accept_language, http_connection, http_host,
}

-- #define to_upper(c); on a small letter `c & ~32` takes 32 off.
abbrev pub to_upper : ℕ → ℕ
to_upper c = if leb b'a' c && leb c b'z' then c - 32 else c

abbrev pub env_byte : ℕ → ℕ
env_byte c = if c == b'-' then b'_' else to_upper c

-- A buffer of `capa` bytes takes the prefix and the name, or overflows.
abbrev pub in_buffer : ℕ → List ℕ → Option (List ℕ)
in_buffer capa name =
    if ltb capa (length name + 5) then none else some (http_prefix ++ map env_byte name)

-- `none` is a write past the end of the buffer: on the heap it is as long as it has to be, on the
-- stack it is 128 bytes long.
unfoldable pub env_name : List ℕ → Option (List ℕ)
env_name name =
    if bytes_eq name accept
    then some http_accept
    else if bytes_eq name user_agent
    then some http_user_agent
    else if bytes_eq name accept_encoding
    then some http_accept_encoding
    else if bytes_eq name accept_language
    then some http_accept_language
    else if bytes_eq name connection
    then some http_connection
    else if bytes_eq name host
    then some http_host
    else if ltb 123 (length name)
    then in_buffer (length name + 5) name
    else in_buffer 128 name

ready :
    (known value name : List ℕ) (rest : Option (List ℕ))
    → value ≡ http_prefix ++ map env_byte known
    → rest ≡ some (http_prefix ++ map env_byte name)
    → (if bytes_eq name known then some value else rest) ≡ some (http_prefix ++ map env_byte name)
ready known value name rest v r = elim (Bool-cases (bytes_eq name known)) [
  | inl same ↦
      rw (same, v)
        (ap (λ n. some (http_prefix ++ map env_byte n)) (sym ((bytes_eq_iff name known).0 same)))
  | inr differs ↦ rw differs r
]

-- Every header gets the name that the general rule gives, on the quick paths too, and no buffer
-- overflows, however long the name is.
pub env_name_lem : (name : List ℕ) → env_name name ≡ some (http_prefix ++ map env_byte name)
unfolding env_name
env_name_lem name = ready accept _ name _ refl (
    ready user_agent _ name _ refl (
      ready accept_encoding _ name _ refl (
        ready accept_language _ name _ refl
          (ready connection _ name _ refl (ready host _ name _ refl (ground arith))))))
