-- ===== src/Http/Env/Copying.antt =====
-- The steps of `copy2env` (ext/iodine/iodine_http.c). `obj2cstr` is facil.io's `fiobj_obj2cstr`,
-- where no bytes are a NULL pointer; `xforward` is the lookup by the hash that the code takes for
-- that of X-Forwarded-Proto.
use iodine.Base.{
  ℕ, Bool, true, false, List, [], ◌∷◌, Option, none, some, ltb, if◌then◌else◌, length, bytes_eq,
}
use iodine.Ruby
use iodine.Ruby.{qtrue, qfalse, qnil}
use iodine.Http.Names.{env_name}
use iodine.Http.Host.{split_host}
use iodine.Http.Scheme.{
  Scheme, default_scheme, http_scheme, https_scheme, other_scheme, past_the_end, url_scheme,
  http_word, https_word,
}
use iodine.Http.Env.Keys.{
  request_method, path_info, query_string, server_name, server_port, content_length, content_type,
  server_protocol, http_version, remote_addr, iodine_request_id, iodine_has_body, url_scheme_name,
  rack_input, rack_hijack, rack_upgrade, rack_upgrade_q, rack_version, script_name, rack_errors,
  rack_hijack_q, rack_multiprocess, rack_multithread, rack_run_once, xsendfile_type,
  xsendfile_type_header, xsendfile, host_name, content_length_name, content_type_name,
  forwarded_name,
}
use iodine.Http.Env.Tables.{
  EnvValue, text, texts, ruby, Env, aset, HeaderValue, one, many, Headers, get, delete,
}

-- What `copy2env` reads of `http_s`.
pub record HttpRequest : Type 0 where
  pub method : List ℕ
  pub path : List ℕ
  pub has_body : Bool
  pub query : Option (List ℕ)
  pub version : List ℕ
  pub peer : List ℕ
  pub headers : Headers
  pub tls : Bool

abbrev pub or_empty : Option (List ℕ) → List ℕ
or_empty none = []
or_empty (some q) = q

-- The objects that the template shares between all requests.
pub record Shared : Type 0 where
  pub version_array : Ruby.Value
  pub input : Ruby.Value
  pub stderr : Ruby.Value

abbrev pub script_of : Option (List ℕ) → List ℕ
script_of none = []
script_of (some name) = if bytes_eq name (b'/' ∷ []) then [] else name

-- initialize_env_template, for the SCRIPT_NAME of the process's environment. The placeholders hold
-- the name QUERY_STRING.
unfoldable pub env_template : Shared → Option (List ℕ) → Env
env_template shared script =
    (rack_upgrade_q, ruby qnil)
    ∷ (rack_upgrade, ruby qnil)
    ∷ (rack_version, ruby shared.version_array)
    ∷ (script_name, text (script_of script))
    ∷ (rack_input, ruby shared.input)
    ∷ (rack_errors, ruby shared.stderr)
    ∷ (rack_hijack_q, ruby qtrue)
    ∷ (rack_multiprocess, ruby qtrue)
    ∷ (rack_multithread, ruby qtrue)
    ∷ (rack_run_once, ruby qfalse)
    ∷ (url_scheme_name, text http_word)
    ∷ (http_version, text query_string)
    ∷ (rack_hijack, text query_string)
    ∷ (path_info, text query_string)
    ∷ (query_string, text query_string)
    ∷ (remote_addr, text query_string)
    ∷ (request_method, text query_string)
    ∷ (server_name, text query_string)
    ∷ (server_protocol, text query_string)
    ∷ (iodine_request_id, text query_string)
    ∷ (iodine_has_body, text query_string)
    ∷ []

-- What `iodine_http_listen` does to the template if there is a public folder.
unfoldable pub with_public : Bool → Env → Env
with_public public env =
    if public
    then aset (aset env xsendfile_type (text xsendfile)) xsendfile_type_header (text xsendfile)
    else env

-- The request line and the peer.
unfoldable pub copy_line : HttpRequest → Env → Env
copy_line r env =
    let named = aset (aset env request_method (text r.method)) path_info (text r.path) in
    let bodied = aset named iodine_has_body (ruby (if r.has_body then qtrue else qfalse)) in
    let queried = aset bodied query_string (text (or_empty r.query)) in
    let versioned =
      aset (aset queried server_protocol (text r.version)) http_version (text r.version) in
    if ltb 0 (length r.peer) then aset versioned remote_addr (text r.peer) else versioned

abbrev pub with_port : Option (List ℕ) → Env → Env
with_port none env = env
with_port (some port) env = aset env server_port (text port)

-- The Host header; `none` is a read through a NULL pointer.
unfoldable pub copy_host : Option (List ℕ) → Env → Option Env
unfolding split_host
copy_host none env = none
copy_host (some host) env =
    let server = split_host host in
    some (with_port server.port (aset env server_name (text server.name)))

-- A header that gets a key of its own, if its text will do: the env and the headers that are left.
abbrev pub moved : List ℕ → List ℕ → Bool → List ℕ → Env → Headers → Env × Headers
moved key name true value env headers = (aset env key (text value), delete headers name)
moved key name false value env headers = (env, headers)

abbrev pub length_by : Option (List ℕ) → Env → Headers → Env × Headers
length_by none env headers = (env, headers)
length_by (some t) env headers = moved content_length content_length_name true t env headers

abbrev pub type_by : Option (List ℕ) → Env → Headers → Env × Headers
type_by none env headers = (env, headers)
type_by (some t) env headers = moved content_type content_type_name (ltb 0 (length t)) t env headers

abbrev pub put_scheme : Scheme → Env → Option Env
put_scheme default_scheme env = some env
put_scheme http_scheme env = some (aset env url_scheme_name (text http_word))
put_scheme https_scheme env = some (aset env url_scheme_name (text https_word))
put_scheme (other_scheme s) env = some (aset env url_scheme_name (text s))
put_scheme past_the_end env = none

-- iodine_copy2env_task, for each header that is left.
abbrev pub value_of : HeaderValue → EnvValue
value_of (one t) = text t
value_of (many ts) = texts ts

abbrev pub put_named : Option (List ℕ) → HeaderValue → Env → Option Env
put_named none v env = none
put_named (some name) v env = some (aset env name (value_of v))

abbrev pub bind : Option Env → (Env → Option Env) → Option Env
bind none k = none
bind (some env) k = k env

unfoldable pub copy_headers : Headers → Env → Option Env
unfolding env_name
copy_headers [] env = some env
copy_headers ((name, v) ∷ hs) env = bind (put_named (env_name name) v env) (λ e. copy_headers hs e)

module _ (obj2cstr : Option HeaderValue → Option (List ℕ))
    (xforward : Headers → Option HeaderValue) where
  -- The text of a header that is there.
  abbrev pub text_of : Option HeaderValue → Option (List ℕ)
  text_of none = none
  text_of (some v) = obj2cstr (some v)

  -- A header that is asked for, and its text; a NULL text of no length is an empty one.
  abbrev pub text_if : Option HeaderValue → Option (List ℕ)
  text_if none = none
  text_if (some v) = some (or_empty (obj2cstr (some v)))

  unfoldable pub copy_scheme : Bool → Headers → Env → Option Env
  unfolding url_scheme
  copy_scheme tls headers env =
      put_scheme
        (url_scheme (text_if (xforward headers)) (text_if (get headers forwarded_name)) tls) env

  unfoldable pub copy2env : Env → HttpRequest → Option Env
  unfolding copy_line copy_host copy_scheme copy_headers
  copy2env template r =
      bind (copy_host (obj2cstr (get r.headers host_name)) (copy_line r template)) λ env.
        let (with_length, hs) =
          length_by (text_of (get r.headers content_length_name)) env r.headers in
        let (with_type, left) = type_by (text_of (get hs content_type_name)) with_length hs in
        bind (copy_scheme r.tls left with_type) λ e. copy_headers left e
