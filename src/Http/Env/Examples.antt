-- ===== src/Http/Env/Examples.antt =====
-- A request with a Host header of two parts, and one that sent two of them.
use iodine.Base.{ℕ, ◌≡◌, ◌↔◌, refl, true, false, List, [], ◌∷◌, Option, none, some, if◌then◌else◌}
use iodine.Ruby.{qtrue, qfalse, qnil}
use iodine.Http.Host.{split_host}
use iodine.Http.Scheme.{https_word}
use iodine.Http.Env.Keys.{
  request_method, path_info, query_string, server_name, server_protocol, iodine_has_body,
  url_scheme_name, host_name,
}
use iodine.Http.Env.Tables.{text, ruby, Env, aref, HeaderValue, one, many, Headers, get}
use iodine.Http.Env.Copying.{HttpRequest, or_empty, env_template, Shared, copy2env}
use iodine.Http.Env.Given.{copy2env_lem, copy2env-header, copy2env-none_iff}

abbrev null_word : List ℕ
null_word = b'n' ∷ b'u' ∷ b'l' ∷ b'l' ∷ []

-- An Array has no text, and no object at all is the text `null`.
abbrev cstr : Option HeaderValue → Option (List ℕ)
cstr none = some null_word
cstr (some (one t)) = some t
cstr (some (many ts)) = none

abbrev no_forward : Headers → Option HeaderValue
no_forward hs = none

abbrev shared : Shared
shared = record { version_array = qnil; input = qnil; stderr = qnil }

abbrev template : Env
unfolding env_template
template = env_template shared none

abbrev host : List ℕ
host = b'a' ∷ b':' ∷ b'8' ∷ []

abbrev te : List ℕ
te = b't' ∷ b'e' ∷ []

abbrev te_key : List ℕ
te_key = b'H' ∷ b'T' ∷ b'T' ∷ b'P' ∷ b'_' ∷ b'T' ∷ b'E' ∷ []

abbrev with_headers : Headers → HttpRequest
with_headers hs = record {
  method = b'G' ∷ b'E' ∷ b'T' ∷ [];
  path = b'/' ∷ [];
  has_body = false;
  query = some (b'q' ∷ []);
  version = b'1' ∷ [];
  peer = [];
  headers = hs;
  tls = true;
}

abbrev usual : HttpRequest
usual = with_headers ((te, one (b'x' ∷ [])) ∷ (host_name, one host) ∷ [])

abbrev two_hosts : HttpRequest
two_hosts = with_headers ((host_name, many (host ∷ host ∷ [])) ∷ [])

copy2env_lem_example :
    (env : Env) × (copy2env cstr no_forward template usual ≡ some env)
    × (aref env request_method ≡ some (text usual.method))
    × (aref env path_info ≡ some (text usual.path))
    × (aref env query_string ≡ some (text (or_empty usual.query)))
    × (aref env server_protocol ≡ some (text usual.version))
    × (aref env iodine_has_body ≡ some (ruby (if usual.has_body then qtrue else qfalse)))
    × (aref env server_name ≡ some (text (split_host host).name))
    × (aref env url_scheme_name
        ≡ (if usual.tls then some (text https_word) else aref template url_scheme_name))
copy2env_lem_example = copy2env_lem cstr no_forward template usual host (λ hs. refl) refl refl

copy2env-header_example :
    (env : Env) × (copy2env cstr no_forward template usual ≡ some env)
    × (aref env te_key ≡ some (text (b'x' ∷ [])))
copy2env-header_example =
    copy2env-header cstr no_forward template usual host (λ hs. refl) refl refl te_key
      (text (b'x' ∷ [])) refl refl refl

copy2env-none_iff_example :
    copy2env cstr no_forward template two_hosts ≡ none
    ↔ cstr (get two_hosts.headers host_name) ≡ none
copy2env-none_iff_example = copy2env-none_iff cstr no_forward template two_hosts (λ hs. refl) refl
