-- ===== src/Http/Env/Given.antt =====
-- What the `env` says of a request, whatever headers it has (ext/iodine/iodine_http.c).
use iodine.Base.{
  ◌↔◌, ℕ, ◌≡◌, refl, ap, ◌∙◌, Bool, true, false, List, Option, none, some, Option-cases, inl, inr,
  if◌then◌else◌, bytes_eq,
}
use iodine.Ruby.{qtrue, qfalse}
use iodine.Http.Host.{split_host}
use iodine.Http.Scheme.{https_word}
use iodine.Http.Env.Keys.{
  request_method, path_info, query_string, server_name, content_length, content_type,
  server_protocol, iodine_has_body, url_scheme_name, host_name, content_length_name,
  content_type_name, forwarded_name,
}
use iodine.Http.Env.Tables.{EnvValue, text, ruby, Env, aset, aref, HeaderValue, Headers, get}
use iodine.Http.Env.Copying.{
  HttpRequest, or_empty, copy_line, with_port, copy_host, length_by, type_by, text_of, copy_scheme,
  copy2env,
}
use iodine.Http.Env.Steps.{
  header_key, IsApart, aset-other, aset-same, IsOwn, over, latest, latest-apart, copy_headers_lem,
  length_by-other, type_by-other, with_port-other, line_entries, line_scheme, put_tls,
  length_by-none, type_by-none, put_tls-other, put_tls-scheme, length_by-latest, type_by-latest,
}

module _ (obj2cstr : Option HeaderValue → Option (List ℕ))
    (xforward : Headers → Option HeaderValue) where
  copy_scheme-direct :
      (tls : Bool) (hs : Headers) (env : Env)
      → xforward hs ≡ none
      → get hs forwarded_name ≡ none
      → copy_scheme obj2cstr xforward tls hs env ≡ some (put_tls tls env)
  unfolding copy_scheme
  copy_scheme-direct true hs env x f = rw (x, f) refl
  copy_scheme-direct false hs env x f = rw (x, f) refl

  module _ (template : Env) (r : HttpRequest) (host : List ℕ)
      (x : (hs : Headers) → xforward hs ≡ none) (f : get r.headers forwarded_name ≡ none)
      (named : obj2cstr (get r.headers host_name) ≡ some host) where
    line : Env
    line = copy_line r template

    hosted : Env
    hosted = with_port (split_host host).port (aset line server_name (text (split_host host).name))

    measured : Env × Headers
    measured =
        length_by (text_of obj2cstr xforward (get r.headers content_length_name)) hosted r.headers

    typed : Env × Headers
    typed =
        type_by (text_of obj2cstr xforward (get measured.1 content_type_name)) measured.0 measured.1

    copied :
        (after : Env) × (copy2env obj2cstr xforward template r ≡ some after)
        × ((k : List ℕ) → aref after k ≡ over (latest typed.1 k) (aref (put_tls r.tls typed.0) k))
    unfolding copy2env copy_host line hosted measured typed
    copied =
        let left = typed.1 in
        let none_left : get left forwarded_name ≡ none =
          type_by-none (text_of obj2cstr xforward (get measured.1 content_type_name)) measured.0
            measured.1 forwarded_name
            (length_by-none (text_of obj2cstr xforward (get r.headers content_length_name)) hosted
              r.headers forwarded_name f) in
        let (after, done, last) = copy_headers_lem left (put_tls r.tls typed.0) in
        (after, rw (named, copy_scheme-direct r.tls left typed.0 (x left) none_left) done, last)

    apart : (k : List ℕ) → IsApart k → aref copied.0 k ≡ aref (put_tls r.tls typed.0) k
    apart k free =
        copied.2 k
        ∙ ap (λ late. over late (aref (put_tls r.tls typed.0) k)) (latest-apart typed.1 k free)

    typed-other :
        (k : List ℕ)
        → bytes_eq content_length k ≡ false
        → bytes_eq content_type k ≡ false
        → aref typed.0 k ≡ aref hosted k
    unfolding typed measured
    typed-other k len type_ =
        type_by-other (text_of obj2cstr xforward (get measured.1 content_type_name)) measured.0
          measured.1 k type_
        ∙ length_by-other (text_of obj2cstr xforward (get r.headers content_length_name)) hosted
            r.headers k len

    -- A key that no step behind the request line writes.
    own-line : (k : List ℕ) → IsOwn k → aref copied.0 k ≡ aref line k
    unfolding hosted
    own-line k (free, name, port, len, type_, scheme) =
        apart k free
        ∙ put_tls-other r.tls typed.0 k scheme
        ∙ typed-other k len type_
        ∙ with_port-other (split_host host).port _ k port
        ∙ aset-other line server_name k _ name

    -- The name of the server.
    own-name : aref copied.0 server_name ≡ some (text (split_host host).name)
    unfolding hosted
    own-name =
        apart server_name (λ name. refl)
        ∙ put_tls-other r.tls typed.0 server_name refl
        ∙ typed-other server_name refl refl
        ∙ with_port-other (split_host host).port
            (aset line server_name (text (split_host host).name)) server_name refl
        ∙ aset-same line server_name (text (split_host host).name)

    -- The scheme.
    line-scheme : aref typed.0 url_scheme_name ≡ aref template url_scheme_name
    unfolding hosted line
    line-scheme =
        typed-other url_scheme_name refl refl
        ∙ with_port-other (split_host host).port
            (aset line server_name (text (split_host host).name)) url_scheme_name refl
        ∙ aset-other line server_name url_scheme_name (text (split_host host).name) refl
        ∙ line_scheme r template

    own-scheme :
        aref copied.0 url_scheme_name
        ≡ (if r.tls then some (text https_word) else aref template url_scheme_name)
    own-scheme =
        apart url_scheme_name (λ name. refl)
        ∙ put_tls-scheme r.tls typed.0
        ∙ ap (λ e. if r.tls then some (text https_word) else e) line-scheme

    -- A request that no proxy forwarded gets an `env` with its method, its path, its query, its
    -- protocol and its body flag as they were sent, whatever its headers are named, the name of
    -- the server from the Host header, and the scheme of the connection.
    pub copy2env_lem :
        (env : Env) × (copy2env obj2cstr xforward template r ≡ some env)
        × (aref env request_method ≡ some (text r.method))
        × (aref env path_info ≡ some (text r.path))
        × (aref env query_string ≡ some (text (or_empty r.query)))
        × (aref env server_protocol ≡ some (text r.version))
        × (aref env iodine_has_body ≡ some (ruby (if r.has_body then qtrue else qfalse)))
        × (aref env server_name ≡ some (text (split_host host).name))
        × (aref env url_scheme_name
            ≡ (if r.tls then some (text https_word) else aref template url_scheme_name))
    unfolding line
    copy2env_lem =
        let (method, path, query, protocol, body) = line_entries r template in
        let (env, done, _) = copied in
        (
          env,
          done,
          own-line request_method (λ name. refl, refl, refl, refl, refl, refl) ∙ method,
          own-line path_info (λ name. refl, refl, refl, refl, refl, refl) ∙ path,
          own-line query_string (λ name. refl, refl, refl, refl, refl, refl) ∙ query,
          own-line server_protocol (λ name. refl, refl, refl, refl, refl, refl) ∙ protocol,
          own-line iodine_has_body (λ name. refl, refl, refl, refl, refl, refl) ∙ body,
          own-name,
          own-scheme,
        )

    -- On a request that no proxy forwarded, a header that is not Content-Length or Content-Type is
    -- in the `env` under its key, with the value of the last header that has this key.
    pub copy2env-header :
        (k : List ℕ) (v : EnvValue)
        → bytes_eq (header_key content_length_name) k ≡ false
        → bytes_eq (header_key content_type_name) k ≡ false
        → latest r.headers k ≡ some v
        → (env : Env) × (copy2env obj2cstr xforward template r ≡ some env) × (aref env k ≡ some v)
    unfolding typed measured
    copy2env-header k v length_ type_ last =
        let (env, done, all) = copied in
        let late : latest typed.1 k ≡ some v =
          type_by-latest (text_of obj2cstr xforward (get measured.1 content_type_name)) measured.0
            measured.1 k type_
          ∙ length_by-latest (text_of obj2cstr xforward (get r.headers content_length_name)) hosted
              r.headers k length_
          ∙ last in
        (env, done, all k ∙ ap (λ l. over l (aref (put_tls r.tls typed.0) k)) late)

  -- A request that no proxy forwarded is left without an `env`, by a read through a NULL pointer,
  -- exactly if `fiobj_obj2cstr` gives NULL for its Host header.
  pub copy2env-none_iff :
      (template : Env) (r : HttpRequest)
      → ((hs : Headers) → xforward hs ≡ none)
      → get r.headers forwarded_name ≡ none
      → copy2env obj2cstr xforward template r ≡ none ↔ obj2cstr (get r.headers host_name) ≡ none
  unfolding copy2env copy_host
  copy2env-none_iff template r x f = elim (Option-cases (obj2cstr (get r.headers host_name))) [
    | inl no_text ↦ (λ _. no_text, λ _. rw no_text refl)
    | inr (host, named) ↦
        let made = (copied template r host x f named).1 in (λ fails. cc, λ no_text. cc)
  ]
