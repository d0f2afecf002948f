-- ===== src/Http/Request.antt =====
-- `iodine_handle_request_in_GVL`, `on_rack_request` and `http_resume_deferred_request_handler` of
-- ext/iodine/iodine_http.c. The calls of the storage are kept in their order, to be run on it.
mod Examples
pub mod Balance
pub mod Answers
use iodine.Base.{
  ℕ, ◌<◌, Bool, true, false, ◌&&◌, ◌||◌, List, [], ◌∷◌, ◌++◌, Option, none, some, ltb, leb, ◌==◌,
  if◌then◌else◌, bytes_eq,
}
use iodine.Ruby.{Value, qnil}
use iodine.Store.Counts.{Call, add, drop}
use iodine.Http.Upgrades.{Attaching, attach}
use iodine.Http.Headers.{Header, text, Key, text_key, set_headers}
use iodine.Http.Response.{
  Body, object, Handle, ResponseType, none_type, xsendfile, error, wait, deferred, close_body,
  response_send, Env, Upgrade, review_upgrade, Reply, Facil, perform_handle_action,
}

-- The first entry of the answer: the Symbol that pauses the request, a status or neither.
pub data First : Type 0 where
  wait_directive : First
  status_text : List ℕ → First
  status_number : ℕ → First
  no_status : First

-- The second entry: the fiber to wait for, or the headers, and what a copy of them is.
pub data Second : Type 0 where
  no_hash : Value → Second
  hash : Value → Option Value → List (Key × Header) → Second

-- What the application answered, or the fiber in its place.
pub data Answer : Type 0 where
  no_array : Value → Answer
  triple : Value → First → Second → Body → Answer

-- The request as the handler finds it, with what an upgrade of it meets.
pub record Request : Type 0 where
  pub has_app : Bool
  pub support_xsendfile : Bool
  pub env : Value
  pub upgrades : Env
  pub attaching : Attaching
  pub answer : Answer

-- What the handler did: `connection` is the object of a new connection that stays open.
pub record Outcome : Type 0 where
  pub calls : List Call
  pub handle : Handle
  pub upgraded : Option Upgrade
  pub connection : Option Value
  pub fiber : Option Value

abbrev pub new_handle : ResponseType → Handle
new_handle kind = record {
  status = 200;
  headers = [];
  kind = kind;
  body = none;
  root = none;
  closed = 0;
}

-- `(intptr_t)h->status < 300`, on the unsigned status.
abbrev pub is_below_300 : ℕ → Bool
is_below_300 s = ltb s 300 || leb 9223372036854775808 s

abbrev pub is_named : List ℕ → Key → Bool
is_named name (text_key k) = bytes_eq k name
is_named name k = false

-- rb_hash_aref, as far as it answers a String.
abbrev pub text_under : List ℕ → List (Key × Header) → Option (List ℕ)
text_under name [] = none
text_under name ((k, text v) ∷ rest) = if is_named name k then some v else text_under name rest
text_under name ((k, v) ∷ rest) = if is_named name k then none else text_under name rest

-- rb_hash_delete
abbrev pub without : List ℕ → List (Key × Header) → List (Key × Header)
without name [] = []
without name ((k, v) ∷ rest) =
    if is_named name k then without name rest else (k, v) ∷ without name rest

abbrev pub x_sendfile : List ℕ
x_sendfile = b'x' ∷ b'-' ∷ b's' ∷ b'e' ∷ b'n' ∷ b'd' ∷ b'f' ∷ b'i' ∷ b'l' ∷ b'e' ∷ []

abbrev pub x_sendfile_root : List ℕ
x_sendfile_root = x_sendfile ++ b'-' ∷ b'r' ∷ b'o' ∷ b'o' ∷ b't' ∷ []

abbrev pub content_length : List ℕ
content_length =
    b'c' ∷ b'o' ∷ b'n' ∷ b't' ∷ b'e' ∷ b'n' ∷ b't' ∷ b'-' ∷ b'l' ∷ b'e' ∷ b'n' ∷ b'g' ∷ b't' ∷ b'h'
    ∷ []

-- `if (xroot != Qnil && TYPE(xroot) == T_STRING) rb_hash_delete(…)`
abbrev pub without_root : Option (List ℕ) → List (Key × Header) → List (Key × Header)
without_root none headers = headers
without_root (some root) headers = without x_sendfile_root headers

-- The copy that stands in for frozen headers.
abbrev pub copy_or : Option Value → Value → Value
copy_or none v = v
copy_or (some copy) v = copy

abbrev pub finish : List Call → Value → Value → Handle → Outcome
finish calls response env h = record {
  calls = calls ++ drop response ∷ drop env ∷ [];
  handle = h;
  upgraded = none;
  connection = none;
  fiber = none;
}

abbrev pub fail : List Call → Value → Value → ℕ → Handle → Outcome
fail calls response env status h =
    finish calls response env (record h { status = status; kind = error })

-- The X-Sendfile branch, which ends with `goto finish`.
abbrev pub send_file :
    List Call → Value → Value → Value → List ℕ → List (Key × Header) → Handle → Outcome
send_file calls response env hash_ file headers h =
    let rest = without x_sendfile headers in
    let root = text_under x_sendfile_root rest in
    let sent = without content_length (without_root root rest) in
    finish (calls ++ add hash_ ∷ drop hash_ ∷ []) response env (record h {
      kind = xsendfile;
      body = some file;
      root = root;
      headers = set_headers sent h.headers;
    })

abbrev pub file_or : Option (List ℕ) → (List ℕ → Outcome) → Outcome → Outcome
file_or none sent outcome = outcome
file_or (some file) sent outcome = sent file

-- After the headers: the upgrade, or else the body.
abbrev pub answer_or_fail : List Call → Value → Value → Option Handle → Handle → Outcome
answer_or_fail calls response env none h = fail calls response env 500 h
answer_or_fail calls response env (some sent) h = finish calls response env sent

abbrev pub upgrade_or_answer :
    List Call → Value → Value → Attaching → Option Upgrade → Body → Handle → Outcome
unfolding attach
upgrade_or_answer calls response env a (some up) body h =
    let (kept, connection) = attach up env a in
    let done : Outcome =
      finish (calls ++ kept) response env (record (close_body body h) { kind = none_type }) in
    record done { upgraded = some up; connection = connection }
upgrade_or_answer calls response env a none body h =
    answer_or_fail calls response env (response_send body h) h

-- What is left of a request: the reply, and whether it is paused.
pub record Done : Type 0 where
  pub outcome : Outcome
  pub reply : Option Reply
  pub handle : Handle
  pub paused : Bool

abbrev pub is_wait : ResponseType → Bool
is_wait wait = true
is_wait k = false

module _ (F : Facil) where
  open F use {atol}

  abbrev pub status_of : First → Option ℕ
  status_of (status_text s) = some (atol s)
  status_of (status_number n) = some n
  status_of wait_directive = none
  status_of no_status = none

  -- From the status on; `calls` already holds the response.
  abbrev pub with_status : Request → List Call → Value → Option ℕ → Second → Body → Handle → Outcome
  with_status r calls response none second body h = fail calls response r.env 500 h
  with_status r calls response (some s) (no_hash v) body h = fail calls response r.env 500 h
  with_status r calls response (some s) (hash v frozen headers) body h =
      let plain : Handle = record h { status = s; headers = set_headers headers h.headers } in
      let up = if is_below_300 s then review_upgrade r.upgrades else none in
      file_or (if r.support_xsendfile then text_under x_sendfile headers else none)
        (λ file.
          send_file calls response r.env (copy_or frozen v) file headers (record h { status = s }))
        (upgrade_or_answer calls response r.env r.attaching up body plain)

  abbrev pub with_answer : Request → Answer → Handle → Outcome
  with_answer r (no_array v) h = fail [] v r.env 500 h
  with_answer r (triple v wait_directive (no_hash fiber) body) h = record {
    calls = add fiber ∷ drop r.env ∷ [];
    handle = record h { kind = wait };
    upgraded = none;
    connection = none;
    fiber = some fiber;
  }
  with_answer r (triple v wait_directive (hash fiber frozen headers) body) h = record {
    calls = add fiber ∷ drop r.env ∷ [];
    handle = record h { kind = wait };
    upgraded = none;
    connection = none;
    fiber = some fiber;
  }
  with_answer r (triple v first second body) h =
      with_status r (add v ∷ []) v (status_of first) second body h

  -- A resumed request finds its `env` in the fiber, where the storage does not hold it.
  unfoldable pub handle_request : Bool → Request → Outcome
  handle_request resumed r =
      let h = new_handle (if resumed then deferred else none_type) in
      let o = with_answer r r.answer h in
      if r.has_app
      then record o { calls = (if resumed then [] else add r.env ∷ []) ++ o.calls }
      else fail [] qnil qnil 404 h

  unfoldable pub on_rack_request : Request → Done
  unfolding handle_request perform_handle_action
  on_rack_request r =
      let o = handle_request false r in
      let p = perform_handle_action F o.handle in
      let paused = is_wait o.handle.kind in
      record {
        outcome = o;
        reply = if paused then none else p.0;
        handle = if paused then o.handle else p.1;
        paused = paused;
      }

  -- The fiber that the request waited for is let go, whatever the handler did.
  unfoldable pub resume_request : Value → Request → Done
  unfolding handle_request perform_handle_action
  resume_request fiber r =
      let o = handle_request true r in
      let p = perform_handle_action F o.handle in
      record {
        outcome = record o { calls = o.calls ++ drop fiber ∷ [] };
        reply = p.0;
        handle = p.1;
        paused = false;
      }
