-- ===== src/Http/Response.antt =====
-- `ruby2c_response_send`, `ruby2c_review_upgrade` and `iodine_perform_handle_action` of
-- ext/iodine/iodine_http.c: what is made of the body that the application answered, and how it is
-- sent once the lock of the interpreter is released.
pub mod Sending
use iodine.Base.{
  ℕ, ◌+◌, Bool, true, false, ◌||◌, List, [], ◌∷◌, ◌++◌, Option, none, some, ltb, ◌==◌,
  if◌then◌else◌,
}
use iodine.Http.Headers.{Calls}

-- What an `each` passes to its block.
pub data Piece : Type 0 where
  string : List ℕ → Piece
  no_string : Piece

-- The body as Ruby has it: an object is told by what its `each` yields, if it has one, and by
-- whether it has a `close`.
mutual
  pub data Body : Type 0 where
    nil_body : Body
    text : List ℕ → Body
    array : Bodies → Body
    object : Option (List Piece) → Bool → Body

  pub data Bodies : Type 0 where
    none_left : Bodies
    item : Body → Bodies → Bodies

-- iodine_http_response_type_enum
pub data ResponseType : Type 0 where
  none_type send_body xsendfile empty error wait deferred : ResponseType

-- iodine_http_request_handle_s, with what it points to: the status, the headers that were set, and
-- how often the body of the application was closed.
pub record Handle : Type 0 where
  pub status : ℕ
  pub headers : Calls
  pub kind : ResponseType
  pub body : Option (List ℕ)
  pub root : Option (List ℕ)
  pub closed : ℕ

abbrev pub piece_of : Body → Piece
piece_of (text s) = string s
piece_of b = no_string

-- Array#each
abbrev pub pieces_of : Bodies → List Piece
pieces_of none_left = []
pieces_of (item b bs) = piece_of b ∷ pieces_of bs

-- `for_each_body_string` for each piece: what is no String is logged and left out.
abbrev pub write_pieces : List Piece → List ℕ
write_pieces [] = []
write_pieces (string s ∷ ps) = s ++ write_pieces ps
write_pieces (no_string ∷ ps) = write_pieces ps

-- `if (rb_respond_to(body, close_method_id)) …`
abbrev pub close_body : Body → Handle → Handle
close_body (object each true) h = record h { closed = h.closed + 1 }
close_body b h = h

-- The end of the function, after the Array of one item is unpacked; `none` is the answer -1.
abbrev pub send_unpacked : Body → Handle → Option Handle
send_unpacked (text []) h = some (record h { kind = empty })
send_unpacked (text (c ∷ s)) h = some (record h { kind = send_body; body = some (c ∷ s) })
send_unpacked (array bs) h =
    some (record h { kind = send_body; body = some (write_pieces (pieces_of bs)) })
send_unpacked (object (some ps) closes) h = some (
    close_body (object (some ps) closes)
      (record h { kind = send_body; body = some (write_pieces ps) }))
send_unpacked (object none closes) h = none
send_unpacked nil_body h = none

abbrev pub send_checked : Body → Handle → Option Handle
send_checked (array none_left) h = some (record h { kind = empty })
send_checked (array (item b none_left)) h = send_unpacked b h
send_checked b h = send_unpacked b h

-- The statuses that have no body.
abbrev pub is_bodiless : ℕ → Bool
is_bodiless status = ltb status 200 || status == 204 || status == 304

unfoldable pub response_send : Body → Handle → Option Handle
response_send b h =
    if is_bodiless h.status
    then some (close_body b (record h { kind = empty }))
    else send_checked b h

-- What the `env` holds after the application was called: which of the keys are not nil, and the
-- value of `rack.upgrade?`.
pub data UpgradeType : Type 0 where
  websocket_type sse_type truthy falsy : UpgradeType

pub record Env : Type 0 where
  pub hijack_cb : Bool
  pub hijack_io : Bool
  pub upgrade_tcp : Bool
  pub upgrade : Bool
  pub upgrade_type : UpgradeType

pub data Upgrade : Type 0 where
  hijack_callback hijacked websocket sse tcp : Upgrade

abbrev pub upgrade_of : UpgradeType → Option Upgrade
upgrade_of websocket_type = some websocket
upgrade_of sse_type = some sse
upgrade_of truthy = some tcp
upgrade_of falsy = none

unfoldable pub review_upgrade : Env → Option Upgrade
review_upgrade env =
    if env.hijack_cb
    then some hijack_callback
    else if env.hijack_io
    then some hijacked
    else if env.upgrade_tcp
    then some tcp
    else if env.upgrade
    then upgrade_of env.upgrade_type
    else none

-- The calls of facil.io that end a request, and the warning of the last case.
pub data Reply : Type 0 where
  body_sent : List ℕ → Reply
  file_sent : Option (List ℕ) → List ℕ → Reply
  finished : Reply
  error_sent : ℕ → Reply
  warned : Reply

abbrev pub or_empty : Option (List ℕ) → List ℕ
or_empty none = []
or_empty (some s) = s

abbrev cache_control : List ℕ
cache_control =
    b'c' ∷ b'a' ∷ b'c' ∷ b'h' ∷ b'e' ∷ b'-' ∷ b'c' ∷ b'o' ∷ b'n' ∷ b't' ∷ b'r' ∷ b'o' ∷ b'l' ∷ []

abbrev no_cache : List ℕ
no_cache =
    b'n' ∷ b'o' ∷ b'-' ∷ b'c' ∷ b'a' ∷ b'c' ∷ b'h' ∷ b'e' ∷ b',' ∷ b' ' ∷ b'm' ∷ b'a' ∷ b'x' ∷ b'-'
    ∷ b'a' ∷ b'g' ∷ b'e' ∷ b'=' ∷ b'0' ∷ []

-- What facil.io does: the number that it reads in a text, the length of the Content-Encoding that
-- was set, the headers without it, and whether a file cannot be sent.
pub record Facil : Type 0 where
  pub atol : List ℕ → ℕ
  pub encoding_length : Calls → ℕ
  pub without_encoding : Calls → Calls
  pub sendfile_fails : Option (List ℕ) → List ℕ → Bool

module _ (F : Facil) where
  open F use {encoding_length, without_encoding, sendfile_fails}

  abbrev pub send_file : Handle → Reply × Handle
  send_file h =
      if sendfile_fails h.root (or_empty h.body)
      then (
        error_sent 404,
        record h { headers = (cache_control, no_cache) ∷ []; body = none; root = none },
      )
      else (
        file_sent h.root (or_empty h.body),
        record h {
          headers =
              if encoding_length h.headers == 7 then without_encoding h.headers else h.headers;
          body = none;
          root = none;
        },
      )

  -- The `switch (handle.type)`: the reply, and the handle with what was freed set to none.
  unfoldable pub perform_handle_action : Handle → Option Reply × Handle
  perform_handle_action h = elim h.kind [
    | send_body ↦ (some (body_sent (or_empty h.body)), record h { body = none })
    | xsendfile ↦ let r = send_file h in (some r.0, r.1)
    | empty ↦ (some finished, record h { body = none })
    | none_type ↦ (none, h)
    | error ↦ (some (error_sent h.status), record h { body = none })
    | _ ↦ (some warned, h)
  ]
