-- ===== src/Connection/Methods.antt =====
-- The methods of Iodine::Connection that write, close and ask (ext/iodine/iodine_connection.c).
-- `is_closed` is facil.io's answer at the time of the call.
use iodine.Base.{ℕ, Bool, List, [], ◌∷◌, none, some, ltb, if◌then◌else◌, u8}
use iodine.Ruby.{qnil, qtrue, qfalse, is_null}
use iodine.Connection.State.{
  raw, websocket, sse, Data, Effect, websocket_write, websocket_close, fio_write, fio_close,
  fio_timeout_set, type_error, range_error, Reply, returns, number, minus_one, symbol, raises,
  validate_data, live_uuid,
}

-- What a Ruby object is worth as text: a String with its bytes and whether it is UTF-8, or another
-- object with what its `to_s` gives.
pub data Text : Type 0 where
  string : List ℕ → Bool → Text
  to_string : List ℕ → Bool → Text
  no_string : Text

write_bytes : Data → ℕ → List ℕ → Bool → List Effect
write_bytes d uuid bytes utf8 = elim d.info.kind [
  | websocket ↦ websocket_write d.info.arg bytes utf8 ∷ []
  | sse ↦ fio_write uuid bytes ∷ []
  | raw ↦ fio_write uuid bytes ∷ []
]

-- The conversion by `to_s` comes after the test of the connection.
unfoldable pub write : (ℕ → Bool) → Data → Text → List Effect × Reply
unfolding write_bytes
write is_closed d text = elim (live_uuid is_closed d) [
  | none ↦ ([], returns qnil)
  | some uuid ↦ elim text [
    | string bytes utf8 ↦ (write_bytes d uuid bytes utf8, returns qtrue)
    | to_string bytes utf8 ↦ (write_bytes d uuid bytes utf8, returns qtrue)
    | no_string ↦ ([], raises type_error)
  ]
]

close_uuid : Data → ℕ → Effect
close_uuid d uuid = elim d.info.kind [
  | websocket ↦ websocket_close d.info.arg
  | sse ↦ fio_close uuid
  | raw ↦ fio_close uuid
]

unfoldable pub close : (ℕ → Bool) → Data → List Effect × Reply
unfolding close_uuid
close is_closed d = elim (live_uuid is_closed d) [
  | none ↦ ([], returns qnil)
  | some uuid ↦ (close_uuid d uuid ∷ [], returns qnil)
]

unfoldable pub is_open : (ℕ → Bool) → Data → Reply
is_open is_closed d = elim (live_uuid is_closed d) [
  | none ↦ returns qfalse
  | some uuid ↦ returns qtrue
]

-- `fio_pending` counts the writes that wait.
unfoldable pub pending : (ℕ → Bool) → (ℕ → ℕ) → Data → Reply
pending is_closed fio_pending d = elim (live_uuid is_closed d) [
  | none ↦ minus_one
  | some uuid ↦ number (fio_pending uuid)
]

unfoldable pub protocol_name : Data → Reply
protocol_name d = elim (validate_data d) [ none ↦ returns qnil | some uuid ↦ symbol d.info.kind ]

unfoldable pub timeout_get : (ℕ → Bool) → (ℕ → ℕ) → Data → Reply
timeout_get is_closed fio_timeout_get d = elim (live_uuid is_closed d) [
  | none ↦ returns qnil
  | some uuid ↦ number (fio_timeout_get uuid)
]

-- What `NUM2INT` gives of a Fixnum: a number or one below 0.
pub data Argument : Type 0 where
  not_a_fixnum negative : Argument
  fixnum : ℕ → Argument

unfoldable pub timeout_set : (ℕ → Bool) → Data → Argument → List Effect × Reply
timeout_set is_closed d not_a_fixnum = ([], raises type_error)
timeout_set is_closed d negative = ([], raises range_error)
timeout_set is_closed d (fixnum tout) =
    if ltb 255 tout then ([], raises range_error) else elim (live_uuid is_closed d) [
      | none ↦ ([], returns qnil)
      | some uuid ↦ (fio_timeout_set uuid (u8 tout) ∷ [], number tout)
    ]

-- `c && c->info.env`
unfoldable pub env : Data → Reply
env d = elim (validate_data d) [
  | none ↦ returns qnil
  | some uuid ↦ if is_null d.info.env then returns qnil else returns d.info.env
]

unfoldable pub handler_get : Data → Reply
handler_get d = elim (validate_data d) [ none ↦ returns qnil | some uuid ↦ returns d.info.handler ]
