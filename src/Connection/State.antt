-- ===== src/Connection/State.antt =====
-- The data behind an Iodine::Connection (ext/iodine/iodine_connection.h, iodine_connection.c).
-- Calls into facil.io and into Ruby are listed as effects, in their order.
use iodine.Base.{ℕ, Bool, List, Option, none, some, if◌then◌else◌}
use iodine.Ruby.{Value, is_nil}

pub data Kind : Type 0 where
  raw websocket sse : Kind

-- iodine_connection_s; a uuid of -1 is `none`, a NULL pointer too.
pub record Info : Type 0 where
  pub kind : Kind
  pub uuid : Option ℕ
  pub arg : Option ℕ
  pub handler : Value
  pub env : Value

-- Which callbacks a handler answers, as `rb_respond_to` says.
pub record Answers : Type 0 where
  pub on_open : Bool
  pub on_message : Bool
  pub on_drained : Bool
  pub ping : Bool
  pub on_shutdown : Bool
  pub on_close : Bool

-- iodine_connection_data_s. Subscriptions are numbered, and filed under their channel's name.
pub record Data : Type 0 where
  pub info : Info
  pub answers : Answers
  pub subscriptions : List (List ℕ × ℕ)

pub data Callback : Type 0 where
  opened messaged drained pinged shut_down closed : Callback

pub data Effect : Type 0 where
  websocket_write : Option ℕ → List ℕ → Bool → Effect
  websocket_close : Option ℕ → Effect
  fio_write : ℕ → List ℕ → Effect
  fio_close : ℕ → Effect
  fio_timeout_set : ℕ → ℕ → Effect
  calls : Value → Callback → Effect
  fio_unsubscribe : ℕ → Effect
  lets_go : Effect

pub data Error : Type 0 where
  type_error range_error argument_error : Error

pub data Reply : Type 0 where
  returns : Value → Reply
  number : ℕ → Reply
  minus_one : Reply
  symbol : Kind → Reply
  raises : Error → Reply

-- iodine_connection_validate_data: the uuid of a connection that is valid.
unfoldable pub validate_data : Data → Option ℕ
validate_data d = if is_nil d.info.handler then none else d.info.uuid

-- `c && !fio_is_closed(c->info.uuid)`
unfoldable pub live_uuid : (ℕ → Bool) → Data → Option ℕ
unfolding validate_data
live_uuid is_closed d = elim (validate_data d) [
  | none ↦ none
  | some uuid ↦ if is_closed uuid then none else some uuid
]
