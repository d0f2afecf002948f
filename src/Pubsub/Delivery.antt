-- ===== src/Pubsub/Delivery.antt =====
-- The delivery of a message to a subscription: `iodine_on_pubsub` and
-- `iodine_on_pubsub_call_block` of ext/iodine/iodine_connection.c.
use iodine.Base.{ℕ, Bool, true, false, List, [], ◌∷◌, ◌++◌, Option, none, some, if◌then◌else◌}
use iodine.Ruby.{Value, qnil, qtrue, qfalse, object, is_nil}
use iodine.Store.Counts.{Call, add, drop}
use iodine.Connection.State.{Kind, websocket}

-- What the callback reads of a connection's data.
pub record Target : Type 0 where
  pub kind : Kind
  pub uuid : Option ℕ
  pub arg : Option ℕ
  pub handler : Value

pub data Effect : Type 0 where
  stores : Call → Effect
  calls_block : Value → Value → Value → Effect
  sends_frame : ℕ → ℕ → Effect
  websocket_write : Option ℕ → List ℕ → Bool → Effect
  fio_write : ℕ → List ℕ → Effect
  unlocks : ℕ → Effect
  logs_error : Effect

-- `defers` says that facil.io will deliver the message again.
pub data Outcome : Type 0 where
  done : List Effect → Outcome
  defers : Outcome

-- The answer of `fio_protocol_try_lock`.
pub data Lock : Type 0 where
  locked busy bad_descriptor : Lock

-- A message, with the Strings that are made for its channel and its text, and the frame that was
-- written for all text or all binary subscriptions.
pub record Message : Type 0 where
  pub bytes : List ℕ
  pub channel_string : Value
  pub text_string : Value
  pub frame : Bool → Option ℕ

-- iodine_on_pubsub_call_block
unfoldable pub call_block : Message → Value → List Effect
call_block m block =
    stores (add m.channel_string)
    ∷ stores (add m.text_string)
    ∷ calls_block block m.channel_string m.text_string
    ∷ stores (drop m.text_string)
    ∷ stores (drop m.channel_string)
    ∷ []

abbrev pub write_frame : Option ℕ → ℕ → Message → Bool → Option ℕ → List Effect
write_frame arg uuid m is_text none = websocket_write arg m.bytes is_text ∷ []
write_frame arg uuid m is_text (some frame) = sends_frame uuid frame ∷ []

abbrev pub write_to : Kind → Option ℕ → ℕ → Message → Bool → List Effect
write_to websocket arg uuid m is_text = write_frame arg uuid m is_text (m.frame is_text)
write_to kind arg uuid m is_text = fio_write uuid m.bytes ∷ []

abbrev pub direct_to : (ℕ → Bool) → Target → Option ℕ → Message → Bool → List Effect
direct_to is_closed d none m is_text = []
direct_to is_closed d (some uuid) m is_text =
    if is_nil d.handler
    then []
    else (if is_closed uuid then [] else write_to d.kind d.arg uuid m is_text)

-- A subscription without a block.
abbrev pub direct : (ℕ → Bool) → Option Target → Message → Bool → Outcome
direct is_closed none m is_text = done (logs_error ∷ [])
direct is_closed (some d) m is_text = done (direct_to is_closed d d.uuid m is_text)

abbrev pub under_lock : Lock → ℕ → Message → Value → Outcome
unfolding call_block
under_lock locked uuid m block = done (call_block m block ++ unlocks uuid ∷ [])
under_lock busy uuid m block = defers
under_lock bad_descriptor uuid m block = done []

abbrev pub uuid_of : Option Target → Option ℕ
uuid_of none = none
uuid_of (some d) = d.uuid

abbrev pub to_block : Lock → Option ℕ → Message → Value → Outcome
unfolding call_block under_lock
to_block lock none m block = done (call_block m block)
to_block lock (some uuid) m block = under_lock lock uuid m block

-- iodine_on_pubsub; only nil is a subscription to text.
unfoldable pub on_pubsub : (ℕ → Bool) → Lock → Option Target → Value → Message → Outcome
unfolding to_block
on_pubsub is_closed lock d qfalse m = direct is_closed d m false
on_pubsub is_closed lock d qnil m = direct is_closed d m true
on_pubsub is_closed lock d qtrue m = direct is_closed d m false
on_pubsub is_closed lock d (object n) m = to_block lock (uuid_of d) m (object n)

-- facil.io delivers a deferred message again, and each time the lock answers anew; `none` if it was
-- deferred to the last.
abbrev pub again : Outcome → Option (List Effect) → Option (List Effect)
again (done effects) later = some effects
again defers later = later

unfoldable pub deliver :
    (ℕ → Bool) → List Lock → Option Target → Value → Message → Option (List Effect)
unfolding on_pubsub
deliver is_closed [] d block m = none
deliver is_closed (lock ∷ locks) d block m =
    again (on_pubsub is_closed lock d block m) (deliver is_closed locks d block m)
