-- ===== src/Connection/Events.antt =====
-- The events of a connection and the change of its handler (ext/iodine/iodine_connection.c).
use iodine.Base.{ℕ, Bool, List, [], ◌∷◌, ◌++◌, none, some, if◌then◌else◌}
use iodine.Ruby.{Value, qnil, is_falsy, is_null, same_value}
use iodine.Connection.State.{
  Data, Answers, Callback, opened, messaged, drained, pinged, shut_down, closed, Effect, calls,
  fio_unsubscribe, lets_go, Reply, returns, validate_data,
}
use iodine.Connection.Methods.{close}

pub data Event : Type 0 where
  on_open on_message on_drained ping on_shutdown on_close : Event

-- iodine_sub_clear_all: the set's destructor unsubscribes each subscription.
unfoldable pub clear_all : List (List ℕ × ℕ) → List Effect
clear_all [] = []
clear_all ((channel, sub) ∷ subs) = fio_unsubscribe sub ∷ clear_all subs

-- The fields that the ON_CLOSE case writes.
abbrev pub shut : Data → Data
shut d = record d {
  info = record (d.info) { handler = qnil; env = qnil; uuid = none; arg = none };
  subscriptions = [];
}

unfoldable pub if_answered : Bool → Value → Callback → List Effect
if_answered answers handler callback = if answers then calls handler callback ∷ [] else []

unfoldable pub dispatch : Event → Data → List Effect × Data
unfolding clear_all if_answered
dispatch on_open d = (if_answered d.answers.on_open d.info.handler opened, d)
dispatch on_message d = (if_answered d.answers.on_message d.info.handler messaged, d)
dispatch on_drained d = (if_answered d.answers.on_drained d.info.handler drained, d)
dispatch on_shutdown d = (if_answered d.answers.on_shutdown d.info.handler shut_down, d)
dispatch ping d = (if_answered d.answers.ping d.info.handler pinged, d)
dispatch on_close d = (
  if_answered d.answers.on_close d.info.handler closed
      ++ (clear_all d.subscriptions ++ lets_go ∷ []),
  shut d,
)

-- A null handler gets no event; nor does an invalid connection.
unfoldable pub fire_event : Event → Data → List Effect × Data
unfolding dispatch validate_data
fire_event event d = elim (validate_data d) [
  | none ↦ ([], d)
  | some uuid ↦ if is_null d.info.handler then ([], d) else dispatch event d
]

-- The branch of `handler=` for another handler. `respond_to` is asked about the new one.
unfoldable pub switch_handler : (Value → Answers) → Data → Value → List Effect × Data
unfolding fire_event if_answered
switch_handler respond_to d handler =
    let switched = record d {
      info = record (d.info) { handler = handler };
      answers = respond_to handler;
    } in
    let (opening, after) = fire_event on_open switched in
    let farewell = if_answered d.answers.on_close d.info.handler closed in
    if (respond_to handler).on_open then (farewell ++ opening, after) else (farewell, switched)

unfoldable pub handler_set :
    (ℕ → Bool) → (Value → Answers) → Data → Value → List Effect × Data × Reply
unfolding switch_handler
handler_set is_closed respond_to d handler = elim (validate_data d) [
  | none ↦ ([], d, returns qnil)
  | some uuid ↦
      if is_falsy handler
      then ((close is_closed d).0, d, returns qnil)
      else if same_value d.info.handler handler
      then ([], d, returns handler)
      else let (effects, after) = switch_handler respond_to d handler in
        (effects, after, returns handler)
]
