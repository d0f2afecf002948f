-- ===== src/Connection/Examples.antt =====
-- A WebSocket connection of ext/iodine/iodine_connection.c in use.
use iodine.Base.{◌≡◌, ◌≢◌, true, false, [], ◌∷◌, some, none}
use iodine.Ruby.{object}
use iodine.Connection.State.{Data, Answers, websocket, validate_data}
use iodine.Connection.Events.{on_open, on_message, on_close}
use iodine.Connection.Lifecycle.{fire_all, releases, releases-fire_all}

abbrev all_answers : Answers
all_answers = record {
  on_open = true;
  on_message = true;
  on_drained = false;
  ping = false;
  on_shutdown = false;
  on_close = true;
}

abbrev chat : Data
chat = record {
  info = record {
    kind = websocket;
    uuid = some 12;
    arg = some 64;
    handler = object 5;
    env = object 6;
  };
  answers = all_answers;
  subscriptions = (b'a' ∷ [], 3) ∷ [];
}

valid : validate_data chat ≢ none
unfolding validate_data
valid e = cc

releases-fire_all_example :
    releases (fire_all (on_open ∷ on_message ∷ on_close ∷ on_close ∷ []) chat).0 ≡ 1
releases-fire_all_example =
    releases-fire_all (on_open ∷ on_message ∷ on_close ∷ on_close ∷ []) chat valid (λ e. cc)
