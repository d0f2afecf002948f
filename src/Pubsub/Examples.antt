-- ===== src/Pubsub/Examples.antt =====
-- A connection of ext/iodine/iodine_connection.c that subscribes and closes.
use iodine.Base.{ℕ, ◌≡◌, ◌↔◌, refl, true, false, List, [], ◌∷◌, Option, some, none}
use iodine.Ruby.{object}
use iodine.Pubsub.Delivery.{Target, Message, deliver}
use iodine.Pubsub.Delivering.{attempts, Settled, deliver-settles}
use iodine.Connection.State.{websocket}
use iodine.Pubsub.Room.{
  Room, Reach, here, next, Action, subscribes, files, ends, closes, collects, new_room, step,
  subscribe, file, close, on_unsubscribe, collect,
}
use iodine.Pubsub.Lifetime.{freed_iff}
use iodine.Pubsub.Filing.{closed_unsubscribes}

abbrev news : List ℕ
news = b'n' ∷ b'e' ∷ b'w' ∷ b's' ∷ []

abbrev or_else : Room → Option Room → Room
or_else r none = r
or_else r (some s) = s

abbrev after : List Action → Room → Room
after [] r = r
after (a ∷ actions) r = after actions (or_else r (step a r))

-- The close comes between the two halves of a `subscribe`.
abbrev left : Room
left = after (subscribes news 4 false (object 7) ∷ closes ∷ files 4 ∷ []) (new_room websocket)

left-Reach : Reach (new_room websocket) left
unfolding step subscribe file close new_room
left-Reach =
    next (files 4) (next closes (next (subscribes news 4 false (object 7)) here refl) refl) refl

closed_unsubscribes_example : left.live ≡ []
unfolding step subscribe file close new_room
closed_unsubscribes_example = closed_unsubscribes websocket left left-Reach refl refl

abbrev gone : Room
gone = after (collects ∷ ends 4 ∷ []) left

gone-Reach : Reach (new_room websocket) gone
unfolding step subscribe file close on_unsubscribe collect new_room
gone-Reach = next (ends 4) (next collects left-Reach refl) refl

freed_iff_example :
    (gone.freed ≡ true) ↔ ((gone.collected ≡ true) × (gone.live ≡ []) × (gone.leaving ≡ []))
freed_iff_example = freed_iff websocket gone gone-Reach

abbrev message : Message
message = record {
  bytes = news;
  channel_string = object 1;
  text_string = object 2;
  frame = λ is_text. none;
}

abbrev client : Target
client = record { kind = websocket; uuid = some 5; arg = none; handler = object 3 }

deliver-settles_example :
    Settled true
      (5 ∷ [])
      (deliver (λ uuid. false) (attempts 2 true) (some client) (object 4) message)
deliver-settles_example = deliver-settles (λ uuid. false) 2 true (some client) (object 4) message
