-- ===== src/Pubsub/Room.antt =====
-- The subscriptions of one connection in ext/iodine/iodine_connection.c. Its methods, its close,
-- the callbacks of facil.io and the collector run in different threads: each step below is what
-- one of them does under a lock, or between two locks.
use iodine.Base.{
  ℕ, ◌+◌, ◌-◌, ◌≡◌, Bool, true, false, not, ◌&&◌, ◌||◌, List, [], ◌∷◌, ◌++◌, Option, none, some,
  ◌==◌, if◌then◌else◌, bytes_eq,
}
use iodine.Ruby.{Value, qnil, qtrue}
use iodine.Connection.State.{Kind, websocket, sse}

-- A subscription that facil.io holds: its number and `udata2`.
pub record Subscription : Type 0 where
  pub id : ℕ
  pub block : Value

-- `open` says that `info.uuid` is not -1 and the handler not nil. `joining` are subscriptions that
-- `subscribe` has made and not yet filed, `leaving` those that were cancelled and whose
-- `on_unsubscribe` is to come.
pub record Room : Type 0 where
  pub kind : Kind
  pub is_open : Bool
  pub table : List (List ℕ × ℕ)
  pub joining : List (List ℕ × ℕ)
  pub live : List Subscription
  pub leaving : List Subscription
  pub ref : ℕ
  pub collected : Bool
  pub freed : Bool
  pub text_optimized : ℕ
  pub binary_optimized : ℕ
  pub released : List Value

-- A new connection, as `iodine_connection_new` leaves it.
unfoldable pub new_room : Kind → Room
new_room kind = record {
  kind = kind;
  is_open = true;
  table = [];
  joining = [];
  live = [];
  leaving = [];
  ref = 1;
  collected = false;
  freed = false;
  text_optimized = 0;
  binary_optimized = 0;
  released = [];
}

-- fio_unsubscribe: facil.io gives the subscription back to `on_unsubscribe` later.
abbrev pub split_id : ℕ → List Subscription → List Subscription × List Subscription
split_id id [] = ([], [])
split_id id (s ∷ subs) =
    let rest = split_id id subs in if s.id == id then (s ∷ [], subs) else (rest.0, s ∷ rest.1)

unfoldable pub fio_unsubscribe : ℕ → Room → Room
fio_unsubscribe id r = record r {
  live = (split_id id r.live).1;
  leaving = (split_id id r.live).0 ++ r.leaving;
}

abbrev pub is_websocket : Kind → Bool
is_websocket websocket = true
is_websocket kind = false

abbrev pub is_sse : Kind → Bool
is_sse sse = true
is_sse kind = false

-- What `udata2` becomes: a missing block is Qtrue for a binary subscription.
abbrev pub direct_block : Bool → Value → Value
direct_block binary qnil = if binary then qtrue else qnil
direct_block binary block = block

-- `websocket_optimize4broadcasts(…, 1)`, for a subscription without a block.
unfoldable pub optimize : Bool → Value → Room → Room
optimize binary qnil r =
    if is_websocket r.kind
    then (if binary
        then record r { binary_optimized = r.binary_optimized + 1 }
        else record r { text_optimized = r.text_optimized + 1 })
    else r
optimize binary block r = r

-- The first half of `iodine_pubsub_subscribe`, up to the lock; false says that it gave up.
unfoldable pub subscribe : List ℕ → ℕ → Bool → Value → Room → Room × Bool
unfolding optimize
subscribe channel id binary block r =
    if not r.is_open || (is_sse r.kind && binary)
    then (record r { released = r.released ++ block ∷ [] }, false)
    else let counted = optimize binary block r in
      (
        record counted {
          ref = r.ref + 1;
          live = record { id = id; block = direct_block binary block } ∷ r.live;
          joining = (channel, id) ∷ r.joining;
        },
        true,
      )

abbrev pub find : List ℕ → List (List ℕ × ℕ) → Option ℕ
find channel [] = none
find channel ((c, id) ∷ subs) = if bytes_eq c channel then some id else find channel subs

abbrev pub without : List ℕ → List (List ℕ × ℕ) → List (List ℕ × ℕ)
without channel [] = []
without channel ((c, id) ∷ subs) =
    if bytes_eq c channel then subs else (c, id) ∷ without channel subs

-- iodine_sub_add: the destructor of a replaced entry unsubscribes it.
unfoldable pub iodine_sub_add : List ℕ → ℕ → Room → Room
unfolding fio_unsubscribe
iodine_sub_add channel id r =
    let filed = record r { table = (channel, id) ∷ without channel r.table } in
    elim (find channel r.table) [ none ↦ filed | some old ↦ fio_unsubscribe old filed ]

abbrev pub split_entry : ℕ → List (List ℕ × ℕ) → List (List ℕ × ℕ) × List (List ℕ × ℕ)
split_entry id [] = ([], [])
split_entry id ((c, k) ∷ subs) =
    let rest = split_entry id subs in
    if k == id then ((c, k) ∷ [], subs) else (rest.0, (c, k) ∷ rest.1)

-- The second half, under the lock, for the subscription `id`: the connection may have closed
-- meanwhile.
unfoldable pub file : ℕ → Room → Option Room
unfolding iodine_sub_add
file id r = elim (split_entry id r.joining).0 [
  | [] ↦ none
  | entry ∷ more ↦
      let waiting = record r { joining = (split_entry id r.joining).1 } in
      some (
        if r.is_open
        then iodine_sub_add entry.0 entry.1 waiting
        else fio_unsubscribe entry.1 waiting)
]

-- iodine_sub_unsubscribe
unfoldable pub unsubscribe : List ℕ → Room → Room × Bool
unfolding fio_unsubscribe
unsubscribe channel r = if not r.is_open then (r, false) else elim (find channel r.table) [
  | none ↦ (r, false)
  | some id ↦ (fio_unsubscribe id (record r { table = without channel r.table }), true)
]

-- The ON_CLOSE case of `iodine_connection_fire_event`, under the lock: one entry of the table after
-- the other is unsubscribed.
unfoldable pub clear_table : List (List ℕ × ℕ) → Room → Room
unfolding fio_unsubscribe
clear_table [] r = record r { table = [] }
clear_table ((c, id) ∷ subs) r = clear_table subs (fio_unsubscribe id r)

unfoldable pub close : Room → Room
unfolding clear_table
close r = if r.is_open then record (clear_table r.table r) { is_open = false } else r

-- iodine_connection_data_free
unfoldable pub free_data : Room → Room
free_data r = record r { ref = r.ref - 1; freed = r.ref == 1 }

-- `websocket_optimize4broadcasts(…, 0)`, or the block goes.
unfoldable pub let_go : Value → Room → Room
let_go qnil r =
    if is_websocket r.kind then record r { text_optimized = r.text_optimized - 1 } else r
let_go qtrue r =
    if is_websocket r.kind then record r { binary_optimized = r.binary_optimized - 1 } else r
let_go block r = record r { released = r.released ++ block ∷ [] }

-- iodine_on_unsubscribe, for the subscription `id`
unfoldable pub on_unsubscribe : ℕ → Room → Option Room
unfolding let_go free_data
on_unsubscribe id r = elim (split_id id r.leaving).0 [
  | [] ↦ none
  | s ∷ more ↦ some (free_data (let_go s.block (record r { leaving = (split_id id r.leaving).1 })))
]

-- The collector frees the Ruby object, which `IodineStore` holds until the close.
unfoldable pub collect : Room → Option Room
unfolding free_data
collect r =
    if r.is_open || r.collected then none else some (free_data (record r { collected = true }))

pub data Action : Type 0 where
  subscribes : List ℕ → ℕ → Bool → Value → Action
  unsubscribes : List ℕ → Action
  files : ℕ → Action
  ends : ℕ → Action
  closes collects : Action

unfoldable pub step : Action → Room → Option Room
step (subscribes channel id binary block) r = some (subscribe channel id binary block r).0
step (unsubscribes channel) r = some (unsubscribe channel r).0
step (files id) r = file id r
step closes r = some (close r)
step (ends id) r = on_unsubscribe id r
step collects r = collect r

pub data Reach (r : Room) : Room → Type 0 where
  here : Reach r r
  next : {s t : Room} (a : Action) → Reach r s → step a s ≡ some t → Reach r t
