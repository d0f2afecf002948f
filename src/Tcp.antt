-- ===== src/Tcp.antt =====
-- ext/iodine/iodine_tcp.c: the protocol that turns facil.io's callbacks on a raw socket into the
-- events of a connection, and the calls that listen, connect and attach. Calls into facil.io, Ruby
-- and the storage are listed as effects, in their order.
pub mod Reading
pub mod Callbacks
pub mod Balance
pub mod Lifetimes
mod Examples
use iodine.Base.{
  ℕ, Bool, true, false, List, [], ◌∷◌, ◌++◌, map, Option, none, some, ◌==◌, if◌then◌else◌, length,
}
use iodine.Ruby.{Value, qnil, is_special}
use iodine.Store.Counts.{Call, add, drop}
use iodine.Connection.State
use iodine.Connection.State.{raw, Answers, Data, lets_go}
use iodine.Connection.Events.{
  Event, on_open, on_message, on_drained, ping, on_shutdown, on_close, fire_event,
}
use iodine.Connection.Creation.{connection_new}

abbrev pub iodine_max_read : ℕ
iodine_max_read = 8192

pub data Effect : Type 0 where
  stores : Call → Effect
  acts : State.Effect → Effect
  new_string : List ℕ → Effect
  attaches closes_uuid forces_on_data forces_on_ready : ℕ → Effect
  frees : Effect

-- iodine_protocol_s, with the data of its Ruby object and whether `on_ready` is set.
pub record Protocol : Type 0 where
  pub uuid : ℕ
  pub io : Value
  pub data_ : Option Data
  pub on_ready_set : Bool

-- The event lets go of the connection by `IodineStore.remove`.
abbrev pub effect_of : Value → State.Effect → Effect
effect_of io lets_go = stores (drop io)
effect_of io e = acts e

abbrev pub effects_of : Value → List State.Effect → List Effect
effects_of io [] = []
effects_of io (e ∷ es) = effect_of io e ∷ effects_of io es

-- iodine_connection_fire_event; a connection that could not be made is nil, and only logged.
unfoldable pub fire_on : Event → Protocol → Option Data → List Effect × Protocol
unfolding fire_event
fire_on event p none = ([], p)
fire_on event p (some d) =
    let (effects, after) = fire_event event d in
    (effects_of p.io effects, record p { data_ = some after })

unfoldable pub fire : Event → Protocol → List Effect × Protocol
unfolding fire_on
fire event p = fire_on event p p.data_

-- iodine_tcp_on_data, for a buffer of some size: `none` is a read that gave nothing; `message` is
-- the new String.
unfoldable pub on_data : ℕ → Value → Option (List ℕ) → Protocol → List Effect × Protocol
unfolding fire
on_data size message none p = ([], p)
on_data size message (some bytes) p =
    let (effects, after) = fire on_message p in
    (
      new_string bytes ∷ stores (add message) ∷ effects
          ++ stores (drop message)
            ∷ (if length bytes == size then forces_on_data p.uuid ∷ [] else []),
      after,
    )

unfoldable pub on_ready : Protocol → List Effect × Protocol
unfolding fire
on_ready p = fire on_drained p

unfoldable pub tcp_on_shutdown : Protocol → List Effect × Protocol
unfolding fire
tcp_on_shutdown p = fire on_shutdown p

unfoldable pub tcp_on_close : Protocol → List Effect × Protocol
unfolding fire
tcp_on_close p = let (effects, after) = fire on_close p in (effects ++ frees ∷ [], after)

unfoldable pub tcp_ping : Protocol → List Effect × Protocol
unfolding fire
tcp_ping p = fire ping p

-- What facil.io and Ruby answer in the course of an attachment.
pub record World : Type 0 where
  pub respond_to : Value → Answers
  pub new_object : Value
  pub is_valid : Bool

abbrev pub opened : World → Protocol → List Effect × Option Protocol
opened w p =
    let (effects, after) = fire on_open p in
    if w.is_valid
    then (effects ++ forces_on_ready p.uuid ∷ [], some (record after { on_ready_set = true }))
    else ([], some p)

abbrev pub stores_all : List Call → List Effect
stores_all [] = []
stores_all (c ∷ cs) = stores c ∷ stores_all cs

-- iodine_tcp_attch_uuid; the protocol, a pointer, is named by its descriptor.
unfoldable pub attach_uuid : World → ℕ → Value → List Effect × Option Protocol
unfolding fire connection_new
attach_uuid w uuid handler =
    let (kept, data') =
      connection_new w.respond_to w.new_object
        (record { kind = raw; uuid = some uuid; arg = some uuid; handler = handler; env = qnil }) in
    let (effects, after) =
      opened w (record { uuid = uuid; io = w.new_object; data_ = data'; on_ready_set = false }) in
    if is_special handler
    then (closes_uuid uuid ∷ [], none)
    else (stores_all kept ++ attaches uuid ∷ effects, after)
