-- ===== src/Scheduler/Faults.antt =====
-- Where ext/iodine/scheduler.c reads freed memory, leaves memory unset or loses a timeout, and where
-- it does not.
use Prim.Native.Nat.{bit_and}
use iodine.Base.{ℕ, suc, ◌*◌, ◌≡◌, ◌≢◌, refl, List, [], ◌∷◌, Option, none, some, arith, ◌↔◌}
use iodine.Scheduler.Attach.{
  Resumed, with_event, with_timeout, Handler, noop, perform, deferred_not_ready, Flags, Watch,
  attach, fulfil, task_close, handle, Event, on_data, on_ready, ping, on_close, runs_deferred,
  comes_back, Lane, task_lock, write_lock, no_lock, Outcome, runs, impossible, use_after_free,
  and_then, react, react_all,
}

-- No task of `fio_defer` points to the protocol.
record NoTask (w : Watch) : Type 0 where
  none_deferred : w.deferred ≡ 0
  none_late : w.in_deferred ≡ 0
  data_plain : w.protocol.on_data ≢ deferred_not_ready
  ready_plain : w.protocol.on_ready ≢ deferred_not_ready

fulfil-NoTask :
    (lane : Lane) (r : Resumed) (w : Watch)
    → (lane ≡ no_lock → ⊥)
    → NoTask w
    → NoTask (fulfil lane r w)
unfolding fulfil
fulfil-NoTask task_lock r w l n = ground arith
fulfil-NoTask write_lock r w l n = ground arith
fulfil-NoTask no_lock r w l n = absurd (l refl)

handle-NoTask :
    (lane : Lane) (h : Handler) (w : Watch)
    → (lane ≡ no_lock → ⊥)
    → h ≢ deferred_not_ready
    → NoTask w
    → NoTask (handle lane h w)
unfolding handle
handle-NoTask lane noop w l d n = n
handle-NoTask lane perform w l d n = fulfil-NoTask lane with_event w l n
handle-NoTask lane deferred_not_ready w l d n = absurd (d refl)

abbrev StaysFree : Outcome → Type 0
StaysFree (runs v) = NoTask v
StaysFree impossible = Unit {0}
StaysFree use_after_free = ⊥

react-StaysFree : (e : Event) (w : Watch) → NoTask w → StaysFree (react e w)
unfolding react task_close
react-StaysFree on_data w n =
    ground (arith, handle-NoTask task_lock w.protocol.on_data w (λ e. cc) n.data_plain n)
react-StaysFree on_ready w n =
    ground (arith, handle-NoTask write_lock w.protocol.on_ready w (λ e. cc) n.ready_plain n)
react-StaysFree ping w n = ground (arith, fulfil-NoTask write_lock with_timeout w (λ e. cc) n)
react-StaysFree on_close w n = ground arith
react-StaysFree runs_deferred w n = ground arith
react-StaysFree (comes_back task_lock) w n = ground arith
react-StaysFree (comes_back write_lock) w n = ground arith
react-StaysFree (comes_back no_lock) w n = ground arith

and_then-StaysFree :
    (r : Outcome) (k : Watch → Outcome)
    → StaysFree r
    → ((u : Watch) → NoTask u → StaysFree (k u))
    → StaysFree (and_then r k)
and_then-StaysFree (runs u) k s f = f u s
and_then-StaysFree impossible k s f = tt
and_then-StaysFree use_after_free k s f = s

react_all-StaysFree : (es : List Event) (w : Watch) → NoTask w → StaysFree (react_all es w)
unfolding react_all
react_all-StaysFree [] w n = n
react_all-StaysFree (e ∷ es) w n =
    and_then-StaysFree (react e w) (react_all es) (react-StaysFree e w n)
      (λ u m. react_all-StaysFree es u m)

attach-NoTask :
    (flags : Flags) (waittype block : ℕ) (timeout : Option ℕ) (w : Watch)
    → timeout ≢ some 0
    → attach flags waittype block timeout ≡ some w
    → NoTask w
unfolding attach
attach-NoTask flags waittype block none w d h = ground arith
attach-NoTask flags waittype block (some t) w d h = ground arith

StaysFree-ne : (r : Outcome) → StaysFree r → r ≢ use_after_free
StaysFree-ne (runs v) s e = cc
StaysFree-ne impossible s e = cc
StaysFree-ne use_after_free s e = s

-- A wait that was not asked to return at once never reads its protocol after it was freed.
pub attach_safe :
    (flags : Flags) (waittype block : ℕ) (timeout : Option ℕ) (w : Watch) (es : List Event)
    → timeout ≢ some 0
    → attach flags waittype block timeout ≡ some w
    → react_all es w ≢ use_after_free
attach_safe flags waittype block timeout w es d a =
    StaysFree-ne (react_all es w)
      (react_all-StaysFree es w (attach-NoTask flags waittype block timeout w d a))

-- A wait with timeout 0 reads its protocol after it was freed, if the descriptor is closed between
-- its first `on_ready` and the task that this defers.
pub attach_unsafe :
    (flags : Flags) (waittype block : ℕ) (w : Watch)
    → attach flags waittype block (some 0) ≡ some w
    → react_all (on_ready ∷ on_close ∷ runs_deferred ∷ []) w ≡ use_after_free
unfolding attach react_all react
attach_unsafe flags waittype block w h = ground arith

-- The protocol's memory is left unset exactly when neither kind of event is asked for.
pub attach-none_iff :
    (flags : Flags) (waittype block : ℕ) (timeout : Option ℕ)
    → (attach flags waittype block timeout ≡ none)
      ↔ ((bit_and waittype flags.readable ≡ 0) × (bit_and waittype flags.writable ≡ 0))
unfolding attach
attach-none_iff flags waittype block timeout = ((λ h. ground arith), λ h. ground arith)

-- A timeout that is a multiple of 256 is lost: the wait is the one with no timeout.
pub attach_multiple_of_256 :
    (flags : Flags) (waittype block k : ℕ)
    → attach flags waittype block (some (256 * suc k)) ≡ attach flags waittype block none
unfolding attach
attach_multiple_of_256 flags waittype block k = ground arith
