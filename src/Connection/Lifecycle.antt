-- ===== src/Connection/Lifecycle.antt =====
-- The life of a connection in ext/iodine/iodine_connection.c: what is sent to its handler, and
-- that nothing happens after its close.
use iodine.Base.{
  ℕ, ◌+◌, ◌≤◌, ◌≡◌, ◌≢◌, refl, Bool, true, false, ◌||◌, List, [], ◌∷◌, ◌++◌, none, some, arith,
  if◌then◌else◌, ltb,
}
use iodine.Ruby.{Value, qnil, qfalse, object, same_value}
use iodine.Connection.State.{
  Data, Answers, Callback, opened, closed, messaged, drained, pinged, shut_down, raises,
  range_error, Effect, calls, lets_go, fio_timeout_set, returns, number, minus_one, validate_data,
  live_uuid,
}
use iodine.Connection.Methods.{
  Text, write, close, is_open, pending, timeout_get, timeout_set, fixnum,
}
use iodine.Connection.Events.{
  Event, on_open, on_message, on_drained, ping, on_shutdown, on_close, fire_event, dispatch,
  if_answered, clear_all, handler_set, shut,
}

-- A connection that is gone does nothing, whatever it is told, and says that it is closed.
pub live_uuid-none_inert :
    (is_closed : ℕ → Bool) (fio_pending : ℕ → ℕ) (d : Data) (text : Text) (tout : ℕ)
    → live_uuid is_closed d ≡ none
    → tout ≤ 255
    → (write is_closed d text ≡ ([], returns qnil))
      × (close is_closed d ≡ ([], returns qnil))
      × (is_open is_closed d ≡ returns qfalse)
      × (pending is_closed fio_pending d ≡ minus_one)
      × (timeout_get is_closed fio_pending d ≡ returns qnil)
      × (timeout_set is_closed d (fixnum tout) ≡ ([], returns qnil))
unfolding write close is_open pending timeout_get timeout_set
live_uuid-none_inert is_closed fio_pending d text tout h t = ground arith

abbrev pub IsReady : Data → Type 0
IsReady d = (validate_data d ≢ none) × (d.info.handler ≢ qfalse)

shut-invalid : (d : Data) → validate_data (shut d) ≡ none
unfolding validate_data
shut-invalid d = refl

pub fire_event_ready : (e : Event) (d : Data) → IsReady d → fire_event e d ≡ dispatch e d
unfolding fire_event
fire_event_ready e d r = ground arith

fire_event_invalid : (e : Event) (d : Data) → validate_data d ≡ none → fire_event e d ≡ ([], d)
unfolding fire_event
fire_event_invalid e d h = ground arith

-- The events of a connection, one after the other.
pub fire_all : List Event → Data → List Effect × Data
fire_all [] d = ([], d)
fire_all (e ∷ es) d =
    let (first, d') = fire_event e d in let (rest, d'') = fire_all es d' in (first ++ rest, d'')

abbrev pub is_lets_go : Effect → ℕ
is_lets_go lets_go = 1
is_lets_go e = 0

abbrev pub releases : List Effect → ℕ
releases [] = 0
releases (e ∷ es) = is_lets_go e + releases es

abbrev pub is_close : Event → Bool
is_close on_close = true
is_close e = false

abbrev pub closes : List Event → Bool
closes [] = false
closes (e ∷ es) = is_close e || closes es

releases-append : (xs ys : List Effect) → releases (xs ++ ys) ≡ releases xs + releases ys
releases-append [] ys = omega arith
releases-append (x ∷ xs) ys = omega (arith, releases-append xs ys)

releases-clear_all : (subs : List (List ℕ × ℕ)) → releases (clear_all subs) ≡ 0
unfolding clear_all
releases-clear_all [] = refl
releases-clear_all ((c, s) ∷ subs) = omega (arith, releases-clear_all subs)

releases-if_answered : (a : Bool) (h : Value) (c : Callback) → releases (if_answered a h c) ≡ 0
unfolding if_answered
releases-if_answered true h c = refl
releases-if_answered false h c = refl

releases-shut :
    (es : List Event) (d : Data) → validate_data d ≡ none → releases (fire_all es d).0 ≡ 0
unfolding fire_all
releases-shut [] d h = refl
releases-shut (e ∷ es) d h = rw (fire_event_invalid e d h) (releases-shut es d h)

pub dispatch_open :
    (e : Event) (d : Data)
    → is_close e ≡ false
    → ((dispatch e d).1 ≡ d) × (releases (dispatch e d).0 ≡ 0)
unfolding dispatch
dispatch_open on_open d h = (refl, releases-if_answered d.answers.on_open d.info.handler opened)
dispatch_open on_message d h = (refl, releases-if_answered d.answers.on_message _ messaged)
dispatch_open on_drained d h = (refl, releases-if_answered d.answers.on_drained _ drained)
dispatch_open on_shutdown d h = (refl, releases-if_answered d.answers.on_shutdown _ shut_down)
dispatch_open ping d h = (refl, releases-if_answered d.answers.ping _ pinged)
dispatch_open on_close d h = cc

pub releases-dispatch_close : (d : Data) → releases (dispatch on_close d).0 ≡ 1
unfolding dispatch
releases-dispatch_close d =
    let farewell = if_answered d.answers.on_close d.info.handler closed in
    let subs = clear_all d.subscriptions in
    omega (
      arith,
      releases-append farewell (subs ++ lets_go ∷ []),
      releases-append subs (lets_go ∷ []),
      releases-if_answered d.answers.on_close d.info.handler closed,
      releases-clear_all d.subscriptions,
    )

pub dispatch_close : (d : Data) → (dispatch on_close d).1 ≡ shut d
unfolding dispatch
dispatch_close d = refl

-- A ready connection is let go of exactly once if it is closed, however many events come before
-- and after, and never if it is not.
pub releases-fire_all :
    (es : List Event) (d : Data)
    → validate_data d ≢ none
    → d.info.handler ≢ qfalse
    → releases (fire_all es d).0 ≡ (if closes es then 1 else 0)
unfolding fire_all
releases-fire_all [] d v h = refl
releases-fire_all (on_close ∷ es) d v h =
    rw (fire_event_ready on_close d (v, h), dispatch_close d)
      (omega (
        arith,
        releases-append (dispatch on_close d).0 (fire_all es (shut d)).0,
        releases-dispatch_close d,
        releases-shut es (shut d) (shut-invalid d),
      ))
releases-fire_all (e ∷ es) d v h =
    let (same, none_let_go) = dispatch_open e d refl in
    rw (fire_event_ready e d (v, h), same)
      (omega (
        arith,
        releases-append (dispatch e d).0 (fire_all es d).0,
        none_let_go,
        releases-fire_all es d v h,
      ))

-- After its close a connection is invalid: it answers every event with nothing.
pub fire_event-close_final :
    (e : Event) (d : Data)
    → validate_data d ≢ none
    → d.info.handler ≢ qfalse
    → let after = (fire_event on_close d).1 in
      (after.info.uuid ≡ none) × (after.subscriptions ≡ []) × (fire_event e after ≡ ([], after))
fire_event-close_final e d v h =
    rw (fire_event_ready on_close d (v, h), dispatch_close d)
      (refl, refl, fire_event_invalid e (shut d) (shut-invalid d))

-- A new handler takes over a live connection: the old one hears of the close, if it answers, then
-- the new one of the opening, if it answers; descriptor and subscriptions stay.
pub handler_set_switch :
    (is_closed : ℕ → Bool) (respond_to : Value → Answers) (d : Data) (n : ℕ)
    → validate_data d ≢ none
    → same_value d.info.handler (object n) ≡ false
    → let (effects, after, reply) = handler_set is_closed respond_to d (object n) in
      (effects
        ≡ (if d.answers.on_close then calls d.info.handler closed ∷ [] else [])
          ++ (if (respond_to (object n)).on_open then calls (object n) opened ∷ [] else []))
      × (after.info.handler ≡ object n)
      × (after.info.uuid ≡ d.info.uuid)
      × (after.subscriptions ≡ d.subscriptions)
      × (after.answers ≡ respond_to (object n))
      × (reply ≡ returns (object n))
unfolding handler_set validate_data
handler_set_switch is_closed respond_to d n v s = ground arith

-- A timeout that is accepted on a live connection reaches facil.io as it is, and is at most 255;
-- one that does not fit is refused, on any connection.
pub timeout_set_exact :
    (is_closed : ℕ → Bool) (d : Data) (t uuid : ℕ)
    → live_uuid is_closed d ≡ some uuid
    → timeout_set is_closed d (fixnum t)
      ≡ (if ltb 255 t then ([], raises range_error) else (fio_timeout_set uuid t ∷ [], number t))
unfolding timeout_set
timeout_set_exact is_closed d t uuid h = ground arith
