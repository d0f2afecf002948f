-- ===== src/Http/Upgrades.antt =====
-- `iodine_ws_attach`, `iodine_sse_attach` and the call of `iodine_tcp_attch_uuid` in
-- ext/iodine/iodine_http.c: the connection that an upgraded request leaves in the storage.
use iodine.Base.{
  ℕ, ◌+◌, ◌≡◌, refl, Bool, false, List, [], ◌∷◌, ◌++◌, Option, none, some, arith, Bool-cases, inl,
  inr, ap, ◌∙◌, if◌then◌else◌,
}
use iodine.Ruby.{Value, qnil, is_nil, is_special, is_falsy, one_of}
use iodine.Store.Counts.{Call, drop, tally}
use iodine.Connection.State
use iodine.Connection.State.{Kind, raw, Info, Answers, Data, lets_go, validate_data}
use iodine.Connection.Creation.{connection_new}
use iodine.Connection.Events.{on_close, fire_event, dispatch}
use iodine.Connection.Lifecycle.{IsReady, releases, releases-dispatch_close, fire_event_ready}
use iodine.Http.Response.{Upgrade, hijack_callback, hijacked, websocket, sse, tcp}

-- The handler, what `Iodine::Connection.new` gives and what the handler answers to; and whether
-- facil.io refuses the upgrade, in which case it calls `on_close` at once.
pub record Attaching : Type 0 where
  pub handler : Value
  pub made : Value
  pub respond_to : Value → Answers
  pub refused : Bool

-- A connection that lets go of itself is removed.
abbrev pub released : Value → List State.Effect → List Call
released made [] = []
released made (lets_go ∷ es) = drop made ∷ released made es
released made (e ∷ es) = released made es

-- The calls of the storage, and the connection that is left in it.
abbrev pub upgraded : Attaching → List Call × Option Data → List Call × Option Value
unfolding fire_event
upgraded a (calls, none) = (calls, none)
upgraded a (calls, some d) =
    if a.refused
    then (calls ++ released a.made (fire_event on_close d).0, none)
    else (calls, some a.made)

unfoldable pub attach_handler : Kind → Value → Attaching → List Call × Option Value
unfolding connection_new upgraded
attach_handler kind env a = upgraded a (
    connection_new a.respond_to a.made
      (record { kind = kind; uuid = some 0; arg = none; handler = a.handler; env = env }))

-- A hijacked socket; facil.io defers the close of a descriptor that is not valid.
abbrev pub kept_by : Value → List Call × Option Data → List Call × Option Value
kept_by made (calls, none) = (calls, none)
kept_by made (calls, some d) = (calls, some made)

unfoldable pub attach_tcp : Attaching → List Call × Option Value
unfolding connection_new
attach_tcp a =
    if is_special a.handler
    then ([], none)
    else kept_by a.made (
        connection_new a.respond_to a.made
          (record { kind = raw; uuid = some 0; arg = none; handler = a.handler; env = qnil }))

unfoldable pub attach : Upgrade → Value → Attaching → List Call × Option Value
unfolding attach_handler attach_tcp
attach hijack_callback env a = ([], none)
attach hijacked env a = ([], none)
attach websocket env a = attach_handler State.websocket env a
attach sse env a = attach_handler State.sse env a
attach tcp env a = attach_tcp a

-- How much of `w` is held besides.
abbrev pub held : Option Value → Value → ℕ
held none w = 0
held (some v) w = one_of v w

released-none : (made : Value) (es : List State.Effect) → releases es ≡ 0 → released made es ≡ []
released-none made [] h = refl
released-none made (lets_go ∷ es) h = absurd (omega (arith, h))
released-none made (e ∷ es) h = released-none made es (omega (arith, h))

released-one :
    (made : Value) (es : List State.Effect) → releases es ≡ 1 → released made es ≡ drop made ∷ []
released-one made [] h = absurd (omega (arith, h))
released-one made (lets_go ∷ es) h = rw (released-none made es (omega (arith, h))) refl
released-one made (e ∷ es) h = released-one made es (omega (arith, h))

module _ (kind : Kind) (env : Value) (answers : Answers) where
  abbrev fresh : Value → Data
  fresh handler = record {
    info = record { kind = kind; uuid = some 0; arg = none; handler = handler; env = env };
    answers = answers;
    subscriptions = [];
  }

  fresh-IsReady : (handler : Value) → is_falsy handler ≡ false → IsReady (fresh handler)
  unfolding validate_data
  fresh-IsReady handler h = (ground (arith, h), λ e. ground (arith, h, e))

-- The storage is left with the connection that stays, and with nothing else.
upgraded-kept :
    (a : Attaching) (kind : Kind) (env w : Value) (n : ℕ)
    → is_falsy a.handler ≡ false
    → tally w n (attach_handler kind env a).0 ≡ n + held (attach_handler kind env a).1 w
unfolding attach_handler tally
upgraded-kept a kind env w n h = elim (Bool-cases (is_nil a.made)) [
  | inl no_object ↦ rw no_object (omega arith)
  | inr made ↦ elim (Bool-cases a.refused) [
    | inl refused ↦
        let d = fresh kind env (a.respond_to a.handler) a.handler in
        let one : released a.made (fire_event on_close d).0 ≡ drop a.made ∷ [] =
          ap (λ r. released a.made r.0)
            (fire_event_ready on_close d
              (fresh-IsReady kind env (a.respond_to a.handler) a.handler h))
          ∙ released-one a.made (dispatch on_close d).0 (releases-dispatch_close d) in
        rw (made, refused, one) (omega arith)
    | inr accepted ↦ rw (made, accepted) (omega arith)
  ]
]

pub attach-kept :
    (up : Upgrade) (env : Value) (a : Attaching) (w : Value) (n : ℕ)
    → is_falsy a.handler ≡ false
    → tally w n (attach up env a).0 ≡ n + held (attach up env a).1 w
unfolding attach attach_tcp tally
attach-kept hijack_callback env a w n h = omega arith
attach-kept hijacked env a w n h = omega arith
attach-kept websocket env a w n h = upgraded-kept a State.websocket env w n h
attach-kept sse env a w n h = upgraded-kept a State.sse env w n h
attach-kept tcp env a w n h = elim (Bool-cases (is_special a.handler)) [
  | inl special ↦ rw special (omega arith)
  | inr object ↦ elim (Bool-cases (is_nil a.made)) [
    | inl no_object ↦ rw (object, no_object) (omega arith)
    | inr made ↦ rw (object, made) (omega arith)
  ]
]
