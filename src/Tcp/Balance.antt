-- ===== src/Tcp/Balance.antt =====
-- That raw sockets leave the storage as they found it (ext/iodine/iodine_tcp.c).
use iodine.Base.{
  arith, ℕ, zero, suc, ◌+◌, ◌≡◌, refl, sym, ap, ◌∙◌, subst, Bool, true, false, List, [], ◌∷◌, ◌++◌,
  append_assoc, append-nil, Option, none, some, Bool-cases, inl, inr, ◌==◌, if◌then◌else◌, length,
}
use iodine.Ruby.{Value, one_of}
use iodine.Store.Counts.{Call, drop, tally, tally-append}
use iodine.Connection.State
use iodine.Connection.State.{raw, Data, lets_go, validate_data}
use iodine.Connection.Events.{Event, on_message, on_drained, ping, on_shutdown, on_close, dispatch}
use iodine.Connection.Lifecycle.{
  IsReady, is_close, releases, dispatch_open, releases-dispatch_close, fire_event_ready,
}
use iodine.Tcp.{
  Effect, stores, forces_on_data, frees, Protocol, effects_of, fire_on, fire, on_data, on_ready,
  tcp_on_shutdown, tcp_on_close, tcp_ping,
}

abbrev call_of : Effect → List Call
call_of (stores c) = c ∷ []
call_of e = []

-- The calls of the storage among the effects.
abbrev pub calls_of : List Effect → List Call
calls_of [] = []
calls_of (e ∷ es) = call_of e ++ calls_of es

pub calls_of-append : (xs ys : List Effect) → calls_of (xs ++ ys) ≡ calls_of xs ++ calls_of ys
calls_of-append [] ys = refl
calls_of-append (x ∷ xs) ys =
    ap (◌++◌ (call_of x)) (calls_of-append xs ys)
    ∙ sym (append_assoc (call_of x) (calls_of xs) (calls_of ys))

abbrev repeat : ℕ → Call → List Call
repeat zero c = []
repeat (suc n) c = c ∷ repeat n c

one_add : (n : ℕ) → 1 + n ≡ suc n
one_add n = omega arith

zero_add : (n : ℕ) → 0 + n ≡ n
zero_add n = omega arith

calls_of-effects_of :
    (io : Value) (es : List State.Effect)
    → calls_of (effects_of io es) ≡ repeat (releases es) (drop io)
calls_of-effects_of io [] = refl
calls_of-effects_of io (lets_go ∷ es) =
    rw (one_add (releases es)) (ap (◌∷◌ (drop io)) (calls_of-effects_of io es))
calls_of-effects_of io (e ∷ es) = rw (zero_add (releases es)) (calls_of-effects_of io es)

-- What facil.io calls between the attachment of a socket and its close.
pub data Callback : Type 0 where
  data_in : Value → Option (List ℕ) → Callback
  drained pinged stopping : Callback

-- Without `on_ready` nothing is called.
abbrev pub react : Callback → ℕ → Protocol → List Effect × Protocol
react (data_in message read) size p = on_data size message read p
react drained size p = if p.on_ready_set then on_ready p else ([], p)
react pinged size p = tcp_ping p
react stopping size p = tcp_on_shutdown p

-- Some callbacks, and the close.
pub rest_of : ℕ → List Callback → Protocol → List Effect
rest_of size [] p = (tcp_on_close p).0
rest_of size (c ∷ cs) p = let (es, after) = react c size p in es ++ rest_of size cs after

abbrev pub rest_if : ℕ → List Callback → Option Protocol → List Effect
rest_if size cs none = []
rest_if size cs (some p) = rest_of size cs p

-- The protocol of a connection that can have events, or that could not be made.
abbrev pub IsFiring : Option Data → Type 0
IsFiring none = Unit {0}
IsFiring (some d) = IsReady d

-- How much of `v` the connection's object holds.
abbrev pub share : Value → Value → Option Data → ℕ
share v io none = 0
share v io (some d) = one_of io v

-- An event that is no close leaves the connection and the storage as they are.
abbrev Quiet : Protocol → List Effect × Protocol → Type 0
Quiet p r = (calls_of r.0 ≡ []) × (r.1.data_ ≡ p.data_) × (r.1.io ≡ p.io)

fire_on-Quiet :
    (e : Event) (p : Protocol) (o : Option Data)
    → is_close e ≡ false
    → p.data_ ≡ o
    → IsFiring o
    → Quiet p (fire_on e p o)
unfolding fire_on
fire_on-Quiet e p none open_ same ready = (refl, refl, refl)
fire_on-Quiet e p (some d) open_ same ready =
    let (kept, none_let_go) = dispatch_open e d open_ in
    rw (fire_event_ready e d ready, kept)
      (
        calls_of-effects_of p.io (dispatch e d).0 ∙ ap (λ k. repeat k (drop p.io)) none_let_go,
        sym same,
        refl,
      )

fire-Quiet : (e : Event) (p : Protocol) → is_close e ≡ false → IsFiring p.data_ → Quiet p (fire e p)
unfolding fire
fire-Quiet e p open_ ready = fire_on-Quiet e p p.data_ open_ refl ready

fire_on-close :
    (p : Protocol) (o : Option Data) (v : Value) (n : ℕ)
    → IsFiring o
    → tally v (n + share v p.io o) (calls_of (fire_on on_close p o).0) ≡ n
unfolding fire_on tally
fire_on-close p none v n ready = omega arith
fire_on-close p (some d) v n ready =
    rw
      (
        fire_event_ready on_close d ready,
        calls_of-effects_of p.io (dispatch on_close d).0,
        releases-dispatch_close d,
      )
      (omega arith)

-- Some calls that leave every count as it was.
abbrev pub Even : List Call → Type 0
Even cs = (v : Value) (n : ℕ) → tally v n cs ≡ n

Even-nothing : (es : List Effect) → calls_of es ≡ [] → Even (calls_of es)
unfolding tally
Even-nothing es none_called v n = rw none_called refl

on_data-Even :
    (size : ℕ) (message : Value) (bytes : List ℕ) (p : Protocol)
    → IsFiring p.data_
    → Even (calls_of (on_data size message (some bytes) p).0)
unfolding on_data tally
on_data-Even size message bytes p ready v n =
    let es = (fire on_message p).0 in
    let (none_called, data_, io) = fire-Quiet on_message p refl ready in
    let held = n + one_of message v in
    let paired : (tail : List Effect)
        → calls_of tail ≡ drop message ∷ []
        → tally v held (calls_of (es ++ tail)) ≡ n =
      λ tail last.
        ap (tally v held)
          (calls_of-append es tail ∙ ap (λ q. q ++ calls_of tail) none_called ∙ last)
        ∙ omega arith in
    elim (Bool-cases (length bytes == size)) [
      | inl full ↦ rw full (paired (stores (drop message) ∷ forces_on_data p.uuid ∷ []) refl)
      | inr more ↦ rw more (paired (stores (drop message) ∷ []) refl)
    ]

-- What a callback leaves.
abbrev pub Steady : Protocol → List Effect × Protocol → Type 0
Steady p r = Even (calls_of r.0) × (r.1.data_ ≡ p.data_) × (r.1.io ≡ p.io)

Quiet-Steady : (p : Protocol) (r : List Effect × Protocol) → Quiet p r → Steady p r
Quiet-Steady p r (none_called, data_, io) = (Even-nothing r.0 none_called, data_, io)

Steady-if :
    (p : Protocol) (b : Bool) (r s : List Effect × Protocol)
    → Steady p r
    → Steady p s
    → Steady p (if b then r else s)
Steady-if p true r s h k = h
Steady-if p false r s h k = k

react-Steady :
    (c : Callback) (size : ℕ) (p : Protocol) → IsFiring p.data_ → Steady p (react c size p)
unfolding on_data on_ready tcp_ping tcp_on_shutdown
react-Steady (data_in message none) size p ready = (Even-nothing [] refl, refl, refl)
react-Steady (data_in message (some bytes)) size p ready =
    let (none_called, data_, io) = fire-Quiet on_message p refl ready in
    (on_data-Even size message bytes p ready, data_, io)
react-Steady drained size p ready =
    Steady-if p p.on_ready_set _ _
      (Quiet-Steady p (fire on_drained p) (fire-Quiet on_drained p refl ready))
      (Even-nothing [] refl, refl, refl)
react-Steady pinged size p ready = Quiet-Steady p (fire ping p) (fire-Quiet ping p refl ready)
react-Steady stopping size p ready =
    Quiet-Steady p (fire on_shutdown p) (fire-Quiet on_shutdown p refl ready)

tcp_on_close-share :
    (p : Protocol) (v : Value) (n : ℕ)
    → IsFiring p.data_
    → tally v (n + share v p.io p.data_) (calls_of (tcp_on_close p).0) ≡ n
unfolding tcp_on_close fire
tcp_on_close-share p v n ready =
    let es = (fire on_close p).0 in
    ap (tally v (n + share v p.io p.data_))
      (calls_of-append es (frees ∷ []) ∙ append-nil (calls_of es))
    ∙ fire_on-close p p.data_ v n ready

pub rest_of-share :
    (size : ℕ) (cs : List Callback) (p : Protocol) (v : Value) (n : ℕ)
    → IsFiring p.data_
    → tally v (n + share v p.io p.data_) (calls_of (rest_of size cs p)) ≡ n
unfolding rest_of
rest_of-share size [] p v n ready = tcp_on_close-share p v n ready
rest_of-share size (c ∷ cs) p v n ready =
    let (es, after) = react c size p in
    let (even, data_, io) = react-Steady c size p ready in
    let held = n + share v p.io p.data_ in
    let same : share v p.io p.data_ ≡ share v after.io after.data_ =
      ap (λ x. share v x p.data_) (sym io) ∙ ap (share v after.io) (sym data_) in
    ap (tally v held) (calls_of-append es (rest_of size cs after))
    ∙ tally-append (calls_of es) (calls_of (rest_of size cs after)) v held
    ∙ ap (λ k. tally v k (calls_of (rest_of size cs after))) (even v held ∙ ap (λ s. n + s) same)
    ∙ rest_of-share size cs after v n (subst IsFiring (sym data_) ready)

pub fire-Steady :
    (e : Event) (p : Protocol) → is_close e ≡ false → IsFiring p.data_ → Steady p (fire e p)
fire-Steady e p open_ ready = Quiet-Steady p (fire e p) (fire-Quiet e p open_ ready)
