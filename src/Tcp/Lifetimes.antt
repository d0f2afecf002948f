-- ===== src/Tcp/Lifetimes.antt =====
-- That a listening and a connecting socket leave the storage as they found it, whatever becomes of
-- them (ext/iodine/iodine_tcp.c).
use iodine.Base.{
  arith, ℕ, ◌+◌, ◌-◌, ◌≡◌, refl, sym, ap, ◌∙◌, subst, Bool, true, false, List, [], ◌∷◌, ◌++◌,
  append-nil, Option, none, some, Bool-cases, inl, inr,
}
use iodine.Ruby.{Value, qnil, qtrue, qfalse, object, one_of, is_nil, is_special}
use iodine.Store.Counts.{drop, tally, tally-append}
use iodine.Connection.State.{raw, Data, validate_data}
use iodine.Connection.Events.{on_open}
use iodine.Connection.Creation.{connection_new}
use iodine.Tcp.{Effect, stores, forces_on_ready, Protocol, fire, World, opened, attach_uuid}
use iodine.Tcp.Callbacks.{
  tcp_on_open, tcp_on_finish, tcp_on_connect, tcp_on_fail, tcp_listen, tcp_connect, tcp_attach_fd,
  raised, io_error,
}
use iodine.Tcp.Balance.{
  calls_of, calls_of-append, Callback, rest_if, IsFiring, share, fire-Steady, rest_of-share,
}

-- What an attachment leaves: a protocol that can fire, whose object is held, or none.
abbrev gain : Value → Option Protocol → ℕ
gain v none = 0
gain v (some p) = share v p.io p.data_

abbrev Fires : Option Protocol → Type 0
Fires none = Unit {0}
Fires (some p) = IsFiring p.data_

abbrev Holds : List Effect × Option Protocol → Type 0
Holds r = ((v : Value) (n : ℕ) → tally v n (calls_of r.0) ≡ n + gain v r.1) × Fires r.1

opened-share :
    (w : World) (p : Protocol) (v : Value) (n : ℕ)
    → IsFiring p.data_
    → (tally v n (calls_of (opened w p).0) ≡ n)
      × (gain v (opened w p).1 ≡ share v p.io p.data_)
      × Fires (opened w p).1
unfolding tally
opened-share w p v n ready = elim (Bool-cases w.is_valid) [
  | inl valid ↦
      let (even, data_, io) = fire-Steady on_open p refl ready in
      let es = (fire on_open p).0 in
      let after = (fire on_open p).1 in
      rw valid (
        ap (tally v n) (calls_of-append es (forces_on_ready p.uuid ∷ []) ∙ append-nil (calls_of es))
            ∙ even v n,
        ap (λ x. share v x after.data_) io ∙ ap (share v p.io) data_,
        subst IsFiring (sym data_) ready,
      )
  | inr stale ↦ rw stale (refl, refl, ready)
]

-- The object that was made is held once, by the protocol.
attach_uuid-Holds : (w : World) (uuid : ℕ) (handler : Value) → Holds (attach_uuid w uuid handler)
unfolding attach_uuid connection_new tally validate_data
attach_uuid-Holds w uuid qnil = ((λ v n. omega arith), tt)
attach_uuid-Holds w uuid qtrue = ((λ v n. omega arith), tt)
attach_uuid-Holds w uuid qfalse = ((λ v n. omega arith), tt)
attach_uuid-Holds w uuid (object k) = elim (Bool-cases (is_nil w.new_object)) [
  | inl failed ↦
      let p : Protocol = record {
        uuid = uuid;
        io = w.new_object;
        data_ = none;
        on_ready_set = false;
      } in
      rw failed (
        (λ v n.
            let (even, gained, fires) = opened-share w p v n tt in even ∙ omega (arith, gained)),
        (opened-share w p qnil 0 tt).2,
      )
  | inr made ↦
      let d : Data = record {
        info = record {
          kind = raw;
          uuid = some uuid;
          arg = some uuid;
          handler = object k;
          env = qnil;
        };
        answers = w.respond_to (object k);
        subscriptions = [];
      } in
      let p : Protocol = record {
        uuid = uuid;
        io = w.new_object;
        data_ = some d;
        on_ready_set = false;
      } in
      let ready : IsFiring (some d) = ((λ e. absurd cc), λ e. absurd cc) in
      rw made (
        (λ v n.
            let (even, gained, fires) = opened-share w p v (n + one_of w.new_object v) ready in
            even ∙ omega (arith, gained)),
        (opened-share w p qnil 0 ready).2,
      )
]

rest_if-gain :
    (size : ℕ) (cs : List Callback) (o : Option Protocol) (v : Value) (n : ℕ)
    → Fires o
    → tally v (n + gain v o) (calls_of (rest_if size cs o)) ≡ n
unfolding tally
rest_if-gain size cs none v n fires = omega arith
rest_if-gain size cs (some p) v n fires = rest_of-share size cs p v n fires

-- The calls of an attachment, of what follows it and of the rest of the socket's life.
three :
    (a b r : List Effect) (v : Value) (n : ℕ)
    → tally v n (calls_of ((a ++ b) ++ r))
      ≡ tally v (tally v (tally v n (calls_of a)) (calls_of b)) (calls_of r)
three a b r v n =
    ap (tally v n) (calls_of-append (a ++ b) r ∙ ap (λ q. q ++ calls_of r) (calls_of-append a b))
    ∙ tally-append (calls_of a ++ calls_of b) (calls_of r) v n
    ∙ ap (λ k. tally v k (calls_of r)) (tally-append (calls_of a) (calls_of b) v n)

-- A handler that is held by a caller, given to an attachment, let go of, and the socket's life.
attached-even :
    (size : ℕ) (w : World) (uuid : ℕ) (handler : Value) (cs : List Callback) (v : Value) (n : ℕ)
    → let (es, p) = attach_uuid w uuid handler in
      tally v
        (n + one_of handler v)
        (calls_of ((es ++ stores (drop handler) ∷ []) ++ rest_if size cs p))
      ≡ n
unfolding tally
attached-even size w uuid handler cs v n =
    let (es, p) = attach_uuid w uuid handler in
    let (held, fires) = attach_uuid-Holds w uuid handler in
    let rest = rest_if size cs p in
    let m = n + one_of handler v in
    three es (stores (drop handler) ∷ []) rest v m
    ∙ ap (λ k. tally v (k - one_of handler v) (calls_of rest)) (held v m)
    ∙ ap (λ k. tally v k (calls_of rest)) (omega arith)
    ∙ rest_if-gain size cs p v n fires

-- What becomes of a connecting socket.
pub data Fate : Type 0 where
  fails : Fate
  succeeds : List Callback → Fate

abbrev pub connect_run : ℕ → World → ℕ → Value → Fate → List Effect
connect_run size w uuid handler fails = tcp_connect handler ++ tcp_on_fail handler
connect_run size w uuid handler (succeeds cs) =
    let (es, p) = tcp_on_connect w uuid handler in tcp_connect handler ++ (es ++ rest_if size cs p)

-- A connection through `connect` leaves every count of the storage as it found it, whether the
-- socket fails or connects, is attached or refused, and whatever comes before its close.
pub connect_run-even :
    (size : ℕ) (w : World) (uuid : ℕ) (handler : Value) (fate : Fate) (v : Value) (n : ℕ)
    → tally v n (calls_of (connect_run size w uuid handler fate)) ≡ n
unfolding tcp_connect tcp_on_fail tcp_on_connect tally
connect_run-even size w uuid handler fails v n = omega arith
connect_run-even size w uuid handler (succeeds cs) v n = attached-even size w uuid handler cs v n

-- A connection that a listening socket accepts.
pub record Accepted : Type 0 where
  pub world : World
  pub valid : Bool
  pub uuid : ℕ
  pub handler : Value
  pub callbacks : List Callback

pub accepted_run : ℕ → Accepted → List Effect
accepted_run size a =
    let (es, p) = tcp_on_open a.world a.valid a.uuid a.handler in es ++ rest_if size a.callbacks p

pub accepted_all : ℕ → List Accepted → List Effect
accepted_all size [] = []
accepted_all size (a ∷ as_) = accepted_run size a ++ accepted_all size as_

accepted_run-even :
    (size : ℕ) (a : Accepted) (v : Value) (n : ℕ) → tally v n (calls_of (accepted_run size a)) ≡ n
unfolding accepted_run tcp_on_open tally
accepted_run-even size a v n = elim (Bool-cases a.valid) [
  | inl valid ↦ rw valid (attached-even size a.world a.uuid a.handler a.callbacks v n)
  | inr gone ↦ rw gone refl
]

accepted_all-even :
    (size : ℕ) (as_ : List Accepted) (v : Value) (n : ℕ)
    → tally v n (calls_of (accepted_all size as_)) ≡ n
unfolding accepted_all tally
accepted_all-even size [] v n = refl
accepted_all-even size (a ∷ as_) v n =
    ap (tally v n) (calls_of-append (accepted_run size a) (accepted_all size as_))
    ∙ tally-append (calls_of (accepted_run size a)) (calls_of (accepted_all size as_)) v n
    ∙ ap (λ k. tally v k (calls_of (accepted_all size as_))) (accepted_run-even size a v n)
    ∙ accepted_all-even size as_ v n

-- A listening socket, from `listen` to its end, leaves every count as it found it, whatever
-- handlers its block gave and whatever happened to the connections that it accepted one after the
-- other.
pub listen_run-even :
    (size : ℕ) (handler : Value) (as_ : List Accepted) (v : Value) (n : ℕ)
    → tally v n (calls_of (tcp_listen handler ++ (accepted_all size as_ ++ tcp_on_finish handler)))
      ≡ n
unfolding tcp_listen tcp_on_finish tally
listen_run-even size handler as_ v n =
    let m = n + one_of handler v in
    ap (tally v m) (calls_of-append (accepted_all size as_) (stores (drop handler) ∷ []))
    ∙ tally-append (calls_of (accepted_all size as_)) (drop handler ∷ []) v m
    ∙ ap (λ k. k - one_of handler v) (accepted_all-even size as_ v m)
    ∙ omega arith

-- A descriptor that `dup` refuses leaves the handler with a holder more: the exception passes by
-- the removal.
pub attach_fd-leaks :
    (w : World) (handler v : Value) (n : ℕ)
    → is_special handler ≡ false
    → ((tcp_attach_fd w true none handler).1 ≡ raised io_error)
      × (tally v n (calls_of (tcp_attach_fd w true none handler).0) ≡ n + one_of handler v)
unfolding tcp_attach_fd tally
attach_fd-leaks w handler v n some_object = rw some_object (refl, refl)
