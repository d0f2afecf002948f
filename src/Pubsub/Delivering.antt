-- ===== src/Pubsub/Delivering.antt =====
-- What becomes of a message (ext/iodine/iodine_connection.c, `iodine_on_pubsub`).
use iodine.Base.{
  arith, ℕ, zero, suc, ◌+◌, ◌≡◌, refl, Bool, true, false, not, ◌&&◌, ◌||◌, List, [], ◌∷◌, ◌++◌,
  Option, none, some, inl, inr, Bool-cases, Option-cases, if◌then◌else◌,
}
use iodine.Ruby.{Value, qnil, qtrue, qfalse, object, is_nil}
use iodine.Store.Counts.{Call, tally}
use iodine.Connection.State.{Kind, websocket}
use iodine.Pubsub.Delivery.{
  Target, Effect, stores, calls_block, sends_frame, websocket_write, fio_write, unlocks, logs_error,
  Lock, locked, busy, bad_descriptor, Message, write_to, direct, uuid_of, call_block, on_pubsub,
  deliver, again,
}

-- The lock is busy a number of times, and then it is taken, or the descriptor is bad.
abbrev pub attempts : ℕ → Bool → List Lock
attempts zero true = locked ∷ []
attempts zero false = bad_descriptor ∷ []
attempts (suc n) got = busy ∷ attempts n got

-- How often somebody is given the message.
abbrev pub deliveries : List Effect → ℕ
deliveries [] = 0
deliveries (calls_block block channel text ∷ es) = 1 + deliveries es
deliveries (sends_frame uuid frame ∷ es) = 1 + deliveries es
deliveries (websocket_write arg bytes is_text ∷ es) = 1 + deliveries es
deliveries (fio_write uuid bytes ∷ es) = 1 + deliveries es
deliveries (e ∷ es) = deliveries es

-- The locks that are given back.
abbrev pub unlocked : List Effect → List ℕ
unlocked [] = []
unlocked (unlocks uuid ∷ es) = uuid ∷ unlocked es
unlocked (e ∷ es) = unlocked es

-- The calls of the storage.
abbrev pub store_calls : List Effect → List Call
store_calls [] = []
store_calls (stores c ∷ es) = c ∷ store_calls es
store_calls (e ∷ es) = store_calls es

abbrev pub has_uuid : Option ℕ → Bool
has_uuid none = false
has_uuid (some uuid) = true

abbrev pub is_open : (ℕ → Bool) → Option ℕ → Bool
is_open is_closed none = false
is_open is_closed (some uuid) = not (is_closed uuid)

abbrev pub is_reachable : (ℕ → Bool) → Option Target → Bool
is_reachable is_closed none = false
is_reachable is_closed (some d) = is_open is_closed d.uuid && not (is_nil d.handler)

-- Whether the subscription is to get the message: a block, unless its connection's descriptor has
-- gone bad; and a connection itself, if it has a handler and is open.
abbrev pub is_due : (ℕ → Bool) → Bool → Option Target → Value → Bool
is_due is_closed got d (object n) = got || not (has_uuid (uuid_of d))
is_due is_closed got d block = is_reachable is_closed d

-- The lock that the delivery takes.
abbrev pub taken : Value → Bool → Option ℕ → List ℕ
taken (object n) true (some uuid) = uuid ∷ []
taken block got uuid = []

abbrev pub give_back : List ℕ → List Effect
give_back [] = []
give_back (uuid ∷ uuids) = unlocks uuid ∷ give_back uuids

abbrev pub Settled : Bool → List ℕ → Option (List Effect) → Type 0
unfolding tally
Settled due locks answer =
    (es : List Effect) × (answer ≡ some (es ++ give_back locks))
    × (deliveries es ≡ (if due then 1 else 0))
    × (unlocked es ≡ [])
    × ((w : Value) (k : ℕ) → tally w k (store_calls es) ≡ k)

written :
    (kind : Kind) (arg : Option ℕ) (uuid : ℕ) (m : Message) (is_text : Bool)
    → Settled true [] (some (write_to kind arg uuid m is_text))
unfolding tally
written websocket arg uuid m is_text = elim (Option-cases (m.frame is_text)) [
  | inl no_frame ↦
      (websocket_write arg m.bytes is_text ∷ [], rw no_frame refl, refl, refl, λ w k. refl)
  | inr (frame, framed) ↦ (sends_frame uuid frame ∷ [], rw framed refl, refl, refl, λ w k. refl)
]
written kind arg uuid m is_text = (fio_write uuid m.bytes ∷ [], refl, refl, refl, λ w k. refl)

direct-Settled :
    (is_closed : ℕ → Bool) (d : Option Target) (m : Message) (is_text : Bool)
    (later : Option (List Effect))
    → Settled (is_reachable is_closed d) [] (again (direct is_closed d m is_text) later)
unfolding tally
direct-Settled is_closed none m is_text later = (logs_error ∷ [], refl, refl, refl, λ w k. refl)
direct-Settled is_closed (some d) m is_text later = elim (Option-cases d.uuid) [
  | inl closed ↦ ([], rw closed refl, rw closed refl, refl, λ w k. refl)
  | inr (uuid, attached) ↦ elim (Bool-cases (is_nil d.handler)) [
    | inl no_handler ↦ (
      [],
      rw (attached, no_handler) refl,
      ground (arith, attached, no_handler),
      refl,
      λ w k. refl,
    )
    | inr handler ↦ elim (Bool-cases (is_closed uuid)) [
      | inl closed ↦ (
        [],
        rw (attached, handler, closed) refl,
        rw (attached, handler, closed) refl,
        refl,
        λ w k. refl,
      )
      | inr open_ ↦ rw (attached, handler, open_) (written d.kind d.arg uuid m is_text)
    ]
  ]
]

block-Settled :
    (is_closed : ℕ → Bool) (n : ℕ) (got : Bool) (uuid : Option ℕ) (d : Option Target) (block : ℕ)
    (m : Message)
    → uuid_of d ≡ uuid
    → Settled
        (got || not (has_uuid uuid))
        (taken (object block) got uuid)
        (deliver is_closed (attempts n got) d (object block) m)
unfolding deliver on_pubsub call_block tally
block-Settled is_closed zero true none d block m e =
    (call_block m (object block), rw e refl, refl, refl, λ w k. omega arith)
block-Settled is_closed zero false none d block m e =
    (call_block m (object block), rw e refl, refl, refl, λ w k. omega arith)
block-Settled is_closed (suc n) true none d block m e =
    (call_block m (object block), rw e refl, refl, refl, λ w k. omega arith)
block-Settled is_closed (suc n) false none d block m e =
    (call_block m (object block), rw e refl, refl, refl, λ w k. omega arith)
block-Settled is_closed zero true (some uuid) d block m e =
    (call_block m (object block), rw e refl, refl, refl, λ w k. omega arith)
block-Settled is_closed zero false (some uuid) d block m e =
    ([], rw e refl, refl, refl, λ w k. refl)
block-Settled is_closed (suc n) got (some uuid) d block m e =
    rw e (block-Settled is_closed n got (some uuid) d block m e)

attempts-cons : (n : ℕ) (got : Bool) → (l : Lock) × (ls : List Lock) × (attempts n got ≡ l ∷ ls)
attempts-cons zero true = (_, _, refl)
attempts-cons zero false = (_, _, refl)
attempts-cons (suc n) got = (_, _, refl)

-- A message for a subscription of any kind, over any number of attempts at the connection's lock,
-- which is taken in the end unless the descriptor has gone bad. It is delivered once if it is due,
-- and not at all if it is not; the storage is left as it was; and the lock that was taken is given
-- back, once and behind all else.
pub deliver-settles :
    (is_closed : ℕ → Bool) (n : ℕ) (got : Bool) (d : Option Target) (block : Value) (m : Message)
    → Settled
        (is_due is_closed got d block)
        (taken block got (uuid_of d))
        (deliver is_closed (attempts n got) d block m)
unfolding deliver on_pubsub tally
deliver-settles is_closed n got d (object block) m =
    block-Settled is_closed n got (uuid_of d) d block m refl
deliver-settles is_closed n got d qnil m =
    let (l, ls, e) = attempts-cons n got in
    rw e (direct-Settled is_closed d m true (deliver is_closed ls d qnil m))
deliver-settles is_closed n got d qtrue m =
    let (l, ls, e) = attempts-cons n got in
    rw e (direct-Settled is_closed d m false (deliver is_closed ls d qtrue m))
deliver-settles is_closed n got d qfalse m =
    let (l, ls, e) = attempts-cons n got in
    rw e (direct-Settled is_closed d m false (deliver is_closed ls d qfalse m))
