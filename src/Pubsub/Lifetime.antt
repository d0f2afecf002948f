-- ===== src/Pubsub/Lifetime.antt =====
-- That the data of a connection in ext/iodine/iodine_connection.c lives as long as its
-- subscriptions need it, and no longer; and that no subscription outlives the connection.
use iodine.Base.{
  ℕ, ◌+◌, ◌≡◌, ◌↔◌, refl, subst, Bool, true, false, List, [], ◌∷◌, some, arith, ◌==◌, if◌then◌else◌,
  length, length-append, Option-cases, Bool-cases, inl, inr,
}
use iodine.Ruby.{Value, qnil, qtrue, qfalse, object}
use iodine.Connection.State.{Kind}
use iodine.Pubsub.Room.{
  Subscription, Room, new_room, split_id, split_entry, fio_unsubscribe, subscribe, optimize, find,
  iodine_sub_add, file, unsubscribe, clear_table, close, free_data, let_go, on_unsubscribe, collect,
  Action, subscribes, unsubscribes, files, ends, closes, collects, step, Reach, here, next,
}
use iodine.Pubsub.Split.{split_id-length, split_id_single}

-- `ref` counts the Ruby object and each subscription that facil.io has not given back; the data is
-- freed when it falls to 0. The object is collected only after the close.
pub record Counted (r : Room) : Type 0 where
  pub refs : r.ref ≡ (if r.collected then 0 else 1) + length r.live + length r.leaving
  pub freed_at_zero : r.freed ≡ (r.ref == 0)
  pub gone : r.collected ≡ true → r.is_open ≡ false

fio_unsubscribe-Counted : (id : ℕ) (r : Room) → Counted r → Counted (fio_unsubscribe id r)
unfolding fio_unsubscribe
fio_unsubscribe-Counted id r c =
    ground (arith, split_id-length id r.live, length-append (split_id id r.live).0 r.leaving)

pub optimize_same :
    (binary : Bool) (block : Value) (r : Room)
    → let s = optimize binary block r in
      (s.live ≡ r.live)
      × (s.leaving ≡ r.leaving)
      × (s.table ≡ r.table)
      × (s.joining ≡ r.joining)
      × (s.collected ≡ r.collected)
      × (s.freed ≡ r.freed)
      × (s.is_open ≡ r.is_open)
unfolding optimize
optimize_same binary qnil r = ground arith
optimize_same binary qtrue r = ground arith
optimize_same binary qfalse r = ground arith
optimize_same binary (object n) r = ground arith

subscribe-Counted :
    (channel : List ℕ) (id : ℕ) (binary : Bool) (block : Value) (r : Room)
    → Counted r
    → Counted (subscribe channel id binary block r).0
unfolding subscribe
subscribe-Counted channel id binary block r c = ground (arith, optimize_same binary block r)

iodine_sub_add-Counted :
    (channel : List ℕ) (id : ℕ) (r : Room) → Counted r → Counted (iodine_sub_add channel id r)
unfolding iodine_sub_add
iodine_sub_add-Counted channel id r c = elim (Option-cases (find channel r.table)) [
  | inl e ↦ ground arith
  | inr (old, e) ↦
      ground (arith, split_id-length old r.live, length-append (split_id old r.live).0 r.leaving)
]

clear_table-Counted : (t : List (List ℕ × ℕ)) (r : Room) → Counted r → Counted (clear_table t r)
unfolding clear_table
clear_table-Counted [] r c = ground arith
clear_table-Counted ((d, id) ∷ t) r c =
    clear_table-Counted t (fio_unsubscribe id r) (fio_unsubscribe-Counted id r c)

unsubscribe-Counted : (channel : List ℕ) (r : Room) → Counted r → Counted (unsubscribe channel r).0
unfolding unsubscribe
unsubscribe-Counted channel r c = elim (Option-cases (find channel r.table)) [
  | inl e ↦ ground arith
  | inr (old, e) ↦
      ground (arith, split_id-length old r.live, length-append (split_id old r.live).0 r.leaving)
]

clear_table_open : (t : List (List ℕ × ℕ)) (r : Room) → (clear_table t r).is_open ≡ r.is_open
unfolding clear_table
clear_table_open [] r = refl
clear_table_open ((d, id) ∷ t) r = clear_table_open t (fio_unsubscribe id r)

close-Counted : (r : Room) → Counted r → Counted (close r)
unfolding close
close-Counted r c = ground (arith, clear_table-Counted r.table r c)

file_entry-Counted :
    (id : ℕ) (r s : Room) (es : List (List ℕ × ℕ))
    → (split_entry id r.joining).0 ≡ es
    → file id r ≡ some s
    → Counted r
    → Counted s
unfolding file
file_entry-Counted id r s [] e h c = absurd (ground arith)
file_entry-Counted id r s (x ∷ es) e h c =
    let w : Room = record r { joining = (split_entry id r.joining).1 } in
    let kept : Counted w = record {
      refs = c.refs;
      freed_at_zero = c.freed_at_zero;
      gone = c.gone;
    } in
    elim (Bool-cases r.is_open) [
      | inl o ↦ subst Counted (ground arith) (iodine_sub_add-Counted x.0 x.1 w kept)
      | inr o ↦ subst Counted (ground arith) (fio_unsubscribe-Counted x.1 w kept)
    ]

pub let_go_same :
    (block : Value) (r : Room)
    → let s = let_go block r in
      (s.live ≡ r.live)
      × (s.leaving ≡ r.leaving)
      × (s.table ≡ r.table)
      × (s.joining ≡ r.joining)
      × (s.collected ≡ r.collected)
      × (s.ref ≡ r.ref)
      × (s.is_open ≡ r.is_open)
unfolding let_go
let_go_same qnil r = ground arith
let_go_same qtrue r = ground arith
let_go_same qfalse r = ground arith
let_go_same (object n) r = ground arith

on_unsubscribe-Counted :
    (id : ℕ) (r s : Room) (xs : List Subscription)
    → (split_id id r.leaving).0 ≡ xs
    → on_unsubscribe id r ≡ some s
    → Counted r
    → Counted s
unfolding on_unsubscribe free_data
on_unsubscribe-Counted id r s [] e h c = absurd (ground arith)
on_unsubscribe-Counted id r s (x ∷ xs) e h c = ground (
  arith,
  let_go_same x.block (record r { leaving = (split_id id r.leaving).1 }),
  split_id-length id r.leaving,
  split_id_single id r.leaving xs x e,
)

collect-Counted : (r s : Room) → collect r ≡ some s → Counted r → Counted s
unfolding collect free_data
collect-Counted r s h c = ground arith

-- Every step keeps the count of references right.
pub step-Counted : (a : Action) (r s : Room) → step a r ≡ some s → Counted r → Counted s
unfolding step
step-Counted (subscribes ch id binary block) r s h c =
    ground (arith, subscribe-Counted ch id binary block r c)
step-Counted (unsubscribes ch) r s h c = ground (arith, unsubscribe-Counted ch r c)
step-Counted (files id) r s h c = file_entry-Counted id r s _ refl h c
step-Counted (ends id) r s h c = on_unsubscribe-Counted id r s _ refl h c
step-Counted closes r s h c = ground (arith, close-Counted r c)
step-Counted collects r s h c = collect-Counted r s h c

new_room-Counted : (kind : Kind) → Counted (new_room kind)
unfolding new_room
new_room-Counted kind = ground arith

Reach-Counted : {r s : Room} → Reach r s → Counted r → Counted s
Reach-Counted here c = c
Reach-Counted (next {s} {t} a run e) c = step-Counted a s t e (Reach-Counted run c)

-- In every run the data is freed exactly when the object was collected and facil.io has given back
-- every subscription.
pub freed_iff :
    (kind : Kind) (r : Room)
    → Reach (new_room kind) r
    → (r.freed ≡ true) ↔ ((r.collected ≡ true) × (r.live ≡ []) × (r.leaving ≡ []))
freed_iff kind r run =
    let c = Reach-Counted run (new_room-Counted kind) in
    ((λ f. ground (arith, c, length_zero r.live, length_zero r.leaving)), λ e. ground (arith, c))
  where
    length_zero : (xs : List Subscription) → length xs ≡ 0 → xs ≡ []
    length_zero [] h = refl
    length_zero (x ∷ xs) h = absurd (omega arith)
