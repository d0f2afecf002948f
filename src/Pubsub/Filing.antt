-- ===== src/Pubsub/Filing.antt =====
-- That the subscriptions which facil.io holds are those that a connection has filed or is about to
-- file (ext/iodine/iodine_connection.c), so that its close cancels them all.
use iodine.Base.{
  ℕ, ◌+◌, ◌<◌, ◌≡◌, refl, subst, Bool, true, false, List, [], ◌∷◌, some, arith, ◌==◌, bytes_eq,
  bytes_eq_iff, if◌then◌else◌, Option-cases, Bool-cases, inl, inr,
}
use iodine.Ruby.{Value}
use iodine.Connection.State.{Kind}
use iodine.Pubsub.Room.{
  Subscription, Room, new_room, split_id, split_entry, fio_unsubscribe, subscribe, find, without,
  iodine_sub_add, file, unsubscribe, clear_table, close, free_data, on_unsubscribe, collect, Action,
  subscribes, unsubscribes, files, ends, closes, collects, step, Reach, here, next,
}
use iodine.Pubsub.Split.{
  count, count_entry, split_id-count, split_id_found, split_entry-count, find-none, find-some,
  count_zero, split_entry_single,
}
use iodine.Pubsub.Lifetime.{optimize_same, let_go_same}

-- The number `j` is live as often as it is filed or about to be.
pub record Filed (j : ℕ) (r : Room) : Type 0 where
  pub balance : count j r.live ≡ count_entry j r.table + count_entry j r.joining
  pub emptied : r.is_open ≡ false → r.table ≡ []

subscribe-Filed :
    (j : ℕ) (channel : List ℕ) (id : ℕ) (binary : Bool) (block : Value) (r : Room)
    → Filed j r
    → Filed j (subscribe channel id binary block r).0
unfolding subscribe
subscribe-Filed j channel id binary block r f = ground (arith, optimize_same binary block r)

-- A subscription leaves: its number is live, by the balance of that number.
count-fio_unsubscribe :
    (j id : ℕ) (r : Room)
    → 0 < count id r.live
    → count j (fio_unsubscribe id r).live + (if id == j then 1 else 0) ≡ count j r.live
unfolding fio_unsubscribe
count-fio_unsubscribe j id r h =
    omega (arith, split_id-count id j r.live, split_id_found id j r.live h)

unsubscribe-Filed :
    (j : ℕ) (channel : List ℕ) (r : Room)
    → ((k : ℕ) → Filed k r)
    → Filed j (unsubscribe channel r).0
unfolding unsubscribe
unsubscribe-Filed j channel r f = elim (Option-cases (find channel r.table)) [
  | inl e ↦ ground (arith, f j)
  | inr (id, e) ↦ ground (
    arith,
    f j,
    f id,
    find-some channel j id r.table e,
    find-some channel id id r.table e,
    split_id-count id j r.live,
    split_id_found id j r.live,
  )
]

-- A closed room whose table still has entries, on the way through the clearing.
abbrev Balanced : List (List ℕ × ℕ) → ℕ → Room → Type 0
Balanced t j r = count j r.live ≡ count_entry j t + count_entry j r.joining

clear_table-Balanced :
    (t : List (List ℕ × ℕ)) (r : Room)
    → ((k : ℕ) → Balanced t k r)
    → (j : ℕ) → Balanced [] j (clear_table t r)
unfolding clear_table
clear_table-Balanced [] r b j = b j
clear_table-Balanced ((c, id) ∷ t) r b j =
    clear_table-Balanced t (fio_unsubscribe id r)
      (λ k. ground (arith, b k, b id, split_id-count id k r.live, split_id_found id k r.live)) j

clear_table_table : (t : List (List ℕ × ℕ)) (r : Room) → (clear_table t r).table ≡ []
unfolding clear_table
clear_table_table [] r = refl
clear_table_table ((c, id) ∷ t) r = clear_table_table t (fio_unsubscribe id r)

close-Filed : (j : ℕ) (r : Room) → ((k : ℕ) → Filed k r) → Filed j (close r)
unfolding close
close-Filed j r f =
    ground (
      arith,
      f j,
      clear_table-Balanced r.table r (λ k. (f k).balance) j,
      clear_table_table r.table r,
    )

iodine_sub_add-Filed :
    (j : ℕ) (channel : List ℕ) (id : ℕ) (r : Room)
    → r.is_open ≡ true
    → ((k : ℕ)
        → count k r.live
          ≡ count_entry k r.table + count_entry k r.joining + (if id == k then 1 else 0))
    → Filed j (iodine_sub_add channel id r)
unfolding iodine_sub_add
iodine_sub_add-Filed j channel id r o b = elim (Option-cases (find channel r.table)) [
  | inl e ↦ ground (arith, b j, find-none channel j r.table e)
  | inr (old, e) ↦ ground (
    arith,
    b j,
    b old,
    find-some channel j old r.table e,
    find-some channel old old r.table e,
    split_id-count old j r.live,
    split_id_found old j r.live,
  )
]

file_entry-Filed :
    (j id : ℕ) (r s : Room) (es : List (List ℕ × ℕ))
    → (split_entry id r.joining).0 ≡ es
    → file id r ≡ some s
    → ((k : ℕ) → Filed k r)
    → Filed j s
unfolding file
file_entry-Filed j id r s [] e h f = absurd (ground arith)
file_entry-Filed j id r s (x ∷ es) e h f =
    let w : Room = record r { joining = (split_entry id r.joining).1 } in
    let (one, named) = split_entry_single id r.joining es x e in
    let apart : (k : ℕ)
        → count k r.live
          ≡ count_entry k r.table + count_entry k w.joining + (if x.1 == k then 1 else 0) =
      λ k. ground (arith, f k, split_entry-count id k r.joining, one) in
    elim (Bool-cases r.is_open) [
      | inl o ↦ subst (Filed j) (ground arith) (iodine_sub_add-Filed j x.0 x.1 w o apart)
      | inr o ↦
          ground (
            arith,
            f j,
            apart j,
            apart x.1,
            split_id-count x.1 j r.live,
            split_id_found x.1 j r.live,
          )
    ]

on_unsubscribe-Filed :
    (j id : ℕ) (r s : Room) (xs : List Subscription)
    → (split_id id r.leaving).0 ≡ xs
    → on_unsubscribe id r ≡ some s
    → Filed j r
    → Filed j s
unfolding on_unsubscribe free_data
on_unsubscribe-Filed j id r s [] e h f = absurd (ground arith)
on_unsubscribe-Filed j id r s (x ∷ xs) e h f =
    ground (arith, let_go_same x.block (record r { leaving = (split_id id r.leaving).1 }))

collect-Filed : (j : ℕ) (r s : Room) → collect r ≡ some s → Filed j r → Filed j s
unfolding collect free_data
collect-Filed j r s h f = ground arith

-- Every step keeps the balance of every number.
pub step-Filed :
    (a : Action) (r s : Room) → step a r ≡ some s → ((j : ℕ) → Filed j r) → (j : ℕ) → Filed j s
unfolding step
step-Filed (subscribes ch id binary block) r s h f j =
    ground (arith, subscribe-Filed j ch id binary block r (f j))
step-Filed (unsubscribes ch) r s h f j = ground (arith, unsubscribe-Filed j ch r f)
step-Filed (files id) r s h f j = file_entry-Filed j id r s _ refl h f
step-Filed (ends id) r s h f j = on_unsubscribe-Filed j id r s _ refl h (f j)
step-Filed closes r s h f j = ground (arith, close-Filed j r f)
step-Filed collects r s h f j = collect-Filed j r s h (f j)

new_room-Filed : (kind : Kind) (j : ℕ) → Filed j (new_room kind)
unfolding new_room
new_room-Filed kind j = ground arith

Reach-Filed : {r s : Room} → Reach r s → ((j : ℕ) → Filed j r) → (j : ℕ) → Filed j s
Reach-Filed here f = f
Reach-Filed (next {s} {t} a run e) f = step-Filed a s t e (Reach-Filed run f)

-- In every run, once the connection is closed and every `subscribe` that was under way has come to
-- its end, no subscription of the connection is left in facil.io, whichever of the two came first.
pub closed_unsubscribes :
    (kind : Kind) (r : Room)
    → Reach (new_room kind) r
    → r.is_open ≡ false
    → r.joining ≡ []
    → r.live ≡ []
closed_unsubscribes kind r run shut done =
    count_zero r.live λ j. ground (arith, Reach-Filed run (new_room-Filed kind) j)

find-without :
    (channel other : List ℕ) (t : List (List ℕ × ℕ))
    → bytes_eq channel other ≡ false
    → find other (without channel t) ≡ find other t
find-without channel other [] h = refl
find-without channel other ((c, k) ∷ t) h =
    ground (arith, find-without channel other t h, bytes_eq_iff c channel)

-- What is subscribed last under a name is what the name stands for; the other names keep theirs.
pub find-iodine_sub_add :
    (channel other : List ℕ) (id : ℕ) (r : Room)
    → find other (iodine_sub_add channel id r).table
      ≡ (if bytes_eq channel other then some id else find other r.table)
unfolding iodine_sub_add
find-iodine_sub_add channel other id r = ground (arith, find-without channel other r.table)
