-- ===== src/Store/Counts.antt =====
-- What the counts of the storage mean for an object's holders (ext/iodine/iodine_store.c).
use iodine.Base.{
  ℕ, suc, ◌+◌, ◌-◌, ◌<◌, ◌≡◌, refl, ap, ◌∙◌, List, [], ◌∷◌, ◌++◌, Option, none, some, arith, ◌==◌,
  if◌then◌else◌, word_mod, u64, length,
}
use iodine.Ruby.{Value, qnil, qtrue, qfalse, object, one_of}
use iodine.Fio.Table.{Table}
use iodine.Store.{
  Storage, empty_storage, storage_add, storage_remove, refs, get_or_zero, count_up, count_down,
}

-- The calls that the rest of the program makes.
pub data Call : Type 0 where
  add : Value → Call
  drop : Value → Call

-- The abstract view of one object: a number of holders, which fails where it would fall below 0.
unfoldable pub holders : Value → ℕ → List Call → Option ℕ
holders w n [] = some n
holders w n (add v ∷ calls) = holders w (n + one_of v w) calls
holders w n (drop v ∷ calls) =
    let rest = holders w (n - one_of v w) calls in
    if n == 0 then (if one_of v w == 0 then rest else none) else rest

-- The same on any calls: who lets go of what nobody holds takes nothing away.
unfoldable pub tally : Value → ℕ → List Call → ℕ
tally w n [] = n
tally w n (add v ∷ calls) = tally w (n + one_of v w) calls
tally w n (drop v ∷ calls) = tally w (n - one_of v w) calls

pub tally-append :
    (xs ys : List Call) (w : Value) (n : ℕ) → tally w n (xs ++ ys) ≡ tally w (tally w n xs) ys
unfolding tally
tally-append [] ys w n = refl
tally-append (add v ∷ xs) ys w n = tally-append xs ys w (n + one_of v w)
tally-append (drop v ∷ xs) ys w n = tally-append xs ys w (n - one_of v w)

tally-holders :
    (calls : List Call) (w : Value) (n m : ℕ) → holders w n calls ≡ some m → tally w n calls ≡ m
unfolding tally holders
tally-holders [] w n m h = ground arith
tally-holders (add v ∷ calls) w n m h = tally-holders calls w (n + one_of v w) m h
tally-holders (drop v ∷ calls) w n m h = tally-holders calls w (n - one_of v w) m (ground arith)

module _ (T : Table ℕ) where
  open T use {find, find-overwrite, find-remove, find_of_count, overwrite, remove}

  find-count_up :
      (t : T.Carrier) (k j : ℕ)
      → get_or_zero (find t k) + 1 < word_mod
      → get_or_zero (find (count_up T t k) j)
        ≡ (if k == j then get_or_zero (find t k) + 1 else get_or_zero (find t j))
  unfolding count_up
  find-count_up t k j h =
      let old = get_or_zero (find t k) in
      ground (arith, find-overwrite t k 1 j, find-overwrite (overwrite t k 1) k (u64 (old + 1)) j)

  find-count_down :
      (t : T.Carrier) (k j : ℕ)
      → get_or_zero (find (count_down T t k) j)
        ≡ (if k == j then get_or_zero (find t k) - 1 else get_or_zero (find t j))
  unfolding count_down
  find-count_down t k j =
      let old = get_or_zero (find t k) in
      ground (arith, find-remove t k j, find-overwrite (remove t k) k (old - 1) j)

  -- `IodineStore.add` adds one holder to its object, and changes no other object's count.
  pub refs-storage_add :
      (s : Storage T) (v w : Value)
      → refs T s v + 1 < word_mod
      → refs T (storage_add T s v) w ≡ refs T s w + one_of v w
  unfolding storage_add refs
  refs-storage_add s (object m) (object n) h = ground (arith, find-count_up s.items m n)
  refs-storage_add s (object m) qnil h = omega arith
  refs-storage_add s (object m) qtrue h = omega arith
  refs-storage_add s (object m) qfalse h = omega arith
  refs-storage_add s qnil w h = omega arith
  refs-storage_add s qtrue w h = omega arith
  refs-storage_add s qfalse w h = omega arith

  -- `IodineStore.remove` takes one holder off its object, if it has one, and changes no other count.
  pub refs-storage_remove :
      (s : Storage T) (v w : Value) → refs T (storage_remove T s v) w ≡ refs T s w - one_of v w
  unfolding storage_remove refs
  refs-storage_remove s (object m) (object n) =
      ground (arith, find-count_down s.items m n, find_of_count s.items n)
  refs-storage_remove s (object m) qnil = omega arith
  refs-storage_remove s (object m) qtrue = omega arith
  refs-storage_remove s (object m) qfalse = omega arith
  refs-storage_remove s qnil w = omega arith
  refs-storage_remove s qtrue w = omega arith
  refs-storage_remove s qfalse w = omega arith

  pub call : Storage T → Call → Storage T
  call s (add v) = storage_add T s v
  call s (drop v) = storage_remove T s v

  pub run : Storage T → List Call → Storage T
  run s [] = s
  run s (c ∷ calls) = run (call s c) calls

  -- Every count leaves room for `n` more holders.
  abbrev pub HasRoom : Storage T → ℕ → Type 0
  HasRoom s n = (v : Value) → refs T s v + n < word_mod

  add-HasRoom :
      (s : Storage T) (v : Value) (n : ℕ) → HasRoom s (suc n) → HasRoom (storage_add T s v) n
  add-HasRoom s v n room w = ground (arith, room w, room v, refs-storage_add s v w, one_of_le v w)
    where
      one_of_le : (v w : Value) → one_of v w < 2
      one_of_le (object a) (object b) = ground arith
      one_of_le (object a) qnil = omega arith
      one_of_le (object a) qtrue = omega arith
      one_of_le (object a) qfalse = omega arith
      one_of_le qnil w = omega arith
      one_of_le qtrue w = omega arith
      one_of_le qfalse w = omega arith

  remove-HasRoom :
      (s : Storage T) (v : Value) (n : ℕ) → HasRoom s (suc n) → HasRoom (storage_remove T s v) n
  remove-HasRoom s v n room w = omega (arith, room w, refs-storage_remove s v w)

  pub refs-run-tally :
      (calls : List Call) (s : Storage T) (w : Value)
      → HasRoom s (length calls)
      → refs T (run s calls) w ≡ tally w (refs T s w) calls
  unfolding run call tally
  refs-run-tally [] s w room = refl
  refs-run-tally (add v ∷ calls) s w room =
      refs-run-tally calls (storage_add T s v) w (add-HasRoom s v _ room)
      ∙ ap (λ k. tally w k calls) (refs-storage_add s v w (omega (arith, room v)))
  refs-run-tally (drop v ∷ calls) s w room =
      refs-run-tally calls (storage_remove T s v) w (remove-HasRoom s v _ room)
      ∙ ap (λ k. tally w k calls) (refs-storage_remove s v w)

  -- After any calls the storage holds each object as often as its holders say that they hold it,
  -- as long as nobody lets go of what he does not hold and the counts have room for the calls.
  pub refs-run :
      (calls : List Call) (s : Storage T) (w : Value) (n : ℕ)
      → HasRoom s (length calls)
      → holders w (refs T s w) calls ≡ some n
      → refs T (run s calls) w ≡ n
  refs-run calls s w n room h = refs-run-tally calls s w room ∙ tally-holders calls w _ n h

  -- A fresh storage holds nothing.
  pub refs-empty_storage : (w : Value) → refs T (empty_storage T) w ≡ 0
  unfolding refs empty_storage
  refs-empty_storage (object n) = rw (T.find-empty n)
  refs-empty_storage qnil = refl
  refs-empty_storage qtrue = refl
  refs-empty_storage qfalse = refl
