-- ===== src/Store/Examples.antt =====
-- A storage of ext/iodine/iodine_store.c with an association list for its table.
use iodine.Base.{arith, ℕ, ◌≡◌, refl, true, List, [], ◌∷◌, word_mod, ltb}
use iodine.Ruby.{qnil, qtrue, qfalse, object}
use iodine.Fio.Table.{assoc_table}
use iodine.Store.{Storage, refs}
use iodine.Store.Counts.{Call, add, drop, holders, run, refs-run, HasRoom}

abbrev pub fresh : Storage (assoc_table ℕ)
fresh = record { items = []; count_max = 0 }

pub fresh-HasRoom : (n : ℕ) → ltb n word_mod ≡ true → HasRoom (assoc_table ℕ) fresh n
unfolding refs
fresh-HasRoom n h (object k) = ground arith
fresh-HasRoom n h qnil = ground arith
fresh-HasRoom n h qtrue = ground arith
fresh-HasRoom n h qfalse = ground arith

abbrev calls : List Call
calls = add (object 3) ∷ add (object 4) ∷ add (object 3) ∷ drop (object 4) ∷ drop (object 3) ∷ []

refs-run_example : refs (assoc_table ℕ) (run (assoc_table ℕ) fresh calls) (object 3) ≡ 1
unfolding holders refs
refs-run_example = refs-run (assoc_table ℕ) calls fresh (object 3) 1 (fresh-HasRoom 5 refl) refl
