-- ===== src/Store.antt =====
-- ext/iodine/iodine_store.c: the table of Ruby objects that C code keeps from the garbage
-- collector, each with the number of its holders. The lock makes each call one step.
pub mod Examples
pub mod Counts
use iodine.Base.{
  ℕ, ◌+◌, ◌-◌, Bool, true, false, ◌||◌, Option, none, some, ltb, ◌==◌, if◌then◌else◌, u64,
}
use iodine.Ruby.{Value, is_special, key_of}
use iodine.Fio.Table.{Table}

-- An out parameter that starts at 0 and is set only if the table held the key.
abbrev pub get_or_zero : Option ℕ → ℕ
get_or_zero none = 0
get_or_zero (some n) = n

module _ (T : Table ℕ) where
  open T use {Carrier, empty, find, overwrite, remove, count}

  pub record Storage : Type 0 where
    pub items : Carrier
    pub count_max : ℕ

  pub empty_storage : Storage
  empty_storage = record { items = empty; count_max = 0 }

  -- fio_store_overwrite(&storage, obj, 1, &old); if (old) fio_store_overwrite(…, old + 1, NULL)
  count_up : Carrier → ℕ → Carrier
  count_up t k =
      let old = get_or_zero (find t k) in
      let once = overwrite t k 1 in if old == 0 then once else overwrite once k (u64 (old + 1))

  pub storage_add : Storage → Value → Storage
  unfolding count_up
  storage_add s v =
      let t = count_up s.items (key_of v) in
      if is_special v then s else record {
        items = t;
        count_max = if ltb s.count_max (count t) then count t else s.count_max;
      }

  count_down : Carrier → ℕ → Carrier
  count_down t k =
      let old = get_or_zero (find t k) in
      let gone = remove t k in if ltb 1 old then overwrite gone k (old - 1) else gone

  pub storage_remove : Storage → Value → Storage
  unfolding count_down
  storage_remove s v =
      if is_special v || count s.items == 0
      then s
      else record s { items = count_down s.items (key_of v) }

  -- The count kept for an object; `storage_mark` marks those with a count that is not 0.
  unfoldable pub refs : Storage → Value → ℕ
  refs s v = if is_special v then 0 else get_or_zero (find s.items (key_of v))

  pub is_marked : Storage → Value → Bool
  unfolding refs
  is_marked s v = ltb 0 (refs s v)
