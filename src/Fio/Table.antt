-- ===== src/Fio/Table.antt =====
-- The hash table that `FIO_SET_NAME` declares (ext/iodine/fio.h), as its users call it: the hash
-- is the key. Its documented behaviour is the record's laws; an association list meets them.
use iodine.Base.{
  ℕ, ◌≡◌, refl, List, [], ◌∷◌, Option, none, some, arith, ◌==◌, if◌then◌else◌, length,
}

pub record Table (V : Type 0) : Type 1 where
  pub Carrier : Type 0
  pub empty : Carrier
  pub find : Carrier → ℕ → Option V
  pub overwrite : Carrier → ℕ → V → Carrier
  pub remove : Carrier → ℕ → Carrier
  pub count : Carrier → ℕ
  pub find-empty : (k : ℕ) → find empty k ≡ none
  pub find-overwrite :
      (t : Carrier) (k : ℕ) (v : V) (j : ℕ)
      → find (overwrite t k v) j ≡ (if k == j then some v else find t j)
  pub find-remove :
      (t : Carrier) (k j : ℕ) → find (remove t k) j ≡ (if k == j then none else find t j)
  pub find_of_count : (t : Carrier) (k : ℕ) → count t ≡ 0 → find t k ≡ none

module _ {V : Type 0} where
  abbrev pub lookup : List (ℕ × V) → ℕ → Option V
  lookup [] k = none
  lookup ((j, v) ∷ m) k = if j == k then some v else lookup m k

  abbrev pub erase : List (ℕ × V) → ℕ → List (ℕ × V)
  erase [] k = []
  erase ((j, v) ∷ m) k = if j == k then erase m k else (j, v) ∷ erase m k

  pub lookup-erase :
      (m : List (ℕ × V)) (k j : ℕ) → lookup (erase m k) j ≡ (if k == j then none else lookup m j)
  lookup-erase [] k j = ground arith
  lookup-erase ((i, v) ∷ m) k j = ground (arith, lookup-erase m k j)

  pub lookup_of_length : (m : List (ℕ × V)) (k : ℕ) → length m ≡ 0 → lookup m k ≡ none
  lookup_of_length [] k h = refl
  lookup_of_length (x ∷ m) k h = absurd (omega arith)

  pub lookup-overwrite :
      (t : List (ℕ × V)) (k : ℕ) (v : V) (j : ℕ)
      → lookup ((k, v) ∷ erase t k) j ≡ (if k == j then some v else lookup t j)
  lookup-overwrite t k v j = ground (arith, lookup-erase t k j)

-- The laws hold of a concrete table.
abbrev pub assoc_table : (V : Type 0) → Table V
assoc_table V = record {
  Carrier = List (ℕ × V);
  empty = [];
  find = lookup;
  overwrite = λ t k v. (k, v) ∷ erase t k;
  remove = erase;
  count = length;
  find-empty = λ k. refl;
  find-overwrite = lookup-overwrite;
  find-remove = lookup-erase;
  find_of_count = lookup_of_length;
}
