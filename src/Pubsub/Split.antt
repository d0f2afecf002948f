-- ===== src/Pubsub/Split.antt =====
-- What taking a subscription out of a list does to the lists of Pubsub/Room.antt
-- (ext/iodine/iodine_connection.c).
use iodine.Base.{
  ℕ, ◌+◌, ◌<◌, ◌≡◌, refl, List, [], ◌∷◌, none, some, arith, ◌==◌, if◌then◌else◌, length,
}
use iodine.Pubsub.Room.{Subscription, split_id, split_entry, find, without}

abbrev pub count : ℕ → List Subscription → ℕ
count j [] = 0
count j (s ∷ subs) = (if s.id == j then 1 else 0) + count j subs

abbrev pub count_entry : ℕ → List (List ℕ × ℕ) → ℕ
count_entry j [] = 0
count_entry j ((c, k) ∷ subs) = (if k == j then 1 else 0) + count_entry j subs

pub split_id-length :
    (id : ℕ) (xs : List Subscription)
    → length (split_id id xs).0 + length (split_id id xs).1 ≡ length xs
split_id-length id [] = refl
split_id-length id (x ∷ xs) = ground (arith, split_id-length id xs)

pub split_id-count :
    (id j : ℕ) (xs : List Subscription)
    → count j (split_id id xs).0 + count j (split_id id xs).1 ≡ count j xs
split_id-count id j [] = refl
split_id-count id j (x ∷ xs) = ground (arith, split_id-count id j xs)

pub split_id_found :
    (id j : ℕ) (xs : List Subscription)
    → 0 < count id xs
    → count j (split_id id xs).0 ≡ (if id == j then 1 else 0)
split_id_found id j [] h = absurd (omega arith)
split_id_found id j (x ∷ xs) h = ground (arith, split_id_found id j xs)

pub split_entry-count :
    (id j : ℕ) (xs : List (List ℕ × ℕ))
    → count_entry j (split_entry id xs).0 + count_entry j (split_entry id xs).1 ≡ count_entry j xs
split_entry-count id j [] = refl
split_entry-count id j ((c, k) ∷ xs) = ground (arith, split_entry-count id j xs)

pub find-none :
    (c : List ℕ) (j : ℕ) (t : List (List ℕ × ℕ))
    → find c t ≡ none
    → count_entry j (without c t) ≡ count_entry j t
find-none c j [] h = refl
find-none c j ((d, k) ∷ t) h = ground (arith, find-none c j t)

pub find-some :
    (c : List ℕ) (j id : ℕ) (t : List (List ℕ × ℕ))
    → find c t ≡ some id
    → count_entry j t ≡ count_entry j (without c t) + (if id == j then 1 else 0)
find-some c j id [] h = cc
find-some c j id ((d, k) ∷ t) h = ground (arith, find-some c j id t)

-- A list in which no number occurs is empty.
pub count_zero : (xs : List Subscription) → ((j : ℕ) → count j xs ≡ 0) → xs ≡ []
count_zero [] h = refl
count_zero (x ∷ xs) h = absurd (ground (arith, h x.id))

pub split_id_single :
    (id : ℕ) (xs more : List Subscription) (s : Subscription)
    → (split_id id xs).0 ≡ s ∷ more
    → more ≡ []
split_id_single id [] more s h = absurd (ground arith)
split_id_single id (x ∷ xs) more s h = ground (arith, split_id_single id xs more s)

pub split_entry_single :
    (id : ℕ) (xs more : List (List ℕ × ℕ)) (e : List ℕ × ℕ)
    → (split_entry id xs).0 ≡ e ∷ more
    → (more ≡ []) × (e.1 ≡ id)
split_entry_single id [] more e h = absurd (ground arith)
split_entry_single id ((c, k) ∷ xs) more e h = ground (arith, split_entry_single id xs more e)
