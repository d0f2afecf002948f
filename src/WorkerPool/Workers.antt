-- ===== src/WorkerPool/Workers.antt =====
-- Sums over the workers of a pool (ext/iodine/iodine_worker_pool.c), and how one worker's step
-- changes them.
use iodine.Base.{
  ℕ, zero, suc, ◌+◌, ◌≡◌, refl, ap, true, List, [], ◌∷◌, ◌++◌, Option, none, some, arith, get_elem?,
  set, length,
}
use iodine.Ruby.{Value, one_of}
use iodine.WorkerPool.Pool.{Work, Worker, Phase, executing, returned, callbacks, all_exited}

abbrev pub sum_of : (Worker → ℕ) → List Worker → ℕ
sum_of f [] = 0
sum_of f (w ∷ ws) = f w + sum_of f ws

pub sum_of-set :
    (f : Worker → ℕ) (ws : List Worker) (i : ℕ) (w v : Worker)
    → get_elem? ws i ≡ some w
    → sum_of f (set ws i v) + f w ≡ sum_of f ws + f v
sum_of-set f [] i w v e = cc
sum_of-set f (x ∷ ws) zero w v e =
    ground (arith, ap {B = Option ℕ} (λ o. elim o [ none ↦ none | some y ↦ some (f y) ]) e)
sum_of-set f (x ∷ ws) (suc i) w v e = omega (arith, sum_of-set f ws i w v e)

-- One for a worker that has taken a work item and not yet reported it.
abbrev pub busy : Phase → ℕ
busy (executing work) = 1
busy (returned work) = 1
busy phase = 0

abbrev pub in_flight : List Worker → ℕ
in_flight = sum_of (λ w. busy w.phase)

pub in_flight-set :
    (ws : List Worker) (i : ℕ) (w v : Worker)
    → get_elem? ws i ≡ some w
    → in_flight (set ws i v) + busy w.phase ≡ in_flight ws + busy v.phase
in_flight-set ws i w v e = sum_of-set (λ u. busy u.phase) ws i w v e

-- How often the workers' items hold the callback `v`.
abbrev pub carries : Value → Phase → ℕ
carries v (executing work) = one_of work.callback v
carries v (returned work) = one_of work.callback v
carries v phase = 0

abbrev pub carried : Value → List Worker → ℕ
carried v = sum_of (λ w. carries v w.phase)

pub carried-set :
    (x : Value) (ws : List Worker) (i : ℕ) (w v : Worker)
    → get_elem? ws i ≡ some w
    → carried x (set ws i v) + carries x w.phase ≡ carried x ws + carries x v.phase
carried-set x ws i w v e = sum_of-set (λ u. carries x u.phase) ws i w v e

abbrev pub holds : Value → List Value → ℕ
holds v [] = 0
holds v (x ∷ xs) = one_of x v + holds v xs

pub holds-append : (v : Value) (xs ys : List Value) → holds v (xs ++ ys) ≡ holds v xs + holds v ys
holds-append v [] ys = omega arith
holds-append v (x ∷ xs) ys = omega (arith, holds-append v xs ys)

pub holds-callbacks-append :
    (v : Value) (xs ys : List Work)
    → holds v (callbacks (xs ++ ys)) ≡ holds v (callbacks xs) + holds v (callbacks ys)
holds-callbacks-append v [] ys = omega arith
holds-callbacks-append v (x ∷ xs) ys = omega (arith, holds-callbacks-append v xs ys)

-- Workers that are all gone hold nothing.
pub carried_of_exited : (v : Value) (ws : List Worker) → all_exited ws ≡ true → carried v ws ≡ 0
carried_of_exited v [] h = refl
carried_of_exited v (w ∷ ws) h = ground (arith, carried_of_exited v ws)

pub in_flight_of_exited : (ws : List Worker) → all_exited ws ≡ true → in_flight ws ≡ 0
in_flight_of_exited [] h = refl
in_flight_of_exited (w ∷ ws) h = ground (arith, in_flight_of_exited ws)

pub carried_of_length : (v : Value) (ws : List Worker) → length ws ≡ 0 → carried v ws ≡ 0
carried_of_length v [] h = refl
carried_of_length v (w ∷ ws) h = absurd (omega arith)
