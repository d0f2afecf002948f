-- ===== src/WorkerPool/Queue.antt =====
-- The work queue of ext/iodine/iodine_worker_pool.c as it lies in memory: a chain of nodes through
-- `next` with a pointer to its head and one to its tail. NULL is 0.
use iodine.Base.{
  ℕ, zero, suc, ◌+◌, ◌<◌, ◌≡◌, ◌≢◌, refl, sym, ap, subst, false, List, [], ◌∷◌, ◌++◌, Option, none,
  some, arith, ◌==◌, if◌then◌else◌, length, All, update, update_self, update_ne,
}
use iodine.Ruby.{Value}

-- struct iodine_worker_pool_work
pub record Node : Type 0 where
  pub blocking_operation : ℕ
  pub callback : Value
  pub next : ℕ

-- The memory of the nodes, and the two fields of the pool that lead into it.
pub record Queue : Type 0 where
  pub node : ℕ → Node
  pub work_head : ℕ
  pub work_tail : ℕ

abbrev pub set_next : (ℕ → Node) → ℕ → ℕ → ℕ → Node
set_next m p q = update m p (record (m p) { next = q })

pub enqueue_work : Queue → ℕ → Queue
enqueue_work q work =
    let linked =
      if q.work_tail == 0
      then record q { work_head = work }
      else record q { node = set_next q.node q.work_tail work } in
    record linked { work_tail = work }

pub dequeue_work : Queue → ℕ × Queue
dequeue_work q =
    let work = q.work_head in
    let after = (q.node work).next in
    let moved = record q {
      node = set_next q.node work 0;
      work_head = after;
      work_tail = if after == 0 then 0 else q.work_tail;
    } in
    if work == 0 then (0, q) else (work, moved)

-- The loop of `count_queue_size`, on fuel.
count_from : ℕ → (ℕ → Node) → ℕ → ℕ → Option ℕ
count_from zero m p n = none
count_from (suc fuel) m p n =
    let rest = count_from fuel m (m p).next (n + 1) in if p == 0 then some n else rest

pub count_queue_size : ℕ → Queue → Option ℕ
unfolding count_from
count_queue_size fuel q = count_from fuel q.node q.work_head 0

-- The chain from `p` runs through the nodes of the list and ends in NULL.
abbrev pub Chain : (ℕ → Node) → ℕ → List ℕ → Type 0
Chain m p [] = p ≡ 0
Chain m p (x ∷ xs) = (p ≡ x) × (x ≢ 0) × Chain m (m x).next xs

abbrev pub last_or : ℕ → List ℕ → ℕ
last_or d [] = d
last_or d (x ∷ xs) = last_or x xs

-- No node stands in the chain twice.
abbrev pub Distinct : List ℕ → Type 0
Distinct [] = Unit {0}
Distinct (x ∷ xs) = All (λ y. y ≢ x) xs × Distinct xs

pub record Represents (q : Queue) (xs : List ℕ) : Type 0 where
  pub chain : Chain q.node q.work_head xs
  pub ends : q.work_tail ≡ last_or 0 xs
  pub distinct : Distinct xs

-- A write to a node outside of the chain leaves the chain.
Chain-set_next :
    (m : ℕ → Node) (p w v : ℕ) (xs : List ℕ)
    → All (λ y. y ≢ w) xs
    → Chain m p xs
    → Chain (set_next m w v) p xs
Chain-set_next m p w v [] a c = c
Chain-set_next m p w v (x ∷ xs) a c = (
  c.0,
  c.1,
  rw (update_ne m w (record (m w) { next = v }) x (λ e. a.0 (omega arith)))
      (Chain-set_next m (m x).next w v xs a.1 c.2),
)

last_or_ne : (x y : ℕ) (xs : List ℕ) → All (λ z. z ≢ x) (y ∷ xs) → last_or y xs ≢ x
last_or_ne x y [] a = a.0
last_or_ne x y (z ∷ xs) a = last_or_ne x z xs a.1

-- The write of `tail->next = work` makes the chain longer by one.
Chain-append :
    (m : ℕ → Node) (p x w : ℕ) (xs : List ℕ)
    → Chain m p (x ∷ xs)
    → Distinct (x ∷ xs)
    → w ≢ 0
    → All (λ y. y ≢ w) (x ∷ xs)
    → (m w).next ≡ 0
    → Chain (set_next m (last_or x xs) w) p (x ∷ xs ++ w ∷ [])
Chain-append m p x w [] c d nz a e = (
  c.0,
  c.1,
  (
    rw (update_self m x (record (m x) { next = w })),
    nz,
    rw (update_ne m x (record (m x) { next = w }) w a.0) e,
  ),
)
Chain-append m p x w (y ∷ xs) c d nz a e = (
  c.0,
  c.1,
  rw (update_ne m (last_or y xs) (record (m (last_or y xs)) { next = w }) x (last_or_ne x y xs d.0))
      (Chain-append m (m x).next y w xs c.2 d.1 nz a.1 e),
)

All-append : (w : ℕ) (P : ℕ → Type 0) (xs : List ℕ) → All P xs → P w → All P (xs ++ w ∷ [])
All-append w P [] a h = (h, tt)
All-append w P (x ∷ xs) a h = (a.0, All-append w P xs a.1 h)

Distinct-append :
    (w : ℕ) (xs : List ℕ) → Distinct xs → All (λ y. y ≢ w) xs → Distinct (xs ++ w ∷ [])
Distinct-append w [] d a = (tt, tt)
Distinct-append w (x ∷ xs) d a =
    (All-append w (λ y. y ≢ x) xs d.0 (λ e. a.0 (sym e)), Distinct-append w xs d.1 a.1)

last_or-append : (d w : ℕ) (xs : List ℕ) → last_or d (xs ++ w ∷ []) ≡ w
last_or-append d w [] = refl
last_or-append d w (x ∷ xs) = last_or-append x w xs

-- The last node of a chain is no null pointer.
last_or_pos : (m : ℕ → Node) (p x : ℕ) (xs : List ℕ) → Chain m p (x ∷ xs) → last_or x xs ≢ 0
last_or_pos m p x [] c = c.1
last_or_pos m p x (y ∷ xs) c = last_or_pos m (m x).next y xs c.2

enqueue_linked :
    (q : Queue) (w t : ℕ)
    → q.work_tail ≡ t
    → t ≢ 0
    → enqueue_work q w
      ≡ record { node = set_next q.node t w; work_head = q.work_head; work_tail = w }
unfolding enqueue_work
enqueue_linked q w t e nz =
    let no : (q.work_tail == 0) ≡ false = ground arith in
    rw no
      (ap (λ k. record { node = set_next q.node k w; work_head = q.work_head; work_tail = w }) e)

-- A detached node whose `next` is NULL goes to the end of the queue.
pub enqueue_work-Represents :
    (q : Queue) (xs : List ℕ) (w : ℕ)
    → Represents q xs
    → w ≢ 0
    → All (λ y. y ≢ w) xs
    → (q.node w).next ≡ 0
    → Represents (enqueue_work q w) (xs ++ w ∷ [])
unfolding enqueue_work
enqueue_work-Represents q [] w r nz a e = record {
  chain = ground (arith, r.ends);
  ends = refl;
  distinct = (tt, tt);
}
enqueue_work-Represents q (x ∷ xs) w r nz a e =
    rw (enqueue_linked q w (last_or x xs) r.ends (last_or_pos q.node _ x xs r.chain)) (record {
      chain = Chain-append q.node q.work_head x w xs r.chain r.distinct nz a e;
      ends = sym (last_or-append x w xs);
      distinct = Distinct-append w (x ∷ xs) r.distinct a;
    })

-- What `dequeue_work` promises, in terms of the list.
pub data Dequeued (q : Queue) (xs : List ℕ) : Type 0 where
  nothing : xs ≡ [] → dequeue_work q ≡ (0, q) → Dequeued q xs
  oldest :
      (x : ℕ) (rest : List ℕ)
      → xs ≡ x ∷ rest
      → (dequeue_work q).0 ≡ x
      → Represents (dequeue_work q).1 rest
      → ((dequeue_work q).1.node x).next ≡ 0
      → Dequeued q xs

dequeue_rest :
    (m : ℕ → Node) (p x : ℕ) (rest : List ℕ)
    → Chain m p (x ∷ rest)
    → (if (m x).next == 0 then 0 else last_or x rest) ≡ last_or 0 rest
dequeue_rest m p x [] c = ground arith
dequeue_rest m p x (y ∷ rest) c = ground arith

dequeue_at :
    (m : ℕ → Node) (x t : ℕ) (rest : List ℕ)
    → x ≢ 0
    → Chain m (m x).next rest
    → t ≡ last_or x rest
    → Distinct (x ∷ rest)
    → Dequeued (record { node = m; work_head = x; work_tail = t }) (x ∷ rest)
unfolding dequeue_work
dequeue_at m x t rest nz c e d =
    let some_head : (x == 0) ≡ false = ground arith in
    oldest x rest refl (rw some_head)
      (rw some_head (record {
        chain = Chain-set_next m (m x).next x 0 rest d.0 c;
        ends = rw e (dequeue_rest m x x rest (refl, nz, c));
        distinct = d.1;
      }))
      (rw (some_head, update_self m x (record (m x) { next = 0 })))

-- The oldest node leaves the queue, detached; an empty queue stays as it is and gives NULL.
pub dequeue_work-Dequeued : (q : Queue) (xs : List ℕ) → Represents q xs → Dequeued q xs
unfolding dequeue_work
dequeue_work-Dequeued q [] r = nothing refl (rw r.chain)
dequeue_work-Dequeued q (x ∷ rest) r =
    subst (λ p. Dequeued (record q { work_head = p }) (x ∷ rest)) (sym r.chain.0)
      (dequeue_at q.node x q.work_tail rest r.chain.1 r.chain.2 r.ends r.distinct)

count_from-length :
    (fuel : ℕ) (m : ℕ → Node) (p n : ℕ) (xs : List ℕ)
    → Chain m p xs
    → length xs < fuel
    → count_from fuel m p n ≡ some (n + length xs)
unfolding count_from
count_from-length zero m p n xs c h = absurd (omega arith)
count_from-length (suc fuel) m p n [] c h = ground arith
count_from-length (suc fuel) m p n (x ∷ xs) c h =
    ground (arith, count_from-length fuel m (m x).next (n + 1) xs c.2)

-- With more fuel than the queue has nodes, the count ends and is the number of nodes.
pub count_queue_size-length :
    (fuel : ℕ) (q : Queue) (xs : List ℕ)
    → Represents q xs
    → length xs < fuel
    → count_queue_size fuel q ≡ some (length xs)
unfolding count_queue_size
count_queue_size-length fuel q xs r h =
    rw (count_from-length fuel q.node _ 0 xs r.chain h) (ground arith)
