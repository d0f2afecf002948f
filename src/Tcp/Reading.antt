-- ===== src/Tcp/Reading.antt =====
-- How iodine_tcp_on_data empties a socket (ext/iodine/iodine_tcp.c).
use iodine.Base.{
  arith, ℕ, zero, suc, ◌+◌, ◌*◌, ◌≤◌, ◌<◌, ◌≡◌, refl, sym, ap, subst, ◌∙◌, Bool, true, false, ◌||◌,
  List, [], ◌∷◌, ◌++◌, append_assoc, Option, none, some, Bool-cases, inl, inr, ◌==◌, if◌then◌else◌,
  length, length-append, length-drop, drop-nil, ==_iff, take, drop, take-append-drop,
  length-take-le, All,
}
use iodine.Ruby.{Value}
use iodine.Store.Counts
use iodine.Connection.State
use iodine.Connection.Events.{on_message, fire_event}
use iodine.Tcp.{
  Effect, stores, new_string, forces_on_data, Protocol, effect_of, effects_of, fire_on, fire,
  on_data,
}

abbrev forces : Effect → Bool
forces (forces_on_data uuid) = true
forces e = false

abbrev pub is_forced : List Effect → Bool
is_forced [] = false
is_forced (e ∷ es) = forces e || is_forced es

abbrev piece : Effect → List (List ℕ)
piece (new_string bytes) = bytes ∷ []
piece e = []

-- The Strings that were made for the handler.
abbrev pub pieces : List Effect → List (List ℕ)
pieces [] = []
pieces (e ∷ es) = piece e ++ pieces es

abbrev pub joined : List (List ℕ) → List ℕ
joined [] = []
joined (p ∷ ps) = p ++ joined ps

pieces-append : (xs ys : List Effect) → pieces (xs ++ ys) ≡ pieces xs ++ pieces ys
pieces-append [] ys = refl
pieces-append (x ∷ xs) ys =
    ap (◌++◌ (piece x)) (pieces-append xs ys) ∙ sym (append_assoc (piece x) (pieces xs) (pieces ys))

is_forced-append : (xs ys : List Effect) → is_forced (xs ++ ys) ≡ (is_forced xs || is_forced ys)
is_forced-append [] ys = refl
is_forced-append (x ∷ xs) ys = ground (arith, is_forced-append xs ys)

quiet_effect :
    (io : Value) (e : State.Effect)
    → (piece (effect_of io e) ≡ []) × (forces (effect_of io e) ≡ false)
quiet_effect io State.lets_go = (refl, refl)
quiet_effect io _ = (refl, refl)

quiet :
    (io : Value) (es : List State.Effect)
    → (pieces (effects_of io es) ≡ []) × (is_forced (effects_of io es) ≡ false)
quiet io [] = (refl, refl)
quiet io (e ∷ es) =
    let (p, f) = quiet_effect io e in
    let (ps, fs) = quiet io es in (rw (p, ps) refl, rw (f, fs) refl)

fire_on-quiet :
    (p : Protocol) (o : Option State.Data)
    → let (es, after) = fire_on on_message p o in (pieces es ≡ []) × (is_forced es ≡ false)
unfolding fire_on
fire_on-quiet p none = (refl, refl)
fire_on-quiet p (some d) = quiet p.io (fire_event on_message d).0

on_data-nothing :
    (size : ℕ) (message : Value) (p : Protocol) → on_data size message none p ≡ ([], p)
unfolding on_data
on_data-nothing size message p = refl

-- One call of on_data: the bytes of the read, once, and another event if the buffer was full.
on_data-pieces :
    (size : ℕ) (message : Value) (bytes : List ℕ) (p : Protocol)
    → (pieces (on_data size message (some bytes) p).0 ≡ bytes ∷ [])
      × (is_forced (on_data size message (some bytes) p).0 ≡ (length bytes == size))
unfolding on_data fire
on_data-pieces size message bytes p =
    let es = (fire on_message p).0 in
    let (silent, unforced) = fire_on-quiet p p.data_ in
    elim (Bool-cases (length bytes == size)) [
      | inl full ↦
          let again = stores (Counts.drop message) ∷ forces_on_data p.uuid ∷ [] in
          rw full (
            ap (◌∷◌ bytes) (pieces-append es again ∙ ap (λ q. q ++ []) silent),
            is_forced-append es again ∙ rw unforced refl,
          )
      | inr more ↦
          let last = stores (Counts.drop message) ∷ [] in
          rw more (
            ap (◌∷◌ bytes) (pieces-append es last ∙ ap (λ q. q ++ []) silent),
            is_forced-append es last ∙ rw unforced refl,
          )
    ]

-- The reads of a socket that holds some bytes, one event after the other; `fio_read` gives as much
-- as the buffer takes of what there is.
abbrev pub fio_read : ℕ → List ℕ → Option (List ℕ)
fio_read size [] = none
fio_read size (b ∷ bs) = some (take size (b ∷ bs))

abbrev pub go_on : Option (List Effect × List ℕ) → List Effect → Option (List Effect × List ℕ)
go_on none es = none
go_on (some (more, left)) es = some (es ++ more, left)

pub drain : ℕ → Value → ℕ → List ℕ → Protocol → Option (List Effect × List ℕ)
drain size message zero pending p = none
drain size message (suc fuel) pending p =
    let (es, after) = on_data size message (fio_read size pending) p in
    let rest = go_on (drain size message fuel (drop size pending) after) es in
    if is_forced es then rest else some (es, drop size pending)

length-zero : (xs : List ℕ) → length xs ≡ 0 → xs ≡ []
length-zero [] h = refl
length-zero (x ∷ xs) h = absurd (omega arith)

two_parts : (size : ℕ) (xs : List ℕ) → length (take size xs) + length (drop size xs) ≡ length xs
two_parts size xs =
    sym (length-append (take size xs) (drop size xs)) ∙ ap length (take-append-drop size xs)

not_full-drop :
    (size : ℕ) (xs : List ℕ) → (length (take size xs) == size) ≡ false → drop size xs ≡ []
not_full-drop size xs more =
    let short : length (take size xs) < size = ground (arith, length-take-le size xs) in
    length-zero (drop size xs) (omega (arith, length-drop size xs, two_parts size xs, short))

-- What a socket holds reaches the handler's Strings whole and in order, in pieces that fit the
-- buffer, and the events end with nothing left to read.
pub drain_lem :
    (size : ℕ) (message : Value) (fuel : ℕ) (pending : List ℕ) (p : Protocol)
    → 0 < size
    → length pending < fuel * size
    → (es : List Effect) × (drain size message fuel pending p ≡ some (es, []))
      × (joined (pieces es) ≡ pending)
      × All (λ b. length b ≤ size) (pieces es)
unfolding drain
drain_lem size message zero pending p pos h = absurd (omega arith)
drain_lem size message (suc fuel) [] p pos h =
    ([], rw (on_data-nothing size message p, drop-nil size) refl, refl, tt)
drain_lem size message (suc fuel) (b ∷ bs) p pos h =
    let front = take size (b ∷ bs) in
    let back = drop size (b ∷ bs) in
    let es = (on_data size message (some front) p).0 in
    let after = (on_data size message (some front) p).1 in
    let (made, forced) = on_data-pieces size message front p in
    let fits = length-take-le size (b ∷ bs) in
    let whole = take-append-drop size (b ∷ bs) in
    elim (Bool-cases (length front == size)) [
      | inl full ↦
          let long : length front ≡ size = (==_iff _ _).0 full in
          let (more, ended, rest, all) =
            drain_lem size message fuel back after pos
              (omega (arith, length-drop size (b ∷ bs), two_parts size (b ∷ bs), long)) in
          let made_all : pieces (es ++ more) ≡ front ∷ pieces more =
            pieces-append es more ∙ ap (λ q. q ++ pieces more) made in
          (
            es ++ more,
            rw (forced, full, ended) refl,
            ap joined made_all ∙ ap (◌++◌ front) rest ∙ whole,
            subst (All (λ c. length c ≤ size)) (sym made_all) (fits, all),
          )
      | inr short ↦
          let none_left = not_full-drop size (b ∷ bs) short in
          (
            es,
            rw (forced, short, none_left) refl,
            ap joined made ∙ ap (◌++◌ front) (sym none_left) ∙ whole,
            subst (All (λ c. length c ≤ size)) (sym made) (fits, tt),
          )
    ]
