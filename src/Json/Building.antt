-- ===== src/Json/Building.antt =====
-- The parser of ext/iodine/iodine_json.c in the middle of a document: what one value does to the
-- container that is being filled.
use iodine.Base.{
  arith, ℕ, suc, ◌+◌, ◌≡◌, refl, ap, ◌∙◌, Bool, false, List, [], ◌∷◌, ◌++◌, append_assoc,
  append-nil, some, inl, inr, Bool-cases, length, length-append,
}
use iodine.Json.{
  Value, nil, yes, no, integer, float, string, container, Cell, Call, add, drop, Event, on_null,
  on_true, on_false, on_number, on_float, on_string, on_start_object, on_end_object, on_start_array,
  on_end_array, aset, is_null, Parser, add2parser, run, callback, with_calls, go_on, end_object,
  end_array, text_value,
}
use iodine.Json.Tree.{
  Json, null, true_, false_, number, real, text, list, object_, Items, nothing, item, Members, bare,
  member, events, events_of_items, events_of_members, key_of, value_of, cells_of, cells_of_items,
  values_of, cells_of_members, entries_of, calls_of, calls_of_items, calls_of_members,
}
use iodine.Json.Places.{
  add2parser-put, Place, array_at, hash_at, cell_at, put, put_calls, IsReady, with_calls-append,
  in_place, started_array, started_object, ended,
}

module _ (unescape : List ℕ → List ℕ) (symbolize : Bool) where
  text_value-ready :
      (t : List ℕ) (base : List Cell) (place : Place) (rest : List Cell) (stack : List Value)
      → IsReady place
      → text_value (in_place symbolize base place rest stack) t ≡ string t
  text_value-ready t base (array_at vs) rest stack ready = elim (Bool-cases symbolize) [
    | inl on ↦ rw on refl
    | inr off ↦ rw off refl
  ]
  text_value-ready t base (hash_at es k) rest stack ready = elim (Bool-cases symbolize) [
    | inl on ↦ rw (on, ready) refl
    | inr off ↦ rw off refl
  ]

  pub keyed :
      (k : List ℕ) (base : List Cell) (ms : List (Value × Value)) (rest : List Cell)
      (stack : List Value)
      → callback unescape (on_string k) (in_place symbolize base (hash_at ms no) rest stack)
        ≡ some (
          add (key_of unescape symbolize k) ∷ [],
          in_place symbolize base (hash_at ms (key_of unescape symbolize k)) rest stack,
        )
  unfolding callback
  keyed k base ms rest stack = elim (Bool-cases symbolize) [
    | inl on ↦ rw on refl
    | inr off ↦ rw off refl
  ]

  pub ready_key : (k : List ℕ) → is_null (key_of unescape symbolize k) ≡ false
  ready_key k = elim (Bool-cases symbolize) [ inl on ↦ rw on refl | inr off ↦ rw off refl ]

  pub run_step :
      (e : Event) (es : List Event) (p q : Parser) (calls : List Call)
      → callback unescape e p ≡ some (calls, q)
      → run unescape (e ∷ es) p ≡ with_calls calls (run unescape es q)
  unfolding run
  run_step e es p q calls h = ap (λ r. go_on p r (λ q. run unescape es q)) h

  run_scalar :
      (e : Event) (o : Value) (es : List Event) (base : List Cell) (place : Place)
      (rest : List Cell) (stack : List Value)
      → IsReady place
      → callback unescape e (in_place symbolize base place rest stack)
        ≡ some (add2parser o (in_place symbolize base place rest stack))
      → run unescape (e ∷ es) (in_place symbolize base place rest stack)
        ≡ with_calls
            (put_calls place ++ [])
            (run unescape es (in_place symbolize base (put place o) (rest ++ []) stack))
  run_scalar e o es base place rest stack ready called =
      rw (append-nil rest, append-nil (put_calls place))
        (run_step e es (in_place symbolize base place rest stack)
          (in_place symbolize base (put place o) rest stack) (put_calls place)
          (called ∙ ap some (add2parser-put symbolize o base place rest stack ready)))

  -- The callbacks of a value, of the items of an Array, and of the members of a Hash.
  mutual
    unfolding callback end_array end_object events cells_of calls_of

    run_value :
        (t : Json) (n : ℕ) (es : List Event) (base : List Cell) (place : Place) (rest : List Cell)
        (stack : List Value)
        → IsReady place
        → n ≡ length base + suc (length rest)
        → run unescape (events t ++ es) (in_place symbolize base place rest stack)
          ≡ with_calls (put_calls place ++ calls_of unescape symbolize t) (
              run unescape es (
                in_place symbolize base
                  (put place (value_of unescape symbolize t n))
                  (rest ++ cells_of unescape symbolize t n)
                  stack))
    run_value null n es base place rest stack ready at =
        run_scalar on_null nil es base place rest stack ready refl
    run_value true_ n es base place rest stack ready at =
        run_scalar on_true yes es base place rest stack ready refl
    run_value false_ n es base place rest stack ready at =
        run_scalar on_false no es base place rest stack ready refl
    run_value (number i) n es base place rest stack ready at =
        run_scalar (on_number i) (integer i) es base place rest stack ready refl
    run_value (real f) n es base place rest stack ready at =
        run_scalar (on_float f) (float f) es base place rest stack ready refl
    run_value (text t) n es base place rest stack ready at =
        run_scalar (on_string t) (string (unescape t)) es base place rest stack ready (
          ap (λ v. some (add2parser v (in_place symbolize base place rest stack)))
            (text_value-ready (unescape t) base place rest stack ready))
    run_value (list items) n es base place rest stack ready at =
        let base' = base ++ cell_at (put place (container n)) ∷ rest in
        let outer = container (length base) ∷ stack in
        let within : suc n ≡ length base' + suc (length {A = Cell} []) =
          omega (arith, length-append base (cell_at (put place (container n)) ∷ rest)) in
        rw
          (
            append_assoc (events_of_items items) (on_end_array ∷ []) es,
            run_step on_start_array (events_of_items items ++ on_end_array ∷ es)
                (in_place symbolize base place rest stack)
                (in_place symbolize base' (array_at []) [] outer) (put_calls place)
                (started_array symbolize n base place rest stack ready at),
            run_items items (suc n) (on_end_array ∷ es) base' [] [] outer within,
            run_step on_end_array es
                (in_place symbolize base' (array_at (values_of unescape symbolize items (suc n)))
                  (cells_of_items unescape symbolize items (suc n)) outer)
                (in_place symbolize base (put place (container n))
                  (rest
                    ++ cell_at (array_at (values_of unescape symbolize items (suc n)))
                      ∷ cells_of_items unescape symbolize items (suc n))
                  stack)
                []
                (ap (λ p. some ([], p))
                  (ended symbolize (container n) base place rest stack
                    (array_at (values_of unescape symbolize items (suc n)))
                    (cells_of_items unescape symbolize items (suc n)) refl)),
            with_calls-append (put_calls place) (calls_of_items unescape symbolize items) _,
          )
          refl
    run_value (object_ members) n es base place rest stack ready at =
        let base' = base ++ cell_at (put place (container n)) ∷ rest in
        let outer = container (length base) ∷ stack in
        let within : suc n ≡ length base' + suc (length {A = Cell} []) =
          omega (arith, length-append base (cell_at (put place (container n)) ∷ rest)) in
        rw
          (
            append_assoc (events_of_members members) (on_end_object ∷ []) es,
            run_step on_start_object (events_of_members members ++ on_end_object ∷ es)
                (in_place symbolize base place rest stack)
                (in_place symbolize base' (hash_at [] no) [] outer) (put_calls place)
                (ap some (started_object symbolize n base place rest stack ready at)),
            run_members members (suc n) (on_end_object ∷ es) base' [] [] outer within,
            run_step on_end_object es
                (in_place symbolize base'
                  (hash_at (entries_of unescape symbolize members (suc n) []) no)
                  (cells_of_members unescape symbolize members (suc n)) outer)
                (in_place symbolize base (put place (container n))
                  (rest
                    ++ cell_at (hash_at (entries_of unescape symbolize members (suc n) []) no)
                      ∷ cells_of_members unescape symbolize members (suc n))
                  stack)
                []
                (ap (λ p. some ([], p))
                  (ended symbolize (container n) base place rest stack
                    (hash_at (entries_of unescape symbolize members (suc n) []) no)
                    (cells_of_members unescape symbolize members (suc n)) refl)),
            with_calls-append (put_calls place) (calls_of_members unescape symbolize members) _,
          )
          refl

    pub run_items :
        (items : Items) (n : ℕ) (es : List Event) (base : List Cell) (vs : List Value)
        (rest : List Cell) (stack : List Value)
        → n ≡ length base + suc (length rest)
        → run unescape
            (events_of_items items ++ es)
            (in_place symbolize base (array_at vs) rest stack)
          ≡ with_calls (calls_of_items unescape symbolize items) (
              run unescape es (
                in_place symbolize base
                  (array_at (vs ++ values_of unescape symbolize items n))
                  (rest ++ cells_of_items unescape symbolize items n)
                  stack))
    run_items nothing n es base vs rest stack at = rw (append-nil vs, append-nil rest) refl
    run_items (item t items) n es base vs rest stack at =
        let k = n + length (cells_of unescape symbolize t n) in
        let within : k ≡ length base + suc (length (rest ++ cells_of unescape symbolize t n)) =
          omega (arith, at, length-append rest (cells_of unescape symbolize t n)) in
        rw
          (
            append_assoc (events t) (events_of_items items) es,
            run_value t n (events_of_items items ++ es) base (array_at vs) rest stack tt at,
            run_items items k es base (vs ++ value_of unescape symbolize t n ∷ [])
                (rest ++ cells_of unescape symbolize t n) stack within,
            with_calls-append (calls_of unescape symbolize t)
                (calls_of_items unescape symbolize items) _,
            append_assoc vs (value_of unescape symbolize t n ∷ [])
                (values_of unescape symbolize items k),
            append_assoc rest (cells_of unescape symbolize t n)
                (cells_of_items unescape symbolize items k),
          )
          refl

    pub run_members :
        (members : Members) (n : ℕ) (es : List Event) (base : List Cell) (ms : List (Value × Value))
        (rest : List Cell) (stack : List Value)
        → n ≡ length base + suc (length rest)
        → run unescape
            (events_of_members members ++ es)
            (in_place symbolize base (hash_at ms no) rest stack)
          ≡ with_calls (calls_of_members unescape symbolize members) (
              run unescape es (
                in_place symbolize base
                  (hash_at (entries_of unescape symbolize members n ms) no)
                  (rest ++ cells_of_members unescape symbolize members n)
                  stack))
    run_members bare n es base ms rest stack at = rw (append-nil rest) refl
    run_members (member k t members) n es base ms rest stack at =
        let key = key_of unescape symbolize k in
        let value = value_of unescape symbolize t n in
        let cells = cells_of unescape symbolize t n in
        let next = n + length cells in
        let within : next ≡ length base + suc (length (rest ++ cells)) =
          omega (arith, at, length-append rest cells) in
        let more = calls_of_members unescape symbolize members in
        let left = run unescape es (
          in_place symbolize base
            (hash_at (entries_of unescape symbolize members next (aset ms key value)) no)
            (rest ++ (cells ++ cells_of_members unescape symbolize members next)) stack) in
        let filed : run unescape ((events t ++ events_of_members members) ++ es)
              (in_place symbolize base (hash_at ms key) rest stack)
            ≡ with_calls ((drop key ∷ calls_of unescape symbolize t) ++ more) left =
          rw
            (
              append_assoc (events t) (events_of_members members) es,
              run_value t n (events_of_members members ++ es) base (hash_at ms key) rest stack
                  (ready_key k) at,
              run_members members next es base (aset ms key value) (rest ++ cells) stack within,
              with_calls-append (drop key ∷ calls_of unescape symbolize t) more _,
              append_assoc rest cells (cells_of_members unescape symbolize members next),
            )
            refl in
        run_step (on_string k) ((events t ++ events_of_members members) ++ es)
          (in_place symbolize base (hash_at ms no) rest stack)
          (in_place symbolize base (hash_at ms key) rest stack) (add key ∷ [])
          (keyed k base ms rest stack)
        ∙ ap (with_calls (add key ∷ [])) filed
