-- ===== src/Json/Cutting.antt =====
-- Documents that end too early, in `iodine_json_convert` (ext/iodine/iodine_json.c).
use iodine.Base.{
  arith, ℕ, suc, ◌+◌, ◌≡◌, refl, ap, ◌∙◌, Bool, true, List, [], ◌∷◌, ◌++◌, append_assoc, some,
  if◌then◌else◌, length, length-append, ltb, ◌==◌, ◌||◌, not,
}
use iodine.Json.{
  Value, no, container, Cell, Call, add, drop, Event, on_start_array, on_start_object, on_string,
  is_null, bottom, key_calls, Outcome, Parser, new_parser, with_calls, finish, convert, run,
  callback, malformed, raised,
}
use iodine.Json.Tree.{
  Items, Members, events_of_items, events_of_members, key_of, values_of, entries_of, cells_of_items,
  cells_of_members, calls_of_items, calls_of_members,
}
use iodine.Json.Places.{
  Place, array_at, hash_at, cell_at, put, put_calls, IsReady, in_place, started_array,
  started_object,
}
use iodine.Json.Building.{run_items, run_members, run_step, keyed, ready_key}
use iodine.Json.Converting.{IsPaired, IsPaired-append, items-IsPaired, members-IsPaired}

-- A document without its end: the containers that are open, with what they hold until there. A Hash
-- can end behind a key.
pub data Cut : Type 0 where
  array_cut : Items → Cut
  array_in : Items → Cut → Cut
  hash_cut : Members → Cut
  hash_key : Members → List ℕ → Cut
  hash_in : Members → List ℕ → Cut → Cut

-- Its first callback, and the others.
abbrev pub first : Cut → Event
first (array_cut items) = on_start_array
first (array_in items c) = on_start_array
first (hash_cut members) = on_start_object
first (hash_key members k) = on_start_object
first (hash_in members k c) = on_start_object

unfoldable pub events_inside : Cut → List Event
events_inside (array_cut items) = events_of_items items ++ []
events_inside (array_in items c) = events_of_items items ++ first c ∷ events_inside c
events_inside (hash_cut members) = events_of_members members ++ []
events_inside (hash_key members k) = events_of_members members ++ on_string k ∷ []
events_inside (hash_in members k c) =
    events_of_members members ++ on_string k ∷ first c ∷ events_inside c

abbrev pub empty_place : Cut → Place
empty_place (array_cut items) = array_at []
empty_place (array_in items c) = array_at []
empty_place (hash_cut members) = hash_at [] no
empty_place (hash_key members k) = hash_at [] no
empty_place (hash_in members k c) = hash_at [] no

-- The call for a key that still waits for its value.
abbrev pub key_adds : Value → List Call
key_adds key = if is_null key then [] else add key ∷ []

module _ (unescape : List ℕ → List ℕ) (symbolize : Bool) where
  started :
      (c : Cut) (n : ℕ) (base : List Cell) (place : Place) (rest : List Cell) (stack : List Value)
      → IsReady place
      → n ≡ length base + suc (length rest)
      → callback unescape (first c) (in_place symbolize base place rest stack)
        ≡ some (
          put_calls place,
          in_place symbolize
              (base ++ cell_at (put place (container n)) ∷ rest)
              (empty_place c)
              []
              (container (length base) ∷ stack),
        )
  unfolding callback
  started (array_cut items) n base place rest stack ready at =
      started_array symbolize n base place rest stack ready at
  started (array_in items c) n base place rest stack ready at =
      started_array symbolize n base place rest stack ready at
  started (hash_cut members) n base place rest stack ready at =
      ap some (started_object symbolize n base place rest stack ready at)
  started (hash_key members k) n base place rest stack ready at =
      ap some (started_object symbolize n base place rest stack ready at)
  started (hash_in members k c) n base place rest stack ready at =
      ap some (started_object symbolize n base place rest stack ready at)

  -- Where the callbacks behind the first one lead: the bottom of the stack stays.
  Leads : Cut → List Cell → Value → List Value → Type 0
  Leads c base s stack =
      (keys : List Call) × (q : Parser) × (run unescape (events_inside c)
          (in_place symbolize base (empty_place c) [] (s ∷ stack))
        ≡ (keys ++ key_adds q.key, q))
      × (bottom q.stack ≡ bottom (s ∷ stack))
      × IsPaired keys

  -- A document that is cut inside the value which is put to this place.
  run_cut :
      (c : Cut) (n : ℕ) (base : List Cell) (place : Place) (rest : List Cell) (s : Value)
      (stack : List Value)
      → IsReady place
      → n ≡ length base + suc (length rest)
      → Leads c
          (base ++ cell_at (put place (container n)) ∷ rest)
          (container (length base))
          (s ∷ stack)
      → (keys : List Call) × (q : Parser) × (run unescape
            (first c ∷ events_inside c)
            (in_place symbolize base place rest (s ∷ stack))
          ≡ (put_calls place ++ (keys ++ key_adds q.key), q))
        × (bottom q.stack ≡ bottom (s ∷ stack))
        × IsPaired keys
  unfolding Leads
  run_cut c n base place rest s stack ready at (keys, q, done, low, paired) = (
    keys,
    q,
    run_step unescape symbolize (first c) (events_inside c)
          (in_place symbolize base place rest (s ∷ stack)) _ (put_calls place)
          (started c n base place rest (s ∷ stack) ready at)
        ∙ ap (with_calls (put_calls place)) done,
    low,
    paired,
  )

  run_inside :
      (c : Cut) (n : ℕ) (base : List Cell) (s : Value) (stack : List Value)
      → n ≡ length base + 1
      → Leads c base s stack
  unfolding Leads events_inside run
  run_inside (array_cut items) n base s stack at = (
    calls_of_items unescape symbolize items,
    in_place symbolize base (array_at (values_of unescape symbolize items n))
        (cells_of_items unescape symbolize items n) (s ∷ stack),
    run_items unescape symbolize items n [] base [] [] (s ∷ stack) at,
    refl,
    items-IsPaired unescape symbolize items,
  )
  run_inside (array_in items c) n base s stack at =
      let cells = cells_of_items unescape symbolize items n in
      let place = array_at (values_of unescape symbolize items n) in
      let k = n + length cells in
      let below = base ++ cell_at (put place (container k)) ∷ cells in
      let within : k ≡ length base + suc (length cells) = omega (arith, at) in
      let deeper : suc k ≡ length below + 1 =
        omega (arith, within, length-append base (cell_at (put place (container k)) ∷ cells)) in
      let (keys, q, done, low, paired) =
        run_cut c k base place cells s stack tt within
          (run_inside c (suc k) below (container (length base)) (s ∷ stack) deeper) in
      let before = calls_of_items unescape symbolize items in
      (
        before ++ keys,
        q,
        run_items unescape symbolize items n (first c ∷ events_inside c) base [] [] (s ∷ stack) at
            ∙ ap (with_calls before) done
            ∙ rw (append_assoc before keys (key_adds q.key)) refl,
        low,
        IsPaired-append before keys (items-IsPaired unescape symbolize items) paired,
      )
  run_inside (hash_cut members) n base s stack at = (
    calls_of_members unescape symbolize members,
    in_place symbolize base (hash_at (entries_of unescape symbolize members n []) no)
        (cells_of_members unescape symbolize members n) (s ∷ stack),
    run_members unescape symbolize members n [] base [] [] (s ∷ stack) at,
    refl,
    members-IsPaired unescape symbolize members,
  )
  run_inside (hash_key members k) n base s stack at =
      let before = calls_of_members unescape symbolize members in
      let key = key_of unescape symbolize k in
      let entries = entries_of unescape symbolize members n [] in
      let cells = cells_of_members unescape symbolize members n in
      (
        before,
        in_place symbolize base (hash_at entries key) cells (s ∷ stack),
        run_members unescape symbolize members n (on_string k ∷ []) base [] [] (s ∷ stack) at
            ∙ ap (with_calls before) (
                run_step unescape symbolize (on_string k) []
                  (in_place symbolize base (hash_at entries no) cells (s ∷ stack))
                  (in_place symbolize base (hash_at entries key) cells (s ∷ stack)) (add key ∷ [])
                  (keyed unescape symbolize k base entries cells (s ∷ stack)))
            ∙ rw (ready_key unescape symbolize k) refl,
        refl,
        members-IsPaired unescape symbolize members,
      )
  run_inside (hash_in members k c) n base s stack at =
      let cells = cells_of_members unescape symbolize members n in
      let key = key_of unescape symbolize k in
      let entries = entries_of unescape symbolize members n [] in
      let place = hash_at entries key in
      let m = n + length cells in
      let below = base ++ cell_at (put place (container m)) ∷ cells in
      let within : m ≡ length base + suc (length cells) = omega (arith, at) in
      let deeper : suc m ≡ length below + 1 =
        omega (arith, within, length-append base (cell_at (put place (container m)) ∷ cells)) in
      let (keys, q, done, low, paired) =
        run_cut c m base place cells s stack (ready_key unescape symbolize k) within
          (run_inside c (suc m) below (container (length base)) (s ∷ stack) deeper) in
      let before = calls_of_members unescape symbolize members in
      let filed : List Call = add key ∷ drop key ∷ keys in
      (
        before ++ filed,
        q,
        run_members unescape symbolize members n (on_string k ∷ first c ∷ events_inside c) base []
              [] (s ∷ stack) at
            ∙ ap (with_calls before) (
                run_step unescape symbolize (on_string k) (first c ∷ events_inside c)
                  (in_place symbolize base (hash_at entries no) cells (s ∷ stack))
                  (in_place symbolize base place cells (s ∷ stack)) (add key ∷ [])
                  (keyed unescape symbolize k base entries cells (s ∷ stack))
                ∙ ap (with_calls (add key ∷ [])) done)
            ∙ rw (append_assoc before filed (key_adds q.key)) refl,
        low,
        IsPaired-append before filed (members-IsPaired unescape symbolize members) (refl, paired),
      )

  started_top :
      (c : Cut)
      → callback unescape (first c) (new_parser symbolize)
        ≡ some (add (container 0) ∷ [], in_place symbolize [] (empty_place c) [] (container 0 ∷ []))
  unfolding callback
  started_top (array_cut items) = refl
  started_top (array_in items c) = refl
  started_top (hash_cut members) = refl
  started_top (hash_key members k) = refl
  started_top (hash_in members k c) = refl

  finish-open :
      (out : Outcome) (calls : List Call) (q : Parser)
      → ltb 0 out.depth ≡ true
      → finish out (calls, q) ≡ (calls ++ drop (bottom q.stack) ∷ key_calls q.key, raised malformed)
  finish-open out calls q open_ =
      let is_cut : (out.consumed == 0 || not (out.depth == 0)) ≡ true = ground (arith, open_) in
      rw is_cut refl

  -- A text that ends inside of a document is refused as malformed, and the storage is left as it was:
  -- the outermost container, and the key that still waits for its value if there is one, are
  -- removed, and every other key was removed before.
  pub convert-cut :
      (parser : List ℕ → Outcome) (str : List ℕ) (c : Cut)
      → (parser str).events ≡ first c ∷ events_inside c
      → ltb 0 (parser str).depth ≡ true
      → (keys : List Call) × (key : Value) × (convert unescape parser str symbolize ≡ (
        add (container 0) ∷ (keys ++ (key_adds key ++ drop (container 0) ∷ key_calls key)),
        raised malformed,
      ))
        × IsPaired keys
  unfolding convert Leads
  convert-cut parser str c announced open_ =
      let (keys, q, done, low, paired) = run_inside c 1 [] (container 0) [] refl in
      (
        keys,
        q.key,
        ap (λ es. finish (parser str) (run unescape es (new_parser symbolize))) announced
            ∙ ap (finish (parser str)) (
                run_step unescape symbolize (first c) (events_inside c) (new_parser symbolize) _ _
                  (started_top c)
                ∙ ap (with_calls (add (container 0) ∷ [])) done)
            ∙ finish-open (parser str) (add (container 0) ∷ (keys ++ key_adds q.key)) q open_
            ∙ rw (low, append_assoc keys (key_adds q.key) (drop (container 0) ∷ key_calls q.key))
                refl,
        paired,
      )
