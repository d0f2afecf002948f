-- ===== src/Http/Headers/Leaves.antt =====
-- A header value of nested Arrays (`array_style_multi_value` in ext/iodine/iodine_http.c).
use iodine.Base.{false, ◌≡◌, refl, sym, List, [], ◌∷◌, ◌++◌}
use iodine.Http.Headers.{
  Header, nil_header, text, array, object, Headers, none_left, item, Key, is_nil_key, continue,
  stop, Calls, Flow, for_each_header_data, for_each_item, go_on,
}

-- The values in an Array, however deep they stand.
mutual
  pub leaves : Header → List Header
  leaves (array vals) = item_leaves vals
  leaves nil_header = nil_header ∷ []
  leaves (text v) = text v ∷ []
  leaves (object v) = object v ∷ []

  pub item_leaves : Headers → List Header
  item_leaves none_left = []
  item_leaves (item val vals) = leaves val ++ item_leaves vals

pub in_turn : Key → List Header → Calls → Calls × Flow
in_turn key [] out = (out, continue)
in_turn key (val ∷ vals) out =
    let r = for_each_header_data key val out in let rest = in_turn key vals r.0 in go_on r rest

in_turn-append :
    (key : Key) (xs ys : List Header) (out : Calls)
    → in_turn key (xs ++ ys) out
      ≡ go_on (in_turn key xs out) (in_turn key ys (in_turn key xs out).0)
unfolding in_turn
in_turn-append key [] ys out = refl
in_turn-append key (x ∷ xs) ys out =
    joined (for_each_header_data key x out) (λ o. in_turn-append key xs ys o)
  where
    joined :
        (r : Calls × Flow)
        → ((o : Calls)
            → in_turn key (xs ++ ys) o
              ≡ go_on (in_turn key xs o) (in_turn key ys (in_turn key xs o).0))
        → go_on r (in_turn key (xs ++ ys) r.0)
          ≡ go_on (go_on r (in_turn key xs r.0)) (in_turn key ys (go_on r (in_turn key xs r.0)).0)
    joined (o, continue) ih = ih o
    joined (o, stop) ih = refl

alone : (r : Calls × Flow) → r ≡ go_on r (r.0, continue)
alone (o, continue) = refl
alone (o, stop) = refl

mutual
  unfolding for_each_header_data leaves in_turn

  flat :
      (key : Key) (val : Header) (out : Calls)
      → is_nil_key key ≡ false
      → for_each_header_data key val out ≡ in_turn key (leaves val) out
  flat key (array vals) out named = rw named (flat_items key vals out named)
  flat key nil_header out named = alone (for_each_header_data key nil_header out)
  flat key (text v) out named = alone (for_each_header_data key (text v) out)
  flat key (object v) out named = alone (for_each_header_data key (object v) out)

  flat_items :
      (key : Key) (vals : Headers) (out : Calls)
      → is_nil_key key ≡ false
      → for_each_item key vals out ≡ in_turn key (item_leaves vals) out
  flat_items key none_left out named = refl
  flat_items key (item val vals) out named =
      rw (flat key val out named, flat_items key vals _ named)
        (sym (in_turn-append key (leaves val) (item_leaves vals) out))

-- Nested Arrays are as good as one flat Array of what stands in them: their values are set in
-- order, under the same name, until one of them stops the walk.
pub for_each_header_data-leaves :
    (key : Key) (val : Header) (out : Calls)
    → is_nil_key key ≡ false
    → for_each_header_data key val out ≡ in_turn key (leaves val) out
for_each_header_data-leaves key val out named = flat key val out named
