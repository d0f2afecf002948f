-- ===== src/Json/Tree.antt =====
-- A JSON document, what a parser announces of it, and the Ruby objects that it stands for.
use iodine.Base.{ℕ, suc, ◌+◌, Bool, List, [], ◌∷◌, ◌++◌, if◌then◌else◌, length}
use iodine.Json.{
  Value, nil, yes, no, integer, float, string, symbol, container, Cell, hash, array, Call, add,
  drop, Event, on_null, on_true, on_false, on_number, on_float, on_string, on_start_object,
  on_end_object, on_start_array, on_end_array, aset,
}

mutual
  pub data Json : Type 0 where
    null true_ false_ : Json
    number real : ℕ → Json
    text : List ℕ → Json
    list : Items → Json
    object_ : Members → Json

  pub data Items : Type 0 where
    nothing : Items
    item : Json → Items → Items

  pub data Members : Type 0 where
    bare : Members
    member : List ℕ → Json → Members → Members

unfoldable mutual
  pub events : Json → List Event
  events null = on_null ∷ []
  events true_ = on_true ∷ []
  events false_ = on_false ∷ []
  events (number i) = on_number i ∷ []
  events (real f) = on_float f ∷ []
  events (text t) = on_string t ∷ []
  events (list items) = on_start_array ∷ events_of_items items ++ on_end_array ∷ []
  events (object_ members) = on_start_object ∷ events_of_members members ++ on_end_object ∷ []

  pub events_of_items : Items → List Event
  events_of_items nothing = []
  events_of_items (item t items) = events t ++ events_of_items items

  pub events_of_members : Members → List Event
  events_of_members bare = []
  events_of_members (member k t members) = on_string k ∷ events t ++ events_of_members members

-- The objects of a document, when `n` cells were made before it: each container is one cell, before
-- those of what it holds.
module _ (unescape : List ℕ → List ℕ) (symbolize : Bool) where
  abbrev pub key_of : List ℕ → Value
  key_of t = if symbolize then symbol (unescape t) else string (unescape t)

  abbrev pub value_of : Json → ℕ → Value
  value_of null n = nil
  value_of true_ n = yes
  value_of false_ n = no
  value_of (number i) n = integer i
  value_of (real f) n = float f
  value_of (text t) n = string (unescape t)
  value_of (list items) n = container n
  value_of (object_ members) n = container n

  unfoldable mutual
    pub cells_of : Json → ℕ → List Cell
    cells_of null n = []
    cells_of true_ n = []
    cells_of false_ n = []
    cells_of (number i) n = []
    cells_of (real f) n = []
    cells_of (text t) n = []
    cells_of (list items) n = array (values_of items (suc n)) ∷ cells_of_items items (suc n)
    cells_of (object_ members) n =
        hash (entries_of members (suc n) []) ∷ cells_of_members members (suc n)

    pub cells_of_items : Items → ℕ → List Cell
    cells_of_items nothing n = []
    cells_of_items (item t items) n =
        cells_of t n ++ cells_of_items items (n + length (cells_of t n))

    pub values_of : Items → ℕ → List Value
    values_of nothing n = []
    values_of (item t items) n = value_of t n ∷ values_of items (n + length (cells_of t n))

    pub cells_of_members : Members → ℕ → List Cell
    cells_of_members bare n = []
    cells_of_members (member k t members) n =
        cells_of t n ++ cells_of_members members (n + length (cells_of t n))

    pub entries_of : Members → ℕ → List (Value × Value) → List (Value × Value)
    entries_of bare n es = es
    entries_of (member k t members) n es =
        entries_of members (n + length (cells_of t n)) (aset es (key_of k) (value_of t n))

  -- Each key is held until its value comes, and for no longer.
  unfoldable mutual
    pub calls_of : Json → List Call
    calls_of (list items) = calls_of_items items
    calls_of (object_ members) = calls_of_members members
    calls_of t = []

    pub calls_of_items : Items → List Call
    calls_of_items nothing = []
    calls_of_items (item t items) = calls_of t ++ calls_of_items items

    pub calls_of_members : Members → List Call
    calls_of_members bare = []
    calls_of_members (member k t members) =
        add (key_of k) ∷ drop (key_of k) ∷ calls_of t ++ calls_of_members members
