-- ===== src/Json.antt =====
-- ext/iodine/iodine_json.c: the callbacks that build Ruby objects while facil.io's parser reads a
-- JSON text, and `Iodine::JSON.parse`. The parser is a parameter.
pub mod Tree
pub mod Places
pub mod Building
pub mod Converting
pub mod Cutting
mod Examples
use iodine.Base.{
  ℕ, zero, suc, ◌≡◌, Bool, true, false, ◌&&◌, ◌||◌, not, List, [], ◌∷◌, ◌++◌, Option, none, some,
  ◌==◌, if◌then◌else◌, length, get_elem?, bytes_eq,
}

-- A `VALUE`. Hashes and Arrays are filled while they are referred to: they are cells, referred to by
-- their number. All other objects are never changed, and stand for themselves. `no` is Qfalse, the
-- null word; numbers are the words that hold them.
pub data Value : Type 0 where
  nil yes no : Value
  integer float : ℕ → Value
  string symbol : List ℕ → Value
  container : ℕ → Value

pub data Cell : Type 0 where
  hash : List (Value × Value) → Cell
  array : List Value → Cell

-- Whether a Hash takes one key for the other.
abbrev pub same_key : Value → Value → Bool
same_key nil nil = true
same_key yes yes = true
same_key no no = true
same_key (integer m) (integer n) = m == n
same_key (float m) (float n) = m == n
same_key (string s) (string t) = bytes_eq s t
same_key (symbol s) (symbol t) = bytes_eq s t
same_key (container m) (container n) = m == n
same_key v w = false

abbrev pub is_null : Value → Bool
is_null no = true
is_null v = false

-- The calls of IodineStore.
pub data Call : Type 0 where
  add drop : Value → Call

-- iodine_json_parser_s, with the cells that were made; the top of the stack stands first.
pub record Parser : Type 0 where
  pub cells : List Cell
  pub key : Value
  pub top : Value
  pub target : Value
  pub stack : List Value
  pub is_hash : Bool
  pub symbolize : Bool

abbrev pub aset : List (Value × Value) → Value → Value → List (Value × Value)
aset [] k v = (k, v) ∷ []
aset ((j, w) ∷ es) k v = if same_key j k then (j, v) ∷ es else (j, w) ∷ aset es k v

-- rb_hash_aset and rb_ary_push, on the cell of a container
abbrev pub aset_cell : Value → Value → Cell → Cell
aset_cell k v (hash es) = hash (aset es k v)
aset_cell k v (array vs) = array vs

abbrev pub push_cell : Value → Cell → Cell
push_cell v (hash es) = hash es
push_cell v (array vs) = array (vs ++ v ∷ [])

abbrev pub alter : List Cell → ℕ → (Cell → Cell) → List Cell
alter [] n f = []
alter (c ∷ cells) zero f = f c ∷ cells
alter (c ∷ cells) (suc n) f = c ∷ alter cells n f

abbrev pub change : List Cell → Value → (Cell → Cell) → List Cell
change cells (container n) f = alter cells n f
change cells v f = cells

-- TYPE(v) == T_HASH
abbrev pub is_hash_cell : Option Cell → Bool
is_hash_cell (some (hash es)) = true
is_hash_cell c = false

abbrev pub is_hash_value : List Cell → Value → Bool
is_hash_value cells (container n) = is_hash_cell (get_elem? cells n)
is_hash_value cells v = false

-- iodine_json_add2parser, with its calls of the storage
unfoldable pub add2parser : Value → Parser → List Call × Parser
add2parser o p =
    if is_null p.top
    then (add o ∷ [], record p { top = o })
    else (if p.is_hash
        then (if is_null p.key then (add o ∷ [], record p { key = o }) else (
          drop p.key ∷ [],
          record p { cells = change p.cells p.top (aset_cell p.key o); key = no },
        ))
        else ([], record p { cells = change p.cells p.top (push_cell o) }))

-- What the parser announces.
pub data Event : Type 0 where
  on_null on_true on_false : Event
  on_number on_float : ℕ → Event
  on_string : List ℕ → Event
  on_start_object on_end_object on_start_array on_end_array : Event
  on_error : Event

-- fio_json_stack_get(stack, 0), and fio_json_stack_pop
abbrev pub bottom : List Value → Value
bottom [] = no
bottom (v ∷ []) = v
bottom (v ∷ w ∷ stack) = bottom (w ∷ stack)

abbrev pub popped : Parser → List Value → Parser
popped p [] = p
popped p (v ∷ stack) = record p { top = v; stack = stack }

abbrev pub pop : Parser → Parser
pop p = popped p p.stack

-- The Symbol or String of a text that was read.
abbrev pub text_value : Parser → List ℕ → Value
text_value p t = if p.symbolize && p.is_hash && is_null p.key then symbol t else string t

abbrev pub opened : Value → List Call × Parser → List Call × Parser
opened v (calls, p) = (calls, record p { stack = p.top ∷ p.stack; top = v })

unfoldable pub start_object : Parser → List Call × Parser
unfolding add2parser
start_object p =
    let h = container (length p.cells) in
    let (calls, q) = opened h (add2parser h (record p { cells = p.cells ++ hash [] ∷ [] })) in
    if is_null p.target
    then (calls, record q { is_hash = true })
    else ([], record p { stack = p.top ∷ p.stack; top = p.target; target = no; is_hash = true })

abbrev pub retyped : Parser → Parser
retyped p = record p { is_hash = is_hash_value p.cells p.top }

unfoldable pub end_object : Parser → List Call × Parser
end_object p =
    if is_null p.key
    then ([], retyped (pop p))
    else (drop p.key ∷ [], retyped (pop (record p { key = no })))

-- `none` is the answer -1, at which the parser stops.
unfoldable pub start_array : Parser → Option (List Call × Parser)
unfolding add2parser
start_array p =
    let a = container (length p.cells) in
    let (calls, q) = opened a (add2parser a (record p { cells = p.cells ++ array [] ∷ [] })) in
    if is_null p.target then some (calls, record q { is_hash = false }) else none

unfoldable pub end_array : Parser → List Call × Parser
end_array p = ([], retyped (pop p))

unfoldable pub error : Parser → List Call × Parser
error p = (
  drop (bottom p.stack) ∷ drop p.key ∷ [],
  record p { key = no; top = no; target = no; stack = []; is_hash = false; symbolize = false },
)

-- What facil.io's parser did with a text: what it announced, the bytes it took, and its depth.
pub record Outcome : Type 0 where
  pub events : List Event
  pub consumed : ℕ
  pub depth : ℕ

abbrev pub with_calls : List Call → List Call × Parser → List Call × Parser
with_calls calls (more, p) = (calls ++ more, p)

-- The callbacks in their order, until one stops the parser.
abbrev pub go_on :
    Parser → Option (List Call × Parser) → (Parser → List Call × Parser) → List Call × Parser
unfolding error
go_on p none k = error p
go_on p (some (calls, q)) k = with_calls calls (k q)

pub data Error : Type 0 where
  type_error malformed : Error

pub data Reply : Type 0 where
  parsed : List Cell → Value → Reply
  raised : Error → Reply

-- The settings that a Hash of options gives: only `symbolize_names` is read.
abbrev pub update_settings : Value → Bool → Bool
update_settings yes str2sym = true
update_settings no str2sym = false
update_settings v str2sym = str2sym

-- An argument of `parse`: a String, a Hash with its `symbolize_names`, or something else.
pub data Argument : Type 0 where
  text : List ℕ → Argument
  options : Value → Argument
  other : Argument

abbrev pub new_parser : Bool → Parser
new_parser symbolize = record {
  cells = [];
  key = no;
  top = no;
  target = no;
  stack = [];
  is_hash = false;
  symbolize = symbolize;
}

-- The last lines of `iodine_json_convert`.
abbrev pub answer : List Cell → Value → Reply
answer cells top = if is_null top then raised malformed else parsed cells top

abbrev pub top_calls : Value → List Call
top_calls top = if is_null top then [] else drop top ∷ []

abbrev pub key_calls : Value → List Call
key_calls key = if is_null key then [] else drop key ∷ []

abbrev pub finish : Outcome → List Call × Parser → List Call × Reply
finish out (calls, p) =
    if out.consumed == 0 || not (out.depth == 0)
    then (calls ++ drop (bottom p.stack) ∷ key_calls p.key, raised malformed)
    else (calls ++ key_calls p.key ++ top_calls p.top, answer p.cells p.top)

module _ (unescape : List ℕ → List ℕ) where
  unfoldable pub callback : Event → Parser → Option (List Call × Parser)
  unfolding add2parser start_object end_object start_array end_array error
  callback on_null p = some (add2parser nil p)
  callback on_true p = some (add2parser yes p)
  callback on_false p = some (add2parser no p)
  callback (on_number i) p = some (add2parser (integer i) p)
  callback (on_float f) p = some (add2parser (float f) p)
  callback (on_string t) p = some (add2parser (text_value p (unescape t)) p)
  callback on_start_object p = some (start_object p)
  callback on_end_object p = some (end_object p)
  callback on_start_array p = start_array p
  callback on_end_array p = some (end_array p)
  callback on_error p = some (error p)

  unfoldable pub run : List Event → Parser → List Call × Parser
  unfolding callback
  run [] p = ([], p)
  run (e ∷ es) p = go_on p (callback e p) (λ q. run es q)

  module _ (parser : List ℕ → Outcome) where
    -- iodine_json_convert
    unfoldable pub convert : List ℕ → Bool → List Call × Reply
    unfolding run
    convert str symbolize = finish (parser str) (run (parser str).events (new_parser symbolize))

    -- iodine_json_parse, which is also the text of iodine_json_parse_bang
    unfoldable pub parse : List Argument → List Call × Reply
    unfolding convert
    parse (text str ∷ []) = convert str false
    parse (text str ∷ options symbolize_names ∷ []) =
        convert str (update_settings symbolize_names false)
    parse arguments = ([], raised type_error)
