-- ===== src/Pubsub/Arguments.antt =====
-- `iodine_subscribe_args` and `iodine_pubsub_publish` of ext/iodine/iodine_connection.c: how the
-- Ruby arguments are read.
use iodine.Base.{ℕ, Bool, true, false, List, [], ◌∷◌, Option, none, some, if◌then◌else◌, bytes_eq}

-- The words that the methods look up in an options Hash.
pub data Word : Type 0 where
  to_word channel_word as_word match_word handler_word engine_word message_word : Word

-- A key of a Hash: a Symbol, or the bare ID of one, which is no Ruby object.
pub data Key : Type 0 where
  symbol_key : Word → Key
  bare_id : Word → Key

-- A Ruby argument, as far as the methods tell them apart. A Hash answers nil for a missing key.
pub data Argument : Type 0 where
  nil_arg false_arg : Argument
  string : List ℕ → Argument
  symbol : List ℕ → Argument
  hash : (Key → Argument) → Argument
  other : ℕ → Argument

pub data Error : Type 0 where
  wrong_count target_required message_required not_a_string not_a_hash block_required : Error

pub data Result {ℓ} (A : Type ℓ) : Type ℓ where
  ok : A → Result A
  raised : Error → Result A

infixl 5 ◌>>=◌
abbrev pub ◌>>=◌ {ℓ κ} : {A : Type ℓ} {B : Type κ} → Result A → (A → Result B) → Result B
ok a >>= f = f a
raised e >>= f = raised e

abbrev pub is_falsy : Argument → Bool
is_falsy nil_arg = true
is_falsy false_arg = true
is_falsy arg = false

-- A Symbol is turned into its String; `Check_Type(…, T_STRING)` refuses all else.
abbrev pub text_of : Argument → Result (List ℕ)
text_of (string s) = ok s
text_of (symbol s) = ok s
text_of arg = raised not_a_string

-- The Symbols :binary and :redis.
abbrev pub binary_name : List ℕ
binary_name = b'b' ∷ b'i' ∷ b'n' ∷ b'a' ∷ b'r' ∷ b'y' ∷ []

abbrev pub redis_name : List ℕ
redis_name = b'r' ∷ b'e' ∷ b'd' ∷ b'i' ∷ b's' ∷ []

abbrev pub is_symbol : List ℕ → Argument → Bool
is_symbol name (symbol s) = bytes_eq s name
is_symbol name arg = false

-- iodine_sub_args_s
pub record SubArgs : Type 0 where
  pub channel_org : Argument
  pub channel : List ℕ
  pub block : Argument
  pub glob : Bool
  pub binary : Bool

-- The `switch (argc)`: the channel, and the options if there are any.
pub data Given : Type 0 where
  one : Argument → Given
  two : Argument → (Key → Argument) → Given
  other_count : Given

-- `:to`, or `:channel` as it was called before.
abbrev pub target : (Key → Argument) → Argument
target opts =
    let first = opts (symbol_key to_word) in
    if is_falsy first then opts (symbol_key channel_word) else first

pick_channel : Given → Result (Argument × Option (Key → Argument))
pick_channel (two arg opts) = ok (arg, some opts)
pick_channel (one (hash opts)) = ok (target opts, some opts)
pick_channel (one arg) = ok (arg, none)
pick_channel other_count = raised wrong_count

abbrev pub no_options : Key → Argument
no_options key = nil_arg

abbrev pub options_or_none : Option (Key → Argument) → Key → Argument
options_or_none none = no_options
options_or_none (some opts) = opts

-- The block of the call stands in where no handler was given.
abbrev pub block_or : Argument → Argument → Argument
block_or nil_arg block = block
block_or handler block = handler

unfoldable pub subscribe_args : Given → Argument → Result SubArgs
unfolding pick_channel
subscribe_args given block = do
  picked ← pick_channel given
  name ← if is_falsy picked.0 then raised target_required else text_of picked.0
  ok (record {
    channel_org = picked.0;
    channel = name;
    block = block_or (options_or_none picked.1 (symbol_key handler_word)) block;
    glob = is_symbol redis_name (options_or_none picked.1 (symbol_key match_word));
    binary = is_symbol binary_name (options_or_none picked.1 (symbol_key as_word));
  })

-- `!args.block`, on a VALUE: only Qfalse is the null word, and nil is another.
abbrev pub is_null : Argument → Bool
is_null false_arg = true
is_null arg = false

-- The test of `iodine_pubsub_subscribe` for a call on the module Iodine.
unfoldable pub module_subscribe : Given → Argument → Result SubArgs
unfolding subscribe_args
module_subscribe given block = do
  args ← subscribe_args given block
  if is_null args.block then raised block_required else ok args

-- The engine that a message goes to.
pub data Engine : Type 0 where
  default_engine process_engine : Engine
  engine_of : Argument → Engine

pub record Message : Type 0 where
  pub channel : List ℕ
  pub message : List ℕ
  pub engine : Engine

-- The arguments of `publish`, by their number.
pub data Publish : Type 0 where
  by_hash : Argument → Publish
  by_two : Argument → Argument → Publish
  by_three : Argument → Argument → Argument → Publish
  other_arguments : Publish

-- The `switch (argc)`. The Hash is asked for the bare IDs.
pick_message : Publish → Result (Argument × Argument × Argument)
pick_message (by_three ch msg engine) = ok (ch, msg, engine)
pick_message (by_two ch msg) = ok (ch, msg, nil_arg)
pick_message (by_hash (hash opts)) =
    let first = opts (bare_id to_word) in
    ok (
      (if is_falsy first then opts (bare_id channel_word) else first),
      opts (bare_id message_word),
      opts (bare_id engine_word),
    )
pick_message (by_hash arg) = raised not_a_hash
pick_message other_arguments = raised wrong_count

abbrev pub pick_engine : Argument → Engine
pick_engine false_arg = process_engine
pick_engine nil_arg = default_engine
pick_engine arg = engine_of arg

-- `Check_Type(rb_msg, T_STRING)`, which takes no Symbol.
abbrev pub message_of : Argument → Result (List ℕ)
message_of (string s) = ok s
message_of arg = raised not_a_string

unfoldable pub publish : Publish → Result Message
unfolding pick_message
publish given = do
  picked ← pick_message given
  msg ← if is_falsy picked.1 then raised message_required else message_of picked.1
  ch ← if is_falsy picked.0 then raised target_required else text_of picked.0
  ok (record { channel = ch; message = msg; engine = pick_engine picked.2 })
