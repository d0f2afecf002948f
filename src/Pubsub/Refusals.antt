-- ===== src/Pubsub/Refusals.antt =====
-- What `subscribe` and `publish` of ext/iodine/iodine_connection.c accept, and two things that they
-- do not do as their documentation says.
use iodine.Base.{ℕ, ◌≡◌, refl, ◌⊎◌, inl, inr, ◌↔◌, ap, false, List, arith}
use iodine.Pubsub.Arguments.{
  Word, to_word, message_word, Key, symbol_key, bare_id, Argument, nil_arg, false_arg, string,
  symbol, hash, other, message_required, ok, raised, SubArgs, one, two, subscribe_args,
  module_subscribe, target, is_falsy, process_engine, by_hash, by_two, by_three, publish,
}

-- `subscribe(to: x, …)` is the call `subscribe(x, …)` with the same options, whenever `:to` is given.
pub subscribe_args-to :
    (opts : Key → Argument) (arg block : Argument)
    → opts (symbol_key to_word) ≡ arg
    → is_falsy arg ≡ false
    → subscribe_args (one (hash opts)) block ≡ subscribe_args (two arg opts) block
unfolding subscribe_args
subscribe_args-to opts arg block e t = ap (λ a. subscribe_args (two a opts) block) named
  where
    named : target opts ≡ arg
    named = rw e (rw t refl)

-- A call with options is accepted exactly if it names its channel by a String or a Symbol, and then
-- it is for that channel.
pub subscribe_args-ok_iff :
    (arg block : Argument) (opts : Key → Argument) (name : List ℕ)
    → ((args : SubArgs) × (subscribe_args (two arg opts) block ≡ ok args) × (args.channel ≡ name))
      ↔ ((arg ≡ string name) ⊎ (arg ≡ symbol name))
unfolding subscribe_args
subscribe_args-ok_iff arg block opts name = ((λ h. named arg h.0 h.1 h.2), accepted)
  where
    named :
        (a : Argument) (args : SubArgs)
        → subscribe_args (two a opts) block ≡ ok args
        → args.channel ≡ name
        → (a ≡ string name) ⊎ (a ≡ symbol name)
    named (string s) args h e = ground arith
    named (symbol s) args h e = ground arith
    named nil_arg args h e = absurd (ground arith)
    named false_arg args h e = absurd (ground arith)
    named (hash k) args h e = absurd (ground arith)
    named (other n) args h e = absurd (ground arith)

    accepted :
        (arg ≡ string name) ⊎ (arg ≡ symbol name)
        → (args : SubArgs) × (subscribe_args (two arg opts) block ≡ ok args) × (args.channel ≡ name)
    accepted (inl e) = rw e (_, refl, refl)
    accepted (inr e) = rw e (_, refl, refl)

-- Iodine.subscribe without a block and without a handler is accepted, although it says that it
-- requires one: the test looks for the null word, and nil is another.
pub module_subscribe_without_block :
    (name : List ℕ)
    → (args : SubArgs) × (module_subscribe (one (string name)) nil_arg ≡ ok args)
      × (args.block ≡ nil_arg)
unfolding module_subscribe
module_subscribe_without_block name = (_, refl, refl)

-- `publish` with named arguments fails whatever they are, as long as the keys are Symbols: the Hash
-- is asked for the bare IDs of its words, which are no Ruby objects.
pub publish_by_hash_fails :
    (opts : Key → Argument)
    → ((w : Word) → opts (bare_id w) ≡ nil_arg)
    → publish (by_hash (hash opts)) ≡ raised message_required
unfolding publish
publish_by_hash_fails opts bare = rw (bare message_word)

-- Two texts are published as they are; a third argument picks the engine: false is this process.
pub publish_lem :
    (ch msg : List ℕ) (engine : Argument)
    → (publish (by_two (string ch) (string msg)) ≡ publish (by_two (symbol ch) (string msg)))
      × (publish (by_three (string ch) (string msg) nil_arg)
          ≡ publish (by_two (string ch) (string msg)))
      × (publish (by_three (string ch) (string msg) false_arg)
          ≡ ok (record { channel = ch; message = msg; engine = process_engine }))
unfolding publish
publish_lem ch msg engine = (refl, refl, refl)
