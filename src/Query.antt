-- ===== src/Query.antt =====
-- `parse_nested_query_internal` of ext/iodine/iodine_helpers.c: how a query string is cut into the
-- calls of `http_add_to_params`. The decoding is facil.io's `http_decode_url`, an argument.
pub mod Pairs
pub mod Decoding
mod Examples
use iodine.Base.{
  ℕ, zero, suc, ◌+◌, Bool, true, false, ◌&&◌, ◌||◌, List, [], ◌∷◌, Option, none, some, ltb, ◌==◌,
  if◌then◌else◌, length,
}

abbrev pub is_encoded : ℕ → Bool
is_encoded c = c == b'%' || c == b'+'

-- The inner loop behind a separator: the bytes, whether they want decoding, and what follows the
-- `&`, if there is one.
pub record Component : Type 0 where
  pub data_ : List ℕ
  pub should_decode : Bool
  pub next : Option (List ℕ)

abbrev pub put_byte : ℕ → Bool → Component → Component
put_byte c encoded r = record {
  data_ = c ∷ r.data_;
  should_decode = encoded || r.should_decode;
  next = r.next;
}

unfoldable pub scan_value : List ℕ → Component
scan_value [] = record { data_ = []; should_decode = false; next = none }
scan_value (c ∷ cs) =
    let r = scan_value cs in
    if c == b'&'
    then record { data_ = []; should_decode = false; next = some cs }
    else put_byte c (is_encoded c) r

-- One pair: the key, the value if there was a separator, and what follows.
pub record Pair : Type 0 where
  pub key : Component
  pub value : Option Component

unfoldable pub scan_pair : List ℕ → Pair
unfolding scan_value
scan_pair [] = record {
  key = record { data_ = []; should_decode = false; next = none };
  value = none;
}
scan_pair (c ∷ cs) =
    let r = scan_pair cs in
    if c == b'&'
    then record { key = record { data_ = []; should_decode = false; next = some cs }; value = none }
    else if c == b'='
    then record {
      key = record { data_ = []; should_decode = false; next = none };
      value = some (scan_value cs);
    }
    else record { key = put_byte c (is_encoded c) r.key; value = r.value }

-- Where the next pair begins: `none` is the end of the string.
abbrev pub after_pair : Pair → Option (List ℕ)
after_pair p = elim p.value [ none ↦ p.key.next | some v ↦ v.next ]

-- The outer loop, on fuel; `none` is a loop that goes on.
abbrev pub put_pair {ℓ} : {A : Type ℓ} → A → Option (List A) → Option (List A)
put_pair p none = none
put_pair p (some ps) = some (p ∷ ps)

abbrev pub rest_or_nothing : Option (List ℕ) → List ℕ
rest_or_nothing none = []
rest_or_nothing (some cs) = cs

unfoldable pub scan_pairs : ℕ → List ℕ → Option (List Pair)
unfolding scan_pair
scan_pairs fuel [] = some []
scan_pairs zero (c ∷ cs) = none
scan_pairs (suc fuel) (c ∷ cs) =
    let p = scan_pair (c ∷ cs) in put_pair p (scan_pairs fuel (rest_or_nothing (after_pair p)))

-- What `http_add_to_params` is given: nil, or a String.
pub data Value : Type 0 where
  nil_value : Value
  string : List ℕ → Value

abbrev pub has_bracket : List ℕ → Bool
has_bracket [] = false
has_bracket (c ∷ cs) = c == b'[' || has_bracket cs

-- key_len > 1 && memchr(key_data + 1, '[', key_len - 1)
abbrev pub is_nested : List ℕ → Bool
is_nested [] = false
is_nested (c ∷ cs) = has_bracket cs

abbrev pub to_value : Option (List ℕ) → Option Value
to_value none = none
to_value (some s) = some (string s)

-- The two arguments, unless the decoding of one raised.
abbrev pub with_value : List ℕ → Option Value → Option (List ℕ × Value)
with_value key none = none
with_value key (some v) = some (key, v)

abbrev pub with_key : Option (List ℕ) → (List ℕ → Option Value) → Option (List ℕ × Value)
with_key none f = none
with_key (some key) f = with_value key (f key)

module _ (decode : List ℕ → Option (List ℕ)) where
  -- build_query_component; `none` is the exception.
  abbrev pub build_query_component : List ℕ → Bool → Option (List ℕ)
  build_query_component s should = if should then decode s else some s

  abbrev pub value_of : List ℕ → Option Component → Option Value
  value_of key none = some (if is_nested key then string [] else nil_value)
  value_of key (some v) = to_value (build_query_component v.data_ v.should_decode)

  unfoldable pub add_pair : Pair → Option (List ℕ × Value)
  add_pair p =
      with_key (build_query_component p.key.data_ p.key.should_decode) (λ key. value_of key p.value)
