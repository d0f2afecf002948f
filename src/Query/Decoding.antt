-- ===== src/Query/Decoding.antt =====
-- That the parts of a query string which are not decoded need no decoding
-- (ext/iodine/iodine_helpers.c).
use iodine.Base.{
  ℕ, ◌≡◌, refl, sym, ap, ◌∙◌, Bool, false, ◌||◌, List, [], ◌∷◌, Option, none, some, ◌==◌,
  if◌then◌else◌, Bool-cases, inl, inr,
}
use iodine.Query.{
  Component, Pair, scan_value, scan_pair, is_encoded, Value, nil_value, string, is_nested, add_pair,
  build_query_component, value_of, to_value, with_key, with_value,
}

abbrev pub any_encoded : List ℕ → Bool
any_encoded [] = false
any_encoded (c ∷ cs) = is_encoded c || any_encoded cs

abbrev IsMarked : Component → Type 0
IsMarked r = r.should_decode ≡ any_encoded r.data_

abbrev IsMarkedValue : Option Component → Type 0
IsMarkedValue none = Unit {0}
IsMarkedValue (some v) = IsMarked v

scan_value-IsMarked : (s : List ℕ) → IsMarked (scan_value s)
unfolding scan_value
scan_value-IsMarked [] = refl
scan_value-IsMarked (c ∷ cs) = elim (Bool-cases (c == b'&')) [
  | inl amp ↦ rw amp refl
  | inr other ↦ rw (other, scan_value-IsMarked cs) refl
]

scan_pair-IsMarked : (s : List ℕ) → IsMarked (scan_pair s).key × IsMarkedValue (scan_pair s).value
unfolding scan_pair
scan_pair-IsMarked [] = (refl, tt)
scan_pair-IsMarked (c ∷ cs) = elim (Bool-cases (c == b'&')) [
  | inl amp ↦ rw amp (refl, tt)
  | inr other ↦ elim (Bool-cases (c == b'=')) [
    | inl eq ↦ rw (other, eq) (refl, scan_value-IsMarked cs)
    | inr plain ↦ let (key, value) = scan_pair-IsMarked cs in rw (other, plain) (rw key refl, value)
  ]
]

module _ (decode : List ℕ → Option (List ℕ)) where
  -- Every part decoded, whatever stands in it.
  abbrev pub decoded_value : List ℕ → Option Component → Option Value
  decoded_value key none = some (if is_nested key then string [] else nil_value)
  decoded_value key (some v) = to_value (decode v.data_)

  pub decoded_pair : Pair → Option (List ℕ × Value)
  decoded_pair p = with_key (decode p.key.data_) (λ key. decoded_value key p.value)

  component :
      ((s : List ℕ) → any_encoded s ≡ false → decode s ≡ some s)
      → (r : Component) → IsMarked r
      → build_query_component decode r.data_ r.should_decode ≡ decode r.data_
  component plain r m = elim (Bool-cases (any_encoded r.data_)) [
    | inl enc ↦ rw (m, enc) refl
    | inr none_enc ↦ rw (m, none_enc) (sym (plain r.data_ none_enc))
  ]

  value_of-decoded :
      ((s : List ℕ) → any_encoded s ≡ false → decode s ≡ some s)
      → (key : List ℕ) (v : Option Component) → IsMarkedValue v
      → value_of decode key v ≡ decoded_value key v
  value_of-decoded plain key none m = refl
  value_of-decoded plain key (some v) m = ap to_value (component plain v m)

  with_key-cong :
      (o : Option (List ℕ)) (f g : List ℕ → Option Value)
      → ((k : List ℕ) → f k ≡ g k)
      → with_key o f ≡ with_key o g
  with_key-cong none f g h = refl
  with_key-cong (some k) f g h = ap (with_value k) (h k)

  -- The first pair of any string comes out as if its key and its value were always decoded: where
  -- the decoding is left out it would change nothing. It is taken to change no string without
  -- a percent sign and a plus.
  pub add_pair-decoded :
      ((s : List ℕ) → any_encoded s ≡ false → decode s ≡ some s)
      → (s : List ℕ) → add_pair decode (scan_pair s) ≡ decoded_pair (scan_pair s)
  unfolding add_pair decoded_pair
  add_pair-decoded plain s =
      let p = scan_pair s in
      let (key, value) = scan_pair-IsMarked s in
      ap (λ o. with_key o (λ k. value_of decode k p.value)) (component plain p.key key)
      ∙ with_key-cong (decode p.key.data_) _ _ (λ k. value_of-decoded plain k p.value value)
