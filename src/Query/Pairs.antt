-- ===== src/Query/Pairs.antt =====
-- That a query string is cut at its `&`s and at the first `=` of each pair, and that nothing of it
-- is lost (ext/iodine/iodine_helpers.c).
use iodine.Base.{
  ℕ, zero, suc, ◌≤◌, ◌≡◌, refl, sym, ap, ◌∙◌, ◌⊎◌, inl, inr, false, ◌||◌, List, [], ◌∷◌, ◌++◌,
  append_assoc, Option, none, some, arith, ◌==◌, length, length-append, All, Bool-cases,
}
use iodine.Query.{Component, Pair, scan_value, scan_pair, after_pair, scan_pairs, put_pair}

-- A piece of the string up to its end or up to an `&`.
abbrev pub Cut : List ℕ → List ℕ → Option (List ℕ) → Type 0
Cut s piece next =
    ((next ≡ none) × (s ≡ piece)) ⊎ ((t : List ℕ) × (next ≡ some t) × (s ≡ piece ++ b'&' ∷ t))

Cut-cons :
    (c : ℕ) (s piece : List ℕ) (next : Option (List ℕ))
    → Cut s piece next
    → Cut (c ∷ s) (c ∷ piece) next
Cut-cons c s piece next (inl (e, same)) = inl (e, ap (◌∷◌ c) same)
Cut-cons c s piece next (inr (t, e, same)) = inr (t, e, ap (◌∷◌ c) same)

abbrev pub written_value : Option Component → List ℕ
written_value none = []
written_value (some v) = b'=' ∷ v.data_

abbrev pub written : Pair → List ℕ
written p = p.key.data_ ++ written_value p.value

scan_value-Cut : (s : List ℕ) → Cut s (scan_value s).data_ (scan_value s).next
unfolding scan_value
scan_value-Cut [] = inl (refl, refl)
scan_value-Cut (c ∷ cs) = elim (Bool-cases (c == b'&')) [
  | inl amp ↦ rw amp (inr (cs, refl, ground arith))
  | inr other ↦ rw other (Cut-cons c cs _ _ (scan_value-Cut cs))
]

scan_pair-Cut : (s : List ℕ) → Cut s (written (scan_pair s)) (after_pair (scan_pair s))
unfolding scan_pair
scan_pair-Cut [] = inl (refl, refl)
scan_pair-Cut (c ∷ cs) = elim (Bool-cases (c == b'&')) [
  | inl amp ↦ rw amp (inr (cs, refl, ground arith))
  | inr other ↦ elim (Bool-cases (c == b'=')) [
    | inl eq ↦
        let same : c ≡ b'=' = ground arith in
        rw (other, eq, same) (Cut-cons b'=' cs _ _ (scan_value-Cut cs))
    | inr plain ↦ rw (other, plain) (Cut-cons c cs _ _ (scan_pair-Cut cs))
  ]
]

-- The pairs, each with an `&` behind it.
abbrev pub joined : List Pair → List ℕ
joined [] = []
joined (p ∷ ps) = written p ++ b'&' ∷ joined ps

abbrev pub NoAmp : List ℕ → Type 0
NoAmp = All (λ c. (c == b'&') ≡ false)

abbrev pub IsCleanValue : Option Component → Type 0
IsCleanValue none = Unit {0}
IsCleanValue (some v) = NoAmp v.data_

-- No key holds an `&` or a `=`, and no value an `&`.
abbrev pub IsClean : Pair → Type 0
IsClean p = All (λ c. (c == b'&' || c == b'=') ≡ false) p.key.data_ × IsCleanValue p.value

scan_value-NoAmp : (s : List ℕ) → NoAmp (scan_value s).data_
unfolding scan_value
scan_value-NoAmp [] = tt
scan_value-NoAmp (c ∷ cs) = elim (Bool-cases (c == b'&')) [
  | inl amp ↦ rw amp tt
  | inr other ↦ rw other (other, scan_value-NoAmp cs)
]

scan_pair-IsClean : (s : List ℕ) → IsClean (scan_pair s)
unfolding scan_pair
scan_pair-IsClean [] = (tt, tt)
scan_pair-IsClean (c ∷ cs) = elim (Bool-cases (c == b'&')) [
  | inl amp ↦ rw amp (tt, tt)
  | inr other ↦ elim (Bool-cases (c == b'=')) [
    | inl eq ↦ rw (other, eq) (tt, scan_value-NoAmp cs)
    | inr plain ↦
        let (clean, value) = scan_pair-IsClean cs in
        rw (other, plain) ((rw (other, plain) refl, clean), value)
  ]
]

-- What the loop makes of a string: its pairs, put together, are the string, up to a last `&`.
abbrev pub PairsOf : List ℕ → List Pair → Type 0
PairsOf s ps = All IsClean ps × ((joined ps ≡ s) ⊎ (joined ps ≡ s ++ b'&' ∷ []))

-- The loop ends within as many steps as the string has bytes, every pair is cut where it has to
-- be, and nothing is lost.
pub scan_pairs_lem :
    (fuel : ℕ) (s : List ℕ)
    → length s ≤ fuel
    → (ps : List Pair) × (scan_pairs fuel s ≡ some ps) × PairsOf s ps
unfolding scan_pairs
scan_pairs_lem fuel [] h = ([], refl, (tt, inl refl))
scan_pairs_lem zero (c ∷ cs) h = absurd (omega arith)
scan_pairs_lem (suc fuel) (c ∷ cs) h =
    let p = scan_pair (c ∷ cs) in
    let clean = scan_pair-IsClean (c ∷ cs) in
    elim (scan_pair-Cut (c ∷ cs)) [
      | inl (e, same) ↦
          (p ∷ [], rw e (ended fuel p), ((clean, tt), inr (ap (λ t. t ++ b'&' ∷ []) (sym same))))
      | inr (t, e, same) ↦
          let shorter : length t ≤ fuel =
            omega (arith, ap length same, length-append (written p) (b'&' ∷ t)) in
          let (ps, found, (all, made)) = scan_pairs_lem fuel t shorter in
          (
            p ∷ ps,
            rw (e, found) refl,
            (
              (clean, all),
              elim made [
                | inl whole ↦ inl (ap (λ u. written p ++ b'&' ∷ u) whole ∙ sym same)
                | inr more ↦ inr (
                    ap (λ u. written p ++ b'&' ∷ u) more
                    ∙ sym (append_assoc (written p) (b'&' ∷ t) (b'&' ∷ []))
                    ∙ ap (λ u. u ++ b'&' ∷ []) (sym same))
              ],
            ),
          )
    ]
  where
    ended : (n : ℕ) (q : Pair) → put_pair q (scan_pairs n []) ≡ some (q ∷ [])
    ended zero q = refl
    ended (suc n) q = refl
