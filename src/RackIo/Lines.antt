-- ===== src/RackIo/Lines.antt =====
-- What `each` of ext/iodine/iodine_rack_io.c yields of a request's body.
use iodine.Base.{
  ℕ, zero, suc, ◌<◌, ◌≤◌, ◌≡◌, ◌≢◌, refl, sym, ap, ◌∙◌, List, [], ◌∷◌, ◌++◌, Option, some, arith,
  length, All, List-cases, inl, inr,
}
use iodine.Fio.Stream.{Stream, first_line, after_line}
use iodine.RackIo.{Input, each_line, rio_each, rio_gets, rio_rewind, line_or_nil, text}
use iodine.RackIo.Reading.{on}

abbrev pub joined : List (List ℕ) → List ℕ
joined [] = []
joined (l ∷ ls) = l ++ joined ls

-- A line has something in it, and ends at its first newline or at the end of the text.
abbrev pub IsLine : List ℕ → Type 0
IsLine l = (l ≢ []) × (first_line l ≡ l)

first_line-after_line : (t : List ℕ) → first_line t ++ after_line t ≡ t
first_line-after_line [] = refl
first_line-after_line (c ∷ cs) = ground (arith, first_line-after_line cs)

first_line-IsLine : (c : ℕ) (cs : List ℕ) → IsLine (first_line (c ∷ cs))
first_line-IsLine c cs = (ground arith, twice (c ∷ cs))
  where
    twice : (t : List ℕ) → first_line (first_line t) ≡ first_line t
    twice [] = refl
    twice (x ∷ t) = ground (arith, twice t)

length-after_line : (c : ℕ) (cs : List ℕ) → length (after_line (c ∷ cs)) ≤ length cs
length-after_line c cs = ground (arith, shorter cs)
  where
    shorter : (t : List ℕ) → length (after_line t) ≤ length t
    shorter [] = omega arith
    shorter (x ∷ t) = ground (arith, shorter t)

module _ (S : Stream) where
  open S use {Carrier, whole, rest, rewind, gets, gets_line, rest-gets, rest-rewind}

  line_text : (l : List ℕ) → l ≢ [] → line_or_nil S l ≡ text l
  line_text [] h = absurd (h refl)
  line_text (c ∷ l) h = refl

  -- The lines of a text, and what they are put together.
  abbrev LinesOf : List ℕ → Option (List (List ℕ) × Input S) → Type 0
  LinesOf t r =
      (ls : List (List ℕ)) × (j : Input S) × (r ≡ some (ls, j)) × All IsLine ls × (joined ls ≡ t)

  each_line_lem :
      (fuel : ℕ) (s : Carrier)
      → length (rest s) < fuel
      → LinesOf (rest s) (each_line S fuel (on S s))
  unfolding each_line rio_gets
  each_line_lem zero s h = absurd (omega arith)
  each_line_lem (suc fuel) s h = elim (List-cases (rest s)) [
    | inl e ↦ ([], on S (gets s).1, rw (gets_line s, e) refl, tt, sym e)
    | inr (c, cs, e) ↦
        let left = (gets s).1 in
        let left_rest : rest left ≡ after_line (c ∷ cs) = rest-gets s ∙ ap after_line e in
        let shorter : length (rest left) < fuel =
          omega (arith, ap length left_rest, length-after_line c cs, ap length e, h) in
        let (ls, j, found, lines, whole_rest) = each_line_lem fuel left shorter in
        let line = first_line-IsLine c cs in
        (
          first_line (c ∷ cs) ∷ ls,
          j,
          rw (gets_line s, e, line_text (first_line (c ∷ cs)) line.0, found) refl,
          (line, lines),
          ap (◌++◌ (first_line (c ∷ cs))) (whole_rest ∙ left_rest)
              ∙ first_line-after_line (c ∷ cs)
              ∙ sym e,
        )
  ]

  -- `each` ends, whatever was read before, and yields the whole body line by line: no line is empty,
  -- and only its last byte may be a newline. There is no limit on the length of a line.
  pub rio_each_lem :
      (fuel : ℕ) (s : Carrier)
      → length (whole s) < fuel
      → (ls : List (List ℕ)) × (j : Input S) × (rio_each S fuel (on S s) ≡ some (ls, j))
        × All IsLine ls
        × (joined ls ≡ whole s)
  unfolding rio_each rio_rewind
  rio_each_lem fuel s h =
      let (ls, j, found, lines, made) =
        each_line_lem fuel (rewind s) (omega (arith, ap length (rest-rewind s), h)) in
      (ls, j, found, lines, made ∙ rest-rewind s)
