-- ===== src/Http/Headers/Clean.antt =====
-- Header values split at their newlines (`for_each_header_data` of ext/iodine/iodine_http.c).
use iodine.Base.{
  ℕ, zero, suc, ◌≤◌, ◌≡◌, refl, sym, ap, ◌∙◌, subst, append-nil, append_assoc, length-append, ◌⊎◌,
  inl, inr, false, ◌&&◌, List, [], ◌∷◌, ◌++◌, map, Option, none, some, arith, leb, ◌==◌, length,
  All, Bool-cases,
}
use iodine.Http.Headers.{
  Header, nil_header, text, array, object, Headers, none_left, item, Key, continue, stop, text_key,
  object_key, nil_key, Calls, Flow, to_lower, line_end, header_lines, put_first, set_lines,
  set_text, set_value, for_each_header_data, for_each_item, go_on, set_headers,
}

abbrev pub NoNewline : List ℕ → Type 0
NoNewline = All (λ c. (c == b'\n') ≡ false)

abbrev pub joined : List (List ℕ) → List ℕ
joined [] = []
joined (l ∷ ls) = l ++ b'\n' ∷ joined ls

abbrev LineEnd : List ℕ → List ℕ × List ℕ → Type 0
LineEnd bs r =
    NoNewline r.0
    × (length r.1 ≤ length bs)
    × ((bs ≡ r.0 ++ b'\n' ∷ r.1) ⊎ ((bs ≡ r.0) × (r.1 ≡ [])))

line_end_lem : (bs : List ℕ) → LineEnd bs (line_end bs)
unfolding line_end
line_end_lem [] = (tt, omega arith, inr (refl, refl))
line_end_lem (c ∷ cs) = elim (Bool-cases (c == b'\n')) [
  | inl found ↦ rw found (tt, omega arith, inl (ground arith))
  | inr other ↦
      let (clean, le, whole) = line_end_lem cs in
      rw other (
        (other, clean),
        omega arith,
        elim whole [ inl cut ↦ inl (ap (◌∷◌ c) cut) | inr last ↦ inr (ap (◌∷◌ c) last.0, last.1) ],
      )
]

-- What the scan gives for a value: lines without a newline, which make up the value again; a last
-- newline has no line after it.
abbrev pub LinesOf : List ℕ → List (List ℕ) → Type 0
LinesOf val ls = All NoNewline ls × ((joined ls ≡ val) ⊎ (joined ls ≡ val ++ b'\n' ∷ []))

-- The scan ends within as many steps as the value has bytes, and loses nothing of it.
pub header_lines_lem :
    (fuel : ℕ) (val : List ℕ)
    → length val ≤ fuel
    → (ls : List (List ℕ)) × (header_lines fuel val ≡ some ls) × LinesOf val ls
unfolding header_lines
header_lines_lem fuel [] h = ([], refl, (tt, inl refl))
header_lines_lem zero (c ∷ cs) h = absurd (omega arith)
header_lines_lem (suc fuel) (c ∷ cs) h =
    let r = line_end (c ∷ cs) in
    let (clean, le, whole) = line_end_lem (c ∷ cs) in
    elim whole [
      | inl cut ↦
          let shorter : length r.1 ≤ fuel =
            omega (arith, ap length cut, length-append r.0 (b'\n' ∷ r.1)) in
          let (ls, found, (all, made)) = header_lines_lem fuel r.1 shorter in
          (
            r.0 ∷ ls,
            rw found refl,
            (
              (clean, all),
              elim made [
                | inl whole_rest ↦ inl (ap (λ t. r.0 ++ b'\n' ∷ t) whole_rest ∙ sym cut)
                | inr with_newline ↦ inr (
                    ap (λ t. r.0 ++ b'\n' ∷ t) with_newline
                    ∙ sym (append_assoc r.0 (b'\n' ∷ r.1) (b'\n' ∷ []))
                    ∙ ap (λ t. t ++ b'\n' ∷ []) (sym cut))
              ],
            ),
          )
      | inr last ↦ (
        r.0 ∷ [],
        rw (last.1) (ended fuel r.0),
        ((clean, tt), inr (ap (λ t. t ++ b'\n' ∷ []) (sym last.0))),
      )
    ]
  where
    ended : (n : ℕ) (l : List ℕ) → put_first l (header_lines n []) ≡ some (l ∷ [])
    ended zero l = refl
    ended (suc n) l = refl

abbrev pub with_name : List ℕ → List ℕ → List ℕ × List ℕ
with_name name l = (name, l)

-- A text value is set line by line, all of it, under the name in small letters.
pub set_text_lem :
    (key val : List ℕ) (out : Calls)
    → (ls : List (List ℕ)) × LinesOf val ls
      × (set_text key val out ≡ out ++ map (with_name (map to_lower key)) ls)
unfolding set_text set_lines
set_text_lem key val out =
    let (ls, found, lines_of) = header_lines_lem (length val) val (omega arith) in
    (ls, lines_of, rw found (set_lines_lem (map to_lower key) ls out))
  where
    set_lines_lem :
        (name : List ℕ) (ls : List (List ℕ)) (out : Calls)
        → set_lines name (some ls) out ≡ out ++ map (with_name name) ls
    set_lines_lem name [] out = sym (append-nil out)
    set_lines_lem name (l ∷ ls) out =
        set_lines_lem name ls (out ++ (name, l) ∷ [])
        ∙ append_assoc out ((name, l) ∷ []) (map (with_name name) ls)

-- A header that cannot end its own line from its value, under a name without capitals.
abbrev pub IsSafe : List ℕ × List ℕ → Type 0
IsSafe call = All (λ c. (leb b'A' c && leb c b'Z') ≡ false) call.0 × NoNewline call.1

All-append : {A : Type 0} (P : A → Type 0) (xs ys : List A) → All P xs → All P ys → All P (xs ++ ys)
All-append P [] ys px py = py
All-append P (x ∷ xs) ys px py = (px.0, All-append P xs ys px.1 py)

set_text-IsSafe :
    (key val : List ℕ) (out : Calls) → All IsSafe out → All IsSafe (set_text key val out)
set_text-IsSafe key val out safe =
    let (ls, (clean, whole), set_) = set_text_lem key val out in
    subst (All IsSafe) (sym set_) (All-append IsSafe out _ safe (named ls clean))
  where
    lowered : (k : List ℕ) → All (λ c. (leb b'A' c && leb c b'Z') ≡ false) (map to_lower k)
    lowered [] = tt
    lowered (c ∷ k) = (ground arith, lowered k)

    named :
        (ls : List (List ℕ)) → All NoNewline ls → All IsSafe (map (with_name (map to_lower key)) ls)
    named [] clean = tt
    named (l ∷ ls) clean = ((lowered key, clean.0), named ls clean.1)

set_value-IsSafe :
    (key val : Option (List ℕ)) (out : Calls)
    → All IsSafe out
    → All IsSafe (set_value key val out).0
unfolding set_value
set_value-IsSafe none val out safe = safe
set_value-IsSafe (some k) none out safe = safe
set_value-IsSafe (some k) (some v) out safe = set_text-IsSafe k v out safe

go_on-IsSafe :
    (r rest : Calls × Flow) → All IsSafe r.0 → All IsSafe rest.0 → All IsSafe (go_on r rest).0
go_on-IsSafe (out, continue) rest safe safe_rest = safe_rest
go_on-IsSafe (out, stop) rest safe safe_rest = safe

mutual
  unfolding for_each_header_data

  pub for_each_header_data-IsSafe :
      (key : Key) (val : Header) (out : Calls)
      → All IsSafe out
      → All IsSafe (for_each_header_data key val out).0
  for_each_header_data-IsSafe key nil_header out safe = safe
  for_each_header_data-IsSafe nil_key (array vals) out safe = safe
  for_each_header_data-IsSafe (text_key k) (array vals) out safe =
      for_each_item-IsSafe (text_key k) vals out safe
  for_each_header_data-IsSafe (object_key k) (array vals) out safe =
      for_each_item-IsSafe (object_key k) vals out safe
  for_each_header_data-IsSafe nil_key (text v) out safe = safe
  for_each_header_data-IsSafe (text_key k) (text v) out safe =
      set_value-IsSafe (some k) (some v) out safe
  for_each_header_data-IsSafe (object_key k) (text v) out safe =
      set_value-IsSafe k (some v) out safe
  for_each_header_data-IsSafe nil_key (object v) out safe = safe
  for_each_header_data-IsSafe (text_key k) (object v) out safe =
      set_value-IsSafe (some k) v out safe
  for_each_header_data-IsSafe (object_key k) (object v) out safe = set_value-IsSafe k v out safe

  for_each_item-IsSafe :
      (key : Key) (vals : Headers) (out : Calls)
      → All IsSafe out
      → All IsSafe (for_each_item key vals out).0
  for_each_item-IsSafe key none_left out safe = safe
  for_each_item-IsSafe key (item val vals) out safe =
      let first = for_each_header_data-IsSafe key val out safe in
      go_on-IsSafe (for_each_header_data key val out) _ first
        (for_each_item-IsSafe key vals _ first)

-- Whatever the application answers, no header value that is set holds a newline and no header name
-- a capital letter, if that is so of the headers that were set before.
pub set_headers-IsSafe :
    (headers : List (Key × Header)) (out : Calls)
    → All IsSafe out
    → All IsSafe (set_headers headers out)
unfolding set_headers
set_headers-IsSafe [] out safe = safe
set_headers-IsSafe ((key, val) ∷ rest) out safe =
    let first = for_each_header_data-IsSafe key val out safe in
    go_on-IsSafe (for_each_header_data key val out) _ first (set_headers-IsSafe rest _ first)
