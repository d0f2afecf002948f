-- ===== src/Fio/Stream.antt =====
-- The data object that facil.io keeps a request's body in (ext/iodine/fiobj_data.h), as its users
-- call it: bytes and a place to read from. Its documented behaviour is the record's laws; a list
-- of bytes meets them.
use iodine.Base.{ℕ, zero, suc, ◌≡◌, refl, List, [], ◌∷◌, ◌==◌, if◌then◌else◌, take, drop}

-- A line with its newline, or what is left if there is none.
abbrev pub first_line : List ℕ → List ℕ
first_line [] = []
first_line (c ∷ cs) = if c == b'\n' then c ∷ [] else c ∷ first_line cs

abbrev pub after_line : List ℕ → List ℕ
after_line [] = []
after_line (c ∷ cs) = if c == b'\n' then cs else after_line cs

-- `read s 0` is all that is left.
pub record Stream : Type 1 where
  pub Carrier : Type 0
  pub whole : Carrier → List ℕ
  pub rest : Carrier → List ℕ
  pub rewind : Carrier → Carrier
  pub read : Carrier → ℕ → List ℕ × Carrier
  pub gets : Carrier → List ℕ × Carrier
  pub whole-rewind : (s : Carrier) → whole (rewind s) ≡ whole s
  pub rest-rewind : (s : Carrier) → rest (rewind s) ≡ whole s
  pub read_all : (s : Carrier) → (read s 0).0 ≡ rest s
  pub read_some : (s : Carrier) (n : ℕ) → (read s (suc n)).0 ≡ take (suc n) (rest s)
  pub rest-read_all : (s : Carrier) → rest (read s 0).1 ≡ []
  pub rest-read_some : (s : Carrier) (n : ℕ) → rest (read s (suc n)).1 ≡ drop (suc n) (rest s)
  pub whole-read : (s : Carrier) (n : ℕ) → whole (read s n).1 ≡ whole s
  pub gets_line : (s : Carrier) → (gets s).0 ≡ first_line (rest s)
  pub rest-gets : (s : Carrier) → rest (gets s).1 ≡ after_line (rest s)
  pub whole-gets : (s : Carrier) → whole (gets s).1 ≡ whole s

abbrev pub list_read : List ℕ × List ℕ → ℕ → List ℕ × (List ℕ × List ℕ)
list_read (w, r) zero = (r, (w, []))
list_read (w, r) (suc n) = (take (suc n) r, (w, drop (suc n) r))

-- The laws hold of the bytes and what is left of them.
abbrev pub list_stream : Stream
list_stream = record {
  Carrier = List ℕ × List ℕ;
  whole = λ s. s.0;
  rest = λ s. s.1;
  rewind = λ s. (s.0, s.0);
  read = list_read;
  gets = λ s. (first_line s.1, (s.0, after_line s.1));
  whole-rewind = λ s. refl;
  rest-rewind = λ s. refl;
  read_all = λ s. refl;
  read_some = λ s n. refl;
  rest-read_all = λ s. refl;
  rest-read_some = λ s n. refl;
  whole-read = list_whole;
  gets_line = λ s. refl;
  rest-gets = λ s. refl;
  whole-gets = λ s. refl;
}
  where
    list_whole : (s : List ℕ × List ℕ) (n : ℕ) → (list_read s n).1.0 ≡ s.0
    list_whole (w, r) zero = refl
    list_whole (w, r) (suc n) = refl
