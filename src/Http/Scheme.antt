-- ===== src/Http/Scheme.antt =====
-- `copy2env` of ext/iodine/iodine_http.c: `rack.url_scheme` from the forwarding headers.
pub mod Forwarded
use iodine.Base.{
  ℕ, ◌+◌, ◌/◌, ◌%◌, Bool, true, false, ◌&&◌, List, [], ◌∷◌, ◌++◌, Option, none, some, leb, ◌==◌,
  if◌then◌else◌, bytes_eq, length, take,
}

-- `c | 32` on a byte
abbrev pub or_32 : ℕ → ℕ
or_32 c = if (c / 32) % 2 == 0 then c + 32 else c

-- What the reads of the loop lead to: `found` is the place after the `=`, and an overrun is a read
-- past the zero that ends the text.
pub data Scan : Type 0 where
  absent overrun : Scan
  found : List ℕ → Scan

-- Where the loop stands: at its test, or inside the conjunction, with the letters still to come.
pub data Want : Type 0 where
  test : Want
  letters : List ℕ → Want

-- Each `*(pos++)` takes a byte, whether it is the letter or not.
unfoldable pub scan : Want → List ℕ → Scan
scan test [] = overrun
scan test (c ∷ m) =
    let matched = scan (letters (b'r' ∷ b'o' ∷ b't' ∷ b'o' ∷ b'=' ∷ [])) m in
    let missed = scan test m in
    if c == 0 then absent else if or_32 c == b'p' then matched else missed
scan (letters []) m = found m
scan (letters (w ∷ ws)) [] = overrun
scan (letters (w ∷ ws)) (c ∷ m) =
    let matched = scan (letters ws) m in
    let missed = scan test m in if or_32 c == w then matched else missed

pub data Scheme : Type 0 where
  default_scheme http_scheme https_scheme : Scheme
  other_scheme : List ℕ → Scheme
  past_the_end : Scheme

-- while (*tmp && *tmp != ';')
abbrev pub until_semicolon : List ℕ → List ℕ
until_semicolon [] = []
until_semicolon (c ∷ m) = if c == 0 then [] else if c == b';' then [] else c ∷ until_semicolon m

-- `pos[i]`, whose reads stop at the zero.
abbrev pub starts_with : List ℕ → List ℕ → Bool
starts_with [] m = true
starts_with (w ∷ ws) [] = false
starts_with (w ∷ ws) (c ∷ m) = or_32 c == w && starts_with ws m

abbrev pub http_word : List ℕ
http_word = b'h' ∷ b't' ∷ b't' ∷ b'p' ∷ []

abbrev pub https_word : List ℕ
https_word = http_word ++ b's' ∷ []

abbrev pub scheme_at : List ℕ → Scheme
scheme_at m =
    if starts_with https_word m
    then https_scheme
    else if starts_with http_word m
    then http_scheme
    else other_scheme (until_semicolon m)

abbrev pub scheme_of : Scan → Scheme
scheme_of absent = default_scheme
scheme_of overrun = past_the_end
scheme_of (found m) = scheme_at m

abbrev pub lower : ℕ → ℕ
lower c = if leb b'A' c && leb c b'Z' then c + 32 else c

-- strncasecmp
abbrev pub same_letters : List ℕ → List ℕ → Bool
same_letters [] [] = true
same_letters (a ∷ xs) (b ∷ ys) = lower a == lower b && same_letters xs ys
same_letters xs ys = false

-- `X-Forwarded-Proto`, as its lookup gives it.
abbrev pub x_forwarded_scheme : List ℕ → Scheme
x_forwarded_scheme v =
    if leb 5 (length v) && same_letters (take 5 v) https_word
    then https_scheme
    else if length v == 4 && same_letters v http_word
    then http_scheme
    else other_scheme v

unfoldable pub url_scheme : Option (List ℕ) → Option (List ℕ) → Bool → Scheme
unfolding scan
url_scheme (some v) forwarded tls = x_forwarded_scheme v
url_scheme none (some v) tls = scheme_of (scan test (v ++ 0 ∷ []))
url_scheme none none tls = if tls then https_scheme else default_scheme
