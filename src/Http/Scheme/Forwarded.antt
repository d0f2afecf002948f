-- ===== src/Http/Scheme/Forwarded.antt =====
-- What the scan of the `Forwarded` header finds (ext/iodine/iodine_http.c).
use iodine.Base.{
  ℕ, ◌≡◌, refl, ap, ◌∙◌, Bool, false, ◌||◌, List, [], ◌∷◌, ◌++◌, none, some, arith, ◌==◌, All,
  append_assoc,
}
use iodine.Http.Scheme.{or_32, test, scan, scheme_at, scheme_of, past_the_end, url_scheme}

-- Bytes at which no match begins.
abbrev pub IsPlain : List ℕ → Type 0
IsPlain = All (λ c. (c == 0 || or_32 c == b'p') ≡ false)

skip : (bs m : List ℕ) → IsPlain bs → scan test (bs ++ m) ≡ scan test m
unfolding scan
skip [] m h = refl
skip (c ∷ bs) m h = ground (arith, skip bs m h.1, h.0)

abbrev pub proto : List ℕ → List ℕ
proto rest = b'p' ∷ b'r' ∷ b'o' ∷ b't' ∷ b'o' ∷ b'=' ∷ rest

-- The scheme is the one that stands after `proto=`, where nothing before it looks like its start.
pub url_scheme-proto :
    (bs scheme : List ℕ) (tls : Bool)
    → IsPlain bs
    → url_scheme none (some (bs ++ proto scheme)) tls ≡ scheme_at (scheme ++ 0 ∷ [])
unfolding url_scheme scan
url_scheme-proto bs scheme tls h = ap scheme_of (
    ap (scan test) (append_assoc bs (proto scheme) (0 ∷ [])) ∙ skip bs (proto (scheme ++ 0 ∷ [])) h)

-- A header that ends in a `p` is read past its end.
pub url_scheme-overrun :
    (bs : List ℕ) (tls : Bool)
    → IsPlain bs
    → url_scheme none (some (bs ++ b'p' ∷ [])) tls ≡ past_the_end
unfolding url_scheme scan
url_scheme-overrun bs tls h =
    ap scheme_of (ap (scan test) (append_assoc bs (b'p' ∷ []) (0 ∷ [])) ∙ skip bs (b'p' ∷ 0 ∷ []) h)
