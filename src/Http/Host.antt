-- ===== src/Http/Host.antt =====
-- `copy2env` of ext/iodine/iodine_http.c: the Host header as SERVER_NAME and SERVER_PORT.
use iodine.Base.{
  ℕ, ◌≡◌, refl, ap, false, ◌||◌, List, [], ◌∷◌, ◌++◌, Option, none, some, ◌==◌, if◌then◌else◌, All,
}

-- `*pos && *pos != ':'` on the bytes of the header and the zero after them: what is passed, and
-- where the loop stands when it ends.
unfoldable pub host_end : List ℕ → List ℕ × List ℕ
host_end [] = ([], [])
host_end (c ∷ cs) =
    let rest = host_end cs in if c == 0 || c == b':' then ([], c ∷ cs) else (c ∷ rest.0, rest.1)

pub record Server : Type 0 where
  pub name : List ℕ
  pub port : Option (List ℕ)

-- `*pos == 0`, or else a colon.
abbrev pub at_end : List ℕ → List ℕ → List ℕ → Server
at_end value name [] = record { name = value; port = none }
at_end value name (c ∷ rest) =
    if c == 0
    then record { name = value; port = none }
    else record { name = name; port = some rest }

unfoldable pub split_host : List ℕ → Server
unfolding host_end
split_host value = at_end value (host_end value).0 (host_end value).1

-- No zero and no colon.
abbrev pub IsName : List ℕ → Type 0
IsName = All (λ c. (c == 0 || c == b':') ≡ false)

-- A name without a colon and a port after it are told apart whatever the port is.
pub split_host-port :
    (name port : List ℕ)
    → IsName name
    → split_host (name ++ b':' ∷ port) ≡ record { name = name; port = some port }
unfolding split_host
split_host-port name port h = ap (λ r. at_end (name ++ b':' ∷ port) r.0 r.1) (passed name h)
  where
    passed : (n : List ℕ) → IsName n → host_end (n ++ b':' ∷ port) ≡ (n, b':' ∷ port)
    passed [] h = refl
    passed (c ∷ n) h = rw (h.0, passed n h.1) refl

-- A Host header without a colon is the name, and no port is set.
pub split_host-name :
    (name : List ℕ) → IsName name → split_host name ≡ record { name = name; port = none }
unfolding split_host
split_host-name name h = ap (λ r. at_end name r.0 r.1) (passed name h)
  where
    passed : (n : List ℕ) → IsName n → host_end n ≡ (n, [])
    passed [] h = refl
    passed (c ∷ n) h = rw (h.0, passed n h.1) refl

-- The host of an IPv6 address is cut at the first colon inside the brackets.
pub split_host-bracket :
    (digits rest : List ℕ)
    → IsName digits
    → (split_host (b'[' ∷ digits ++ b':' ∷ rest)).name ≡ b'[' ∷ digits
split_host-bracket digits rest h = rw (split_host-port (b'[' ∷ digits) rest (refl, h)) refl
