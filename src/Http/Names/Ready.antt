-- ===== src/Http/Names/Ready.antt =====
-- The header names that ext/iodine/iodine_http.c keeps ready (`iodine_init_http`), with what it
-- compares them to.
use iodine.Base.{ℕ, List, [], ◌∷◌}

abbrev pub accept : List ℕ
accept = b'a' ∷ b'c' ∷ b'c' ∷ b'e' ∷ b'p' ∷ b't' ∷ []

abbrev pub http_accept : List ℕ
http_accept = b'H' ∷ b'T' ∷ b'T' ∷ b'P' ∷ b'_' ∷ b'A' ∷ b'C' ∷ b'C' ∷ b'E' ∷ b'P' ∷ b'T' ∷ []

abbrev pub user_agent : List ℕ
user_agent = b'u' ∷ b's' ∷ b'e' ∷ b'r' ∷ b'-' ∷ b'a' ∷ b'g' ∷ b'e' ∷ b'n' ∷ b't' ∷ []

abbrev pub http_user_agent : List ℕ
http_user_agent =
    b'H' ∷ b'T' ∷ b'T' ∷ b'P' ∷ b'_' ∷ b'U' ∷ b'S' ∷ b'E' ∷ b'R' ∷ b'_' ∷ b'A' ∷ b'G' ∷ b'E' ∷ b'N'
    ∷ b'T' ∷ []

abbrev pub accept_encoding : List ℕ
accept_encoding =
    b'a' ∷ b'c' ∷ b'c' ∷ b'e' ∷ b'p' ∷ b't' ∷ b'-' ∷ b'e' ∷ b'n' ∷ b'c' ∷ b'o' ∷ b'd' ∷ b'i' ∷ b'n'
    ∷ b'g' ∷ []

abbrev pub http_accept_encoding : List ℕ
http_accept_encoding =
    b'H' ∷ b'T' ∷ b'T' ∷ b'P' ∷ b'_' ∷ b'A' ∷ b'C' ∷ b'C' ∷ b'E' ∷ b'P' ∷ b'T' ∷ b'_' ∷ b'E' ∷ b'N'
    ∷ b'C' ∷ b'O' ∷ b'D' ∷ b'I' ∷ b'N' ∷ b'G' ∷ []

abbrev pub accept_language : List ℕ
accept_language =
    b'a' ∷ b'c' ∷ b'c' ∷ b'e' ∷ b'p' ∷ b't' ∷ b'-' ∷ b'l' ∷ b'a' ∷ b'n' ∷ b'g' ∷ b'u' ∷ b'a' ∷ b'g'
    ∷ b'e' ∷ []

abbrev pub http_accept_language : List ℕ
http_accept_language =
    b'H' ∷ b'T' ∷ b'T' ∷ b'P' ∷ b'_' ∷ b'A' ∷ b'C' ∷ b'C' ∷ b'E' ∷ b'P' ∷ b'T' ∷ b'_' ∷ b'L' ∷ b'A'
    ∷ b'N' ∷ b'G' ∷ b'U' ∷ b'A' ∷ b'G' ∷ b'E' ∷ []

abbrev pub connection : List ℕ
connection = b'c' ∷ b'o' ∷ b'n' ∷ b'n' ∷ b'e' ∷ b'c' ∷ b't' ∷ b'i' ∷ b'o' ∷ b'n' ∷ []

abbrev pub http_connection : List ℕ
http_connection =
    b'H' ∷ b'T' ∷ b'T' ∷ b'P' ∷ b'_' ∷ b'C' ∷ b'O' ∷ b'N' ∷ b'N' ∷ b'E' ∷ b'C' ∷ b'T' ∷ b'I' ∷ b'O'
    ∷ b'N' ∷ []

abbrev pub host : List ℕ
host = b'h' ∷ b'o' ∷ b's' ∷ b't' ∷ []

abbrev pub http_host : List ℕ
http_host = b'H' ∷ b'T' ∷ b'T' ∷ b'P' ∷ b'_' ∷ b'H' ∷ b'O' ∷ b'S' ∷ b'T' ∷ []

abbrev pub http_prefix : List ℕ
http_prefix = b'H' ∷ b'T' ∷ b'T' ∷ b'P' ∷ b'_' ∷ []
