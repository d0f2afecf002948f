-- ===== src/Http/Env/Keys.antt =====
-- The names of the `env` (ext/iodine/iodine_http.c, `iodine_init_http`), and of the headers that
-- `copy2env` asks for.
use iodine.Base.{ℕ, List, [], ◌∷◌}

abbrev pub request_method : List ℕ
request_method =
    b'R' ∷ b'E' ∷ b'Q' ∷ b'U' ∷ b'E' ∷ b'S' ∷ b'T' ∷ b'_' ∷ b'M' ∷ b'E' ∷ b'T' ∷ b'H' ∷ b'O' ∷ b'D'
    ∷ []

abbrev pub path_info : List ℕ
path_info = b'P' ∷ b'A' ∷ b'T' ∷ b'H' ∷ b'_' ∷ b'I' ∷ b'N' ∷ b'F' ∷ b'O' ∷ []

abbrev pub query_string : List ℕ
query_string =
    b'Q' ∷ b'U' ∷ b'E' ∷ b'R' ∷ b'Y' ∷ b'_' ∷ b'S' ∷ b'T' ∷ b'R' ∷ b'I' ∷ b'N' ∷ b'G' ∷ []

abbrev pub server_name : List ℕ
server_name = b'S' ∷ b'E' ∷ b'R' ∷ b'V' ∷ b'E' ∷ b'R' ∷ b'_' ∷ b'N' ∷ b'A' ∷ b'M' ∷ b'E' ∷ []

abbrev pub server_port : List ℕ
server_port = b'S' ∷ b'E' ∷ b'R' ∷ b'V' ∷ b'E' ∷ b'R' ∷ b'_' ∷ b'P' ∷ b'O' ∷ b'R' ∷ b'T' ∷ []

abbrev pub content_length : List ℕ
content_length =
    b'C' ∷ b'O' ∷ b'N' ∷ b'T' ∷ b'E' ∷ b'N' ∷ b'T' ∷ b'_' ∷ b'L' ∷ b'E' ∷ b'N' ∷ b'G' ∷ b'T' ∷ b'H'
    ∷ []

abbrev pub content_type : List ℕ
content_type =
    b'C' ∷ b'O' ∷ b'N' ∷ b'T' ∷ b'E' ∷ b'N' ∷ b'T' ∷ b'_' ∷ b'T' ∷ b'Y' ∷ b'P' ∷ b'E' ∷ []

abbrev pub server_protocol : List ℕ
server_protocol =
    b'S' ∷ b'E' ∷ b'R' ∷ b'V' ∷ b'E' ∷ b'R' ∷ b'_' ∷ b'P' ∷ b'R' ∷ b'O' ∷ b'T' ∷ b'O' ∷ b'C' ∷ b'O'
    ∷ b'L' ∷ []

abbrev pub http_version : List ℕ
http_version =
    b'H' ∷ b'T' ∷ b'T' ∷ b'P' ∷ b'_' ∷ b'V' ∷ b'E' ∷ b'R' ∷ b'S' ∷ b'I' ∷ b'O' ∷ b'N' ∷ []

abbrev pub remote_addr : List ℕ
remote_addr = b'R' ∷ b'E' ∷ b'M' ∷ b'O' ∷ b'T' ∷ b'E' ∷ b'_' ∷ b'A' ∷ b'D' ∷ b'D' ∷ b'R' ∷ []

abbrev pub iodine_request_id : List ℕ
iodine_request_id =
    b'I' ∷ b'O' ∷ b'D' ∷ b'I' ∷ b'N' ∷ b'E' ∷ b'_' ∷ b'R' ∷ b'E' ∷ b'Q' ∷ b'U' ∷ b'E' ∷ b'S' ∷ b'T'
    ∷ b'_' ∷ b'I' ∷ b'D' ∷ []

abbrev pub iodine_has_body : List ℕ
iodine_has_body =
    b'I' ∷ b'O' ∷ b'D' ∷ b'I' ∷ b'N' ∷ b'E' ∷ b'_' ∷ b'H' ∷ b'A' ∷ b'S' ∷ b'_' ∷ b'B' ∷ b'O' ∷ b'D'
    ∷ b'Y' ∷ []

abbrev pub url_scheme_name : List ℕ
url_scheme_name =
    b'r' ∷ b'a' ∷ b'c' ∷ b'k' ∷ b'.' ∷ b'u' ∷ b'r' ∷ b'l' ∷ b'_' ∷ b's' ∷ b'c' ∷ b'h' ∷ b'e' ∷ b'm'
    ∷ b'e' ∷ []

abbrev pub rack_input : List ℕ
rack_input = b'r' ∷ b'a' ∷ b'c' ∷ b'k' ∷ b'.' ∷ b'i' ∷ b'n' ∷ b'p' ∷ b'u' ∷ b't' ∷ []

abbrev pub rack_hijack : List ℕ
rack_hijack = b'r' ∷ b'a' ∷ b'c' ∷ b'k' ∷ b'.' ∷ b'h' ∷ b'i' ∷ b'j' ∷ b'a' ∷ b'c' ∷ b'k' ∷ []

abbrev pub rack_upgrade : List ℕ
rack_upgrade =
    b'r' ∷ b'a' ∷ b'c' ∷ b'k' ∷ b'.' ∷ b'u' ∷ b'p' ∷ b'g' ∷ b'r' ∷ b'a' ∷ b'd' ∷ b'e' ∷ []

abbrev pub rack_upgrade_q : List ℕ
rack_upgrade_q =
    b'r' ∷ b'a' ∷ b'c' ∷ b'k' ∷ b'.' ∷ b'u' ∷ b'p' ∷ b'g' ∷ b'r' ∷ b'a' ∷ b'd' ∷ b'e' ∷ b'?' ∷ []

abbrev pub rack_version : List ℕ
rack_version =
    b'r' ∷ b'a' ∷ b'c' ∷ b'k' ∷ b'.' ∷ b'v' ∷ b'e' ∷ b'r' ∷ b's' ∷ b'i' ∷ b'o' ∷ b'n' ∷ []

abbrev pub script_name : List ℕ
script_name = b'S' ∷ b'C' ∷ b'R' ∷ b'I' ∷ b'P' ∷ b'T' ∷ b'_' ∷ b'N' ∷ b'A' ∷ b'M' ∷ b'E' ∷ []

abbrev pub rack_errors : List ℕ
rack_errors = b'r' ∷ b'a' ∷ b'c' ∷ b'k' ∷ b'.' ∷ b'e' ∷ b'r' ∷ b'r' ∷ b'o' ∷ b'r' ∷ b's' ∷ []

abbrev pub rack_hijack_q : List ℕ
rack_hijack_q =
    b'r' ∷ b'a' ∷ b'c' ∷ b'k' ∷ b'.' ∷ b'h' ∷ b'i' ∷ b'j' ∷ b'a' ∷ b'c' ∷ b'k' ∷ b'?' ∷ []

abbrev pub rack_multiprocess : List ℕ
rack_multiprocess =
    b'r' ∷ b'a' ∷ b'c' ∷ b'k' ∷ b'.' ∷ b'm' ∷ b'u' ∷ b'l' ∷ b't' ∷ b'i' ∷ b'p' ∷ b'r' ∷ b'o' ∷ b'c'
    ∷ b'e' ∷ b's' ∷ b's' ∷ []

abbrev pub rack_multithread : List ℕ
rack_multithread =
    b'r' ∷ b'a' ∷ b'c' ∷ b'k' ∷ b'.' ∷ b'm' ∷ b'u' ∷ b'l' ∷ b't' ∷ b'i' ∷ b't' ∷ b'h' ∷ b'r' ∷ b'e'
    ∷ b'a' ∷ b'd' ∷ []

abbrev pub rack_run_once : List ℕ
rack_run_once =
    b'r' ∷ b'a' ∷ b'c' ∷ b'k' ∷ b'.' ∷ b'r' ∷ b'u' ∷ b'n' ∷ b'_' ∷ b'o' ∷ b'n' ∷ b'c' ∷ b'e' ∷ []

abbrev pub xsendfile_type : List ℕ
xsendfile_type =
    b's' ∷ b'e' ∷ b'n' ∷ b'd' ∷ b'f' ∷ b'i' ∷ b'l' ∷ b'e' ∷ b'.' ∷ b't' ∷ b'y' ∷ b'p' ∷ b'e' ∷ []

abbrev pub xsendfile_type_header : List ℕ
xsendfile_type_header =
    b'H' ∷ b'T' ∷ b'T' ∷ b'P' ∷ b'_' ∷ b'X' ∷ b'_' ∷ b'S' ∷ b'E' ∷ b'N' ∷ b'D' ∷ b'F' ∷ b'I' ∷ b'L'
    ∷ b'E' ∷ b'_' ∷ b'T' ∷ b'Y' ∷ b'P' ∷ b'E' ∷ []

abbrev pub xsendfile : List ℕ
xsendfile = b'x' ∷ b'-' ∷ b's' ∷ b'e' ∷ b'n' ∷ b'd' ∷ b'f' ∷ b'i' ∷ b'l' ∷ b'e' ∷ []

abbrev pub host_name : List ℕ
host_name = b'h' ∷ b'o' ∷ b's' ∷ b't' ∷ []

abbrev pub content_length_name : List ℕ
content_length_name =
    b'c' ∷ b'o' ∷ b'n' ∷ b't' ∷ b'e' ∷ b'n' ∷ b't' ∷ b'-' ∷ b'l' ∷ b'e' ∷ b'n' ∷ b'g' ∷ b't' ∷ b'h'
    ∷ []

abbrev pub content_type_name : List ℕ
content_type_name =
    b'c' ∷ b'o' ∷ b'n' ∷ b't' ∷ b'e' ∷ b'n' ∷ b't' ∷ b'-' ∷ b't' ∷ b'y' ∷ b'p' ∷ b'e' ∷ []

abbrev pub forwarded_name : List ℕ
forwarded_name = b'f' ∷ b'o' ∷ b'r' ∷ b'w' ∷ b'a' ∷ b'r' ∷ b'd' ∷ b'e' ∷ b'd' ∷ []
