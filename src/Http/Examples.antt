-- ===== src/Http/Examples.antt =====
-- Requests and headers of ext/iodine/iodine_http.c on concrete arguments.
use iodine.Base.{ℕ, ◌≡◌, refl, false, List, [], ◌∷◌, ◌++◌, map, All}
use iodine.Http.Headers.{
  text_key, Header, text, array, item, none_left, nil_header, set_headers, set_text, to_lower,
}
use iodine.Http.Headers.Clean.{set_headers-IsSafe, set_text_lem, IsSafe, LinesOf, with_name}
use iodine.Http.Response.{Bodies, Facil, Handle, Body, response_send, none_type}
use iodine.Http.Response.Sending.{sent_bytes, reply_of, content, response_send-content}
use iodine.Http.Request.{new_handle}

abbrev name : List ℕ
name = b'X' ∷ b'-' ∷ b'a' ∷ []

-- A value of two lines, and an Array in an Array.
abbrev two_lines : List ℕ
two_lines = b'1' ∷ b'\n' ∷ b'2' ∷ []

abbrev nested : Header
nested = array (item (text two_lines) (item (array (item nil_header none_left)) none_left))

set_text_lem_example :
    (ls : List (List ℕ)) × LinesOf two_lines ls
    × (set_text name two_lines [] ≡ [] ++ map (with_name (map to_lower name)) ls)
set_text_lem_example = set_text_lem name two_lines []

set_headers-IsSafe_example : All IsSafe (set_headers ((text_key name, nested) ∷ []) [])
set_headers-IsSafe_example = set_headers-IsSafe ((text_key name, nested) ∷ []) [] tt

-- facil.io as far as the requests below need it.
abbrev facil : Facil
facil = record {
  atol = λ s. 200;
  encoding_length = λ calls. 0;
  without_encoding = λ calls. calls;
  sendfile_fails = λ root file. false;
}

abbrev ok_handle : Handle
ok_handle = new_handle none_type

abbrev two_pieces : Body
two_pieces =
    Body.array
      (Bodies.item (Body.text (b'a' ∷ [])) (Bodies.item (Body.text (b'b' ∷ [])) Bodies.none_left))

response_send-content_example :
    sent_bytes (reply_of facil (response_send two_pieces ok_handle)) ≡ content two_pieces
response_send-content_example = response_send-content facil two_pieces ok_handle refl
