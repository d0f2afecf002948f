-- ===== src/Http/Response/Sending.antt =====
-- What is sent as the body of a response (`ruby2c_response_send` with
-- `iodine_perform_handle_action`, ext/iodine/iodine_http.c).
use iodine.Base.{ℕ, ◌≡◌, refl, ap, true, false, List, [], ◌∷◌, ◌++◌, Option, none, some}
use iodine.Http.Response.{
  Body, nil_body, text, array, object, Bodies, none_left, item, Handle, empty, response_send,
  is_bodiless, Reply, body_sent, finished, Facil, perform_handle_action, write_pieces, pieces_of,
  send_unpacked, send_checked, close_body,
}

-- The Strings of an Array, joined: all else that stands in it is left out.
abbrev strings : Bodies → List ℕ
strings none_left = []
strings (item (text s) bs) = s ++ strings bs
strings (item b bs) = strings bs

-- The content of a body, if it is one that can be sent.
abbrev own_content : Body → Option (List ℕ)
own_content nil_body = none
own_content (text s) = some s
own_content (array bs) = some (strings bs)
own_content (object (some ps) closes) = some (write_pieces ps)
own_content (object none closes) = none

-- An Array with one item stands for the item.
pub content : Body → Option (List ℕ)
content (array (item b none_left)) = own_content b
content b = own_content b

-- The bytes of the body that a reply has.
abbrev pub sent_bytes : Option Reply → Option (List ℕ)
sent_bytes (some (body_sent s)) = some s
sent_bytes (some finished) = some []
sent_bytes r = none

abbrev pub reply_of : Facil → Option Handle → Option Reply
reply_of F none = none
reply_of F (some h) = (perform_handle_action F h).0

strings_lem : (bs : Bodies) → write_pieces (pieces_of bs) ≡ strings bs
strings_lem none_left = refl
strings_lem (item (text s) bs) = ap (λ t. s ++ t) (strings_lem bs)
strings_lem (item nil_body bs) = strings_lem bs
strings_lem (item (array xs) bs) = strings_lem bs
strings_lem (item (object ps closes) bs) = strings_lem bs

-- Where a status has a body, the bytes that are sent are the content of the application's body; a
-- body without content is refused.
pub response_send-content :
    (F : Facil) (b : Body) (h : Handle)
    → is_bodiless h.status ≡ false
    → sent_bytes (reply_of F (response_send b h)) ≡ content b
unfolding response_send perform_handle_action content
response_send-content F b h has = rw has (checked b)
  where
    unpacked : (b : Body) → sent_bytes (reply_of F (send_unpacked b h)) ≡ own_content b
    unpacked nil_body = refl
    unpacked (text []) = refl
    unpacked (text (c ∷ s)) = refl
    unpacked (array bs) = ap some (strings_lem bs)
    unpacked (object (some ps) true) = refl
    unpacked (object (some ps) false) = refl
    unpacked (object none closes) = refl

    checked : (b : Body) → sent_bytes (reply_of F (send_checked b h)) ≡ content b
    checked (array none_left) = refl
    checked (array (item b none_left)) = unpacked b
    checked (array (item b (item c bs))) = unpacked (array (item b (item c bs)))
    checked nil_body = refl
    checked (text s) = unpacked (text s)
    checked (object ps closes) = unpacked (object ps closes)

-- An informational status, 204 and 304 never send a body, whatever the application answered.
pub response_send_bodiless :
    (F : Facil) (b : Body) (h : Handle)
    → is_bodiless h.status ≡ true
    → reply_of F (response_send b h) ≡ some finished
unfolding response_send perform_handle_action
response_send_bodiless F b h bodiless = rw bodiless (closed b)
  where
    closed :
        (b : Body) → reply_of F (some (close_body b (record h { kind = empty }))) ≡ some finished
    closed nil_body = refl
    closed (text s) = refl
    closed (array bs) = refl
    closed (object ps true) = refl
    closed (object ps false) = refl
