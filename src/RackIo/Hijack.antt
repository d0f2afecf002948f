-- ===== src/RackIo/Hijack.antt =====
-- `rio_get_io` of ext/iodine/iodine_rack_io.c: the hijacking of a request's socket.
use iodine.Base.{
  ℕ, ◌≡◌, refl, ap, Bool, true, List, [], ◌∷◌, ◌++◌, Option, none, some, if◌then◌else◌, All,
}
use iodine.Ruby.{Value, qnil, qfalse}

-- The request that the object still has, what it wrote to the `env`, and the requests that were
-- hijacked so far.
pub record Hijacking : Type 0 where
  pub request : Option ℕ
  pub hijack_io : Value
  pub hijack_cb : Value
  pub hijacked : List ℕ

abbrev pub callback_or : Option Value → Value → Value
callback_or none old = old
callback_or (some cb) old = cb

-- The socket that Ruby makes of a descriptor is an argument, and so is whether it has the class.
unfoldable pub rio_get_io : Bool → (ℕ → Value) → Option Value → Hijacking → Value × Hijacking
rio_get_io has_class for_fd callback h =
    if has_class
    then elim h.request [
      | none ↦ (h.hijack_io, h)
      | some r ↦ (
        for_fd r,
        record {
          request = none;
          hijack_io = for_fd r;
          hijack_cb = callback_or callback h.hijack_cb;
          hijacked = h.hijacked ++ r ∷ [];
        },
      )
    ]
    else (qfalse, h)

-- close_rack_io
unfoldable pub close_rack_io : Hijacking → Hijacking
close_rack_io h = record h { request = none }

-- new_rack_io
unfoldable pub new_rack_io : ℕ → Hijacking
new_rack_io r = record { request = some r; hijack_io = qnil; hijack_cb = qnil; hijacked = [] }

-- The answers to several calls, and what is left.
pub get_all : (ℕ → Value) → List (Option Value) → Hijacking → List Value × Hijacking
unfolding rio_get_io
get_all for_fd [] h = ([], h)
get_all for_fd (cb ∷ cbs) h =
    let first = rio_get_io true for_fd cb h in
    let rest = get_all for_fd cbs first.1 in (first.0 ∷ rest.0, rest.1)

-- A request that is already hijacked.
abbrev taken : Value → Value → List ℕ → Hijacking
taken io cb rs = record { request = none; hijack_io = io; hijack_cb = cb; hijacked = rs }

get_all_again :
    (for_fd : ℕ → Value) (cbs : List (Option Value)) (io cb : Value) (rs : List ℕ)
    → let r = get_all for_fd cbs (taken io cb rs) in All (λ v. v ≡ io) r.0 × (r.1 ≡ taken io cb rs)
unfolding get_all rio_get_io
get_all_again for_fd [] io cb rs = (tt, refl)
get_all_again for_fd (c ∷ cbs) io cb rs =
    let (same, left) = get_all_again for_fd cbs io cb rs in ((refl, same), left)

-- However often a request is hijacked, facil.io gives it up once, every call answers the same
-- socket, and the first callback is the one that is kept.
pub rio_get_io-once :
    (for_fd : ℕ → Value) (r : ℕ) (cb : Option Value) (cbs : List (Option Value))
    → let (sockets, h) = get_all for_fd (cb ∷ cbs) (new_rack_io r) in
      All (λ v. v ≡ for_fd r) sockets
      × (h.hijacked ≡ r ∷ [])
      × (h.hijack_io ≡ for_fd r)
      × (h.hijack_cb ≡ callback_or cb qnil)
unfolding get_all new_rack_io rio_get_io
rio_get_io-once for_fd r cb cbs =
    let (same, left) = get_all_again for_fd cbs (for_fd r) (callback_or cb qnil) (r ∷ []) in
    (
      (refl, same),
      ap (λ h. h.hijacked) left,
      ap (λ h. h.hijack_io) left,
      ap (λ h. h.hijack_cb) left,
    )
