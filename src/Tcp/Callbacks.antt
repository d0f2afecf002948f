-- ===== src/Tcp/Callbacks.antt =====
-- The callbacks of a listening and of a connecting socket, and the calls that set them up
-- (ext/iodine/iodine_tcp.c).
use iodine.Base.{ℕ, Bool, List, [], ◌∷◌, ◌++◌, Option, none, some, if◌then◌else◌}
use iodine.Ruby.{Value, is_special}
use iodine.Store.Counts.{add, drop}
use iodine.Tcp.{Effect, stores, Protocol, World, attach_uuid}

-- iodine_tcp_on_open: `handler` is what the block of `listen` gave, nil after an exception.
unfoldable pub tcp_on_open : World → Bool → ℕ → Value → List Effect × Option Protocol
unfolding attach_uuid
tcp_on_open w valid uuid handler =
    let (effects, p) = attach_uuid w uuid handler in
    if valid then (stores (add handler) ∷ effects ++ stores (drop handler) ∷ [], p) else ([], none)

unfoldable pub tcp_on_finish : Value → List Effect
tcp_on_finish udata = stores (drop udata) ∷ []

unfoldable pub tcp_on_connect : World → ℕ → Value → List Effect × Option Protocol
unfolding attach_uuid
tcp_on_connect w uuid udata =
    let (effects, p) = attach_uuid w uuid udata in (effects ++ stores (drop udata) ∷ [], p)

unfoldable pub tcp_on_fail : Value → List Effect
tcp_on_fail udata = stores (drop udata) ∷ []

-- What `listen` and `connect` do before they hand the sockets to facil.io.
unfoldable pub tcp_listen : Value → List Effect
tcp_listen handler = stores (add handler) ∷ []

unfoldable pub tcp_connect : Value → List Effect
tcp_connect handler = stores (add handler) ∷ []

pub data Error : Type 0 where
  type_error argument_error io_error : Error

pub data Reply : Type 0 where
  attached : Value → Option Protocol → Reply
  raised : Error → Reply

-- iodine_tcp_attach_fd: `other` is what `dup` gave, `none` for -1.
unfoldable pub tcp_attach_fd : World → Bool → Option ℕ → Value → List Effect × Reply
unfolding attach_uuid
tcp_attach_fd w is_fixnum other handler =
    if is_fixnum
    then (if is_special handler then ([], raised argument_error) else elim other [
      | none ↦ (stores (add handler) ∷ [], raised io_error)
      | some uuid ↦
          let (effects, p) = attach_uuid w uuid handler in
          (stores (add handler) ∷ effects ++ stores (drop handler) ∷ [], attached handler p)
    ])
    else ([], raised type_error)
