-- ===== src/Connection/Creation.antt =====
-- `iodine_connection_new` (ext/iodine/iodine_connection.c).
use iodine.Base.{List, [], ◌∷◌, Option, none, some, if◌then◌else◌}
use iodine.Ruby.{Value, is_nil}
use iodine.Store.Counts.{Call, add}
use iodine.Connection.State.{Info, Answers, Data}

-- `made` is what `Iodine::Connection.new` gave, nil after an exception; `respond_to` is asked
-- about the handler. The object is kept in the storage until the connection closes.
unfoldable pub connection_new : (Value → Answers) → Value → Info → List Call × Option Data
connection_new respond_to made info = if is_nil made then ([], none) else (
  add made ∷ [],
  some (record { info = info; answers = respond_to info.handler; subscriptions = [] }),
)
