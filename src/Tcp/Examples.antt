-- ===== src/Tcp/Examples.antt =====
-- A socket that gets some bytes (ext/iodine/iodine_tcp.c).
use iodine.Base.{arith, ◌≡◌, ◌≤◌, true, false, List, [], ◌∷◌, none, some, length, All}
use iodine.Ruby.{object}
use iodine.Store.Counts.{tally}
use iodine.Connection.State.{Answers}
use iodine.Tcp.{Effect, Protocol, World, iodine_max_read}
use iodine.Tcp.Reading.{drain, drain_lem, pieces, joined}
use iodine.Tcp.Balance.{Callback, data_in, drained, calls_of}
use iodine.Tcp.Lifetimes.{succeeds, connect_run, connect_run-even}

abbrev answers : Answers
answers = record {
  on_open = true;
  on_message = true;
  on_drained = false;
  ping = false;
  on_shutdown = false;
  on_close = true;
}

abbrev world : World
world = record { respond_to = λ v. answers; new_object = object 9; is_valid = true }

abbrev protocol : Protocol
protocol = record { uuid = 3; io = object 9; data_ = none; on_ready_set = true }

drain_lem_example :
    (es : List Effect) × (drain iodine_max_read (object 1) 1 (1 ∷ 2 ∷ 3 ∷ []) protocol
      ≡ some (es, []))
    × (joined (pieces es) ≡ 1 ∷ 2 ∷ 3 ∷ [])
    × All (λ b. length b ≤ iodine_max_read) (pieces es)
drain_lem_example =
    drain_lem iodine_max_read (object 1) 1 (1 ∷ 2 ∷ 3 ∷ []) protocol (omega arith) (omega arith)

abbrev callbacks : List Callback
callbacks = data_in (object 1) (some (7 ∷ [])) ∷ drained ∷ []

connect_run-even_example :
    tally (object 5) 2 (calls_of (connect_run 8192 world 3 (object 5) (succeeds callbacks))) ≡ 2
connect_run-even_example =
    connect_run-even 8192 world 3 (object 5) (succeeds callbacks) (object 5) 2
