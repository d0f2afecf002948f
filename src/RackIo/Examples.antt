-- ===== src/RackIo/Examples.antt =====
-- A request body of ext/iodine/iodine_rack_io.c read in several ways.
use iodine.Base.{arith, ℕ, ◌≡◌, List, [], ◌∷◌, some, All}
use iodine.Fio.Stream.{list_stream}
use iodine.RackIo.{Input, rio_each}
use iodine.RackIo.Reading.{on, read_chunks, read_chunks_lem}
use iodine.RackIo.Lines.{IsLine, joined, rio_each_lem}

-- Two lines, the second without an end.
abbrev body : List ℕ
body = b'a' ∷ b'\n' ∷ b'b' ∷ b'c' ∷ []

rio_each_lem_example :
    (ls : List (List ℕ)) × (j : Input list_stream) × (rio_each list_stream 9
        (on list_stream (body, b'c' ∷ []))
      ≡ some (ls, j))
    × All IsLine ls
    × (joined ls ≡ body)
rio_each_lem_example = rio_each_lem list_stream 9 (body, b'c' ∷ []) (omega arith)

read_chunks_lem_example : read_chunks list_stream 9 3 (on list_stream (body, body)) ≡ some body
read_chunks_lem_example = read_chunks_lem list_stream 9 2 (body, body) (omega arith)
