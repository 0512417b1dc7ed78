-- ===== src/Buffer/Tests.antt =====
-- Runs of the buffer code, and its theorems at concrete values.
use by_doing.Prelude.{◌≡◌, refl, arith, none, some, List, [], ◌∷◌}
use by_doing.Prelude.Int.{pos}
use by_doing.Buffer.{Buffer, make_room, append, socket_read, find_crlf}
use by_doing.Buffer.Window.{IsValid, contents}
use by_doing.Buffer.Room.{Roomy, make_room_lem}
use by_doing.Buffer.Append.{Appended, Adds, append-Adds}
use by_doing.Buffer.Read.{socket_read-Appended}
use by_doing.Buffer.Queue.{
  Call, put, put_char, receive, take_char, run, queue_run, total_added, run_refines,
}
use by_doing.Buffer.Plenty.{plenty, plenty-IsWilling}

-- Six bytes with "x\r\n" readable in places 2 to 4.
abbrev line : Buffer
line = record {
  bytes = 9 ∷ 9 ∷ 120 ∷ 13 ∷ 10 ∷ 9 ∷ [];
  total_size = 6;
  read_index = 2;
  write_index = 5;
}

line-IsValid : IsValid line
line-IsValid = omega arith

compacts :
    make_room plenty line 3
    ≡ some
        (record line { bytes = 120 ∷ 13 ∷ 10 ∷ 13 ∷ 10 ∷ 9 ∷ []; read_index = 0; write_index = 3 })
unfolding make_room
compacts = refl

grows :
    make_room plenty line 4
    ≡ some (record line { bytes = 9 ∷ 9 ∷ 120 ∷ 13 ∷ 10 ∷ 9 ∷ 0 ∷ 0 ∷ 0 ∷ 0 ∷ []; total_size = 10 })
unfolding make_room
grows = refl

finds : find_crlf line ≡ some 1
unfolding find_crlf
finds = refl

make_room_example : (b : Buffer) × (make_room plenty line 4 ≡ some b) × Roomy plenty line 4 b
make_room_example = make_room_lem plenty line 4 line-IsValid (omega arith)

append_example : Adds plenty line (1 ∷ 2 ∷ []) (append plenty line (some (1 ∷ 2 ∷ [])))
append_example = append-Adds plenty line (1 ∷ 2 ∷ []) line-IsValid (omega arith)

-- Three bytes arrive where one fits.
socket_read_example :
    (b : Buffer) × (socket_read plenty line (some (1 ∷ 2 ∷ 3 ∷ [])) ≡ some (pos 3, b))
    × Appended line (1 ∷ 2 ∷ 3 ∷ []) b
socket_read_example =
    socket_read-Appended plenty line (1 ∷ 2 ∷ 3 ∷ []) plenty-IsWilling line-IsValid (omega arith)

abbrev calls : List Call
calls = put (1 ∷ 2 ∷ 3 ∷ []) ∷ take_char ∷ put_char 4 ∷ receive (5 ∷ 6 ∷ []) ∷ take_char ∷ []

run_example :
    (b : Buffer) × (run plenty line calls ≡ some (none ∷ some 120 ∷ none ∷ none ∷ some 13 ∷ [], b))
    × IsValid b
    × (contents b ≡ 10 ∷ 1 ∷ 2 ∷ 3 ∷ 4 ∷ 5 ∷ 6 ∷ [])
unfolding queue_run total_added
run_example =
    run_refines plenty line calls (none ∷ some 120 ∷ none ∷ none ∷ some 13 ∷ [])
      (10 ∷ 1 ∷ 2 ∷ 3 ∷ 4 ∷ 5 ∷ 6 ∷ []) plenty-IsWilling line-IsValid (omega arith) refl
