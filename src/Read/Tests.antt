-- ===== src/Read/Tests.antt =====
-- The readers at concrete schedules.
use by_doing.Prelude.{◌≡◌, arith, some, List, [], ◌∷◌, ◌++◌}
use by_doing.Read.{Event, deliver, interrupted, Received, read_message, readline_2, read_line}
use by_doing.Read.Collect.{delivers, NoFailure, HasMessage, message, read_message-round_trip}
use by_doing.Read.Buffered.{readline, readline-drops}
use by_doing.Read.Line.{
  Delivers, HasRead, readline_2_lem, read_line_lem, carriage_return_line_feed, ending_bytes,
}

-- Calls that find up to two bytes each, one of them interrupted.
abbrev schedule : List Event
schedule =
    deliver 1
    ∷ interrupted
    ∷ deliver 0
    ∷ deliver 1
    ∷ deliver 1
    ∷ deliver 1
    ∷ deliver 1
    ∷ deliver 1
    ∷ deliver 1
    ∷ deliver 1
    ∷ deliver 1
    ∷ deliver 1
    ∷ []

message_example :
    (r : Received) × (read_message schedule (message 0 0 0 1 (7 ∷ 8 ∷ 9 ∷ []) ++ (5 ∷ [])) 16
      ≡ some r)
    × HasMessage (7 ∷ 8 ∷ 9 ∷ []) (5 ∷ []) r
unfolding delivers NoFailure
message_example =
    read_message-round_trip schedule 0 0 0 1 (7 ∷ 8 ∷ 9 ∷ []) (5 ∷ []) 16 tt (omega arith)
      (omega arith) (omega arith)

abbrev steady : List Event
steady = deliver 0 ∷ deliver 0 ∷ deliver 0 ∷ deliver 0 ∷ []

-- The line just fits: four bytes go to a buffer of three.
line_2_example :
    (r : Received) × (readline_2 steady (97 ∷ 98 ∷ 10 ∷ 99 ∷ []) 3 ≡ some r)
    × HasRead (97 ∷ 98 ∷ []) (99 ∷ []) r
unfolding Delivers
line_2_example =
    readline_2_lem steady (97 ∷ 98 ∷ []) (99 ∷ []) 3 tt
      (omega arith, omega arith, (omega arith, omega arith, tt)) (omega arith)

read_line_example :
    (r : Received) × (read_line steady
        ((97 ∷ []) ++ (ending_bytes carriage_return_line_feed ++ (99 ∷ [])))
        3
      ≡ some r)
    × HasRead (97 ∷ []) (99 ∷ []) r
unfolding Delivers
read_line_example =
    read_line_lem carriage_return_line_feed steady (97 ∷ []) (99 ∷ []) 3 tt
      (omega arith, omega arith, tt) (omega arith)

-- Two lines of one byte come at once.
readline_example :
    (r : Received) × (readline (deliver 9 ∷ []) ((97 ∷ []) ++ (10 ∷ 98 ∷ 10 ∷ [])) 8 ≡ some r)
    × HasRead (97 ∷ []) [] r
readline_example =
    readline-drops [] 9 8 (97 ∷ []) (98 ∷ 10 ∷ []) (omega arith, omega arith, tt) (omega arith)
      (omega arith)
