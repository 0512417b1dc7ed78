-- ===== src/Timers/Tests.antt =====
-- The timers at concrete values.
use by_doing.Prelude.{◌≡◌, some, List, [], ◌∷◌, arith}
use by_doing.Prelude.Int.{pos}
use by_doing.Timers.{Timer, add_timer}
use by_doing.Timers.Order.{Added, due, add_timer-Added}

-- Functions 7 and 8 are due at 2 and 6.
abbrev chain : List Timer
chain = record { slot = 0; jiffies = 2; fn = 7 } ∷ record { slot = 1; jiffies = 4; fn = 8 } ∷ []

-- Function 9 is added for 3.
add_timer_example :
    (ts : List Timer) × (add_timer (pos 3) (some 9) chain ≡ some ([], ts))
    × Added 0 3 9 (due 0 chain) (due 0 ts)
add_timer_example = add_timer-Added 2 9 chain (omega arith)
