-- ===== src/Clock/Floppy.antt =====
-- A drive's motor over the ticks.
use by_doing.Prelude.{ℕ, zero, suc, ◌≡◌, refl, true, Option, none, some, arith}
use by_doing.Scheduler.{Kernel}
use by_doing.Scheduler.Calls.{wake_up}
use by_doing.Clock.{Drive, run_drive}

-- A number of ticks.
unfoldable pub run_ticks : ℕ → Kernel → Drive → Option (Kernel × Drive)
run_ticks zero k d = some (k, d)
run_ticks (suc n) k d = elim (run_drive k d) [ none ↦ none | some (k', d') ↦ run_ticks n k' d' ]

drive_counts :
    (k : Kernel) (d : Drive) (n : ℕ)
    → d.motor ≡ true
    → d.mon_timer ≡ suc (suc n)
    → run_drive k d ≡ some (k, record d { mon_timer = suc n })
unfolding run_drive
drive_counts k d n on at = ground (arith, on, at)

drive_ends :
    (k k' : Kernel) (d : Drive) (head : Option ℕ)
    → d.motor ≡ true
    → d.mon_timer ≡ 1
    → wake_up k d.wait_motor ≡ some (head, k')
    → run_drive k d ≡ some (k', record d { mon_timer = 0; wait_motor = head })
unfolding run_drive
drive_ends k k' d head on at run = ground (arith, on, at, run)

-- A motor that was started for a number of ticks above 0 wakes the queue of its drive at the last of them
-- and not before.
pub run_ticks-wake_up :
    (n : ℕ) (k k' : Kernel) (d : Drive) (head : Option ℕ)
    → d.motor ≡ true
    → d.mon_timer ≡ suc n
    → wake_up k d.wait_motor ≡ some (head, k')
    → run_ticks (suc n) k d ≡ some (k', record d { mon_timer = 0; wait_motor = head })
unfolding run_ticks
run_ticks-wake_up zero k k' d head on at run = ground (arith, drive_ends k k' d head on at run)
run_ticks-wake_up (suc n) k k' d head on at run =
    let rest = run_ticks-wake_up n k k' (record d { mon_timer = suc n }) head on refl run in
    ground (arith, drive_counts k d n on at, rest)
