-- ===== src/Clock/Tests.antt =====
-- `do_timer` and a floppy drive at concrete values.
use by_doing.Prelude.{◌≡◌, refl, true, none, some, [], ◌∷◌}
use by_doing.Scheduler.{
  Kernel, schedule, check_tasks, check_task, has_signal, pick, choose, recharge,
}
use by_doing.Scheduler.Calls.{tick, wake_up}
use by_doing.Scheduler.Samples.{family}
use by_doing.Timers.{run_timers, expire}
use by_doing.Clock.{Drive, Clock, do_timer, do_floppy_timer, run_drive, any_motor}

abbrev drive : Drive
drive = record { wait_motor = none; mon_timer = 2; moff_timer = 0; motor = true }

abbrev clock : Clock
clock = record {
  beepcount = 0;
  timers = record { slot = 0; jiffies = 1; fn = 7 } ∷ [];
  drives = drive ∷ [];
}

-- The only timer is due, and the drive has one tick left.
do_timer_run :
    (k : Kernel) × (do_timer family clock true
      ≡ some (
        7 ∷ [],
        record { beepcount = 0; timers = []; drives = record drive { mon_timer = 1 } ∷ [] },
        k,
      ))
unfolding do_timer do_floppy_timer run_drive any_motor run_timers expire tick wake_up schedule
    check_tasks check_task has_signal pick choose recharge
do_timer_run = (_, refl)
