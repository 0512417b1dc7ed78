-- ===== src/Clock.antt =====
-- OS/process/sched.c: `do_timer` as a whole, with the beep and the floppy drives' timers. A write to a port
-- and the end of a beep have no effect on what is modelled. The upper half of `current_DOR` is the motors of the drives.
pub mod Floppy
mod Tests
use by_doing.Prelude.{
  ℕ, zero, suc, ◌+◌, ◌-◌, ◌*◌, ◌/◌, Bool, true, false, ◌&&◌, ◌||◌, Option, none, some, List, [],
  ◌∷◌, ltb, ◌==◌, if◌then◌else◌, get_elem?, set,
}
use by_doing.Scheduler.{Task, Kernel, task_at}
use by_doing.Scheduler.Calls.{put_task, wake_up, tick, hz}
use by_doing.Timers.{Timer, run_timers}

-- `wait_motor`, `mon_timer`, `moff_timer` and the motor's bit for one of the four drives.
pub record Drive : Type 0 where
  pub wait_motor : Option ℕ
  pub mon_timer : ℕ
  pub moff_timer : ℕ
  pub motor : Bool

-- One round of `do_floppy_timer`.
unfoldable pub run_drive : Kernel → Drive → Option (Kernel × Drive)
unfolding wake_up
run_drive k d =
    if d.motor
    then (if d.mon_timer == 0
        then some (
          k,
          if d.moff_timer == 0
              then record d { motor = false }
              else record d { moff_timer = d.moff_timer - 1 },
        )
        else if d.mon_timer == 1
        then elim (wake_up k d.wait_motor) [
          | none ↦ none
          | some (head, k') ↦ some (k', record d { mon_timer = 0; wait_motor = head })
        ]
        else some (k, record d { mon_timer = d.mon_timer - 1 }))
    else some (k, d)

unfoldable pub do_floppy_timer : Kernel → List Drive → Option (Kernel × List Drive)
unfolding run_drive
do_floppy_timer k [] = some (k, [])
do_floppy_timer k (d ∷ ds) = elim (run_drive k d) [
  | none ↦ none
  | some (k', d') ↦ elim (do_floppy_timer k' ds) [
    | none ↦ none
    | some (k'', ds') ↦ some (k'', d' ∷ ds')
  ]
]

-- `current_DOR & 0xf0`
unfoldable pub any_motor : List Drive → Bool
any_motor [] = false
any_motor (d ∷ ds) = if d.motor then true else any_motor ds

-- The lower half of `current_DOR` with the drive `nr` in its two lowest bits, unless a drive is selected.
abbrev pub select_drive : Bool → ℕ → ℕ → ℕ
select_drive selected nr low = if selected then low else low / 4 * 4 + nr

-- `ticks_to_floppy_on` for the drive `nr`, which is from 0 to 3: the new lower half of `current_DOR` and the drive, whose
-- `mon_timer` is returned.
unfoldable pub ticks_to_floppy_on : Bool → ℕ → ℕ → Drive → ℕ × Drive
ticks_to_floppy_on selected nr low d = (
  select_drive selected nr low,
  record d {
    moff_timer = 10000;
    motor = true;
    mon_timer =
        if d.motor
        then (if select_drive selected nr low == low
            then d.mon_timer
            else if ltb d.mon_timer 2
            then 2
            else d.mon_timer)
        else hz / 2;
  },
)

abbrev pub floppy_off : Drive → Drive
floppy_off d = record d { moff_timer = 3 * hz }

-- What `do_timer` works on beside the tasks.
pub record Clock : Type 0 where
  pub beepcount : ℕ
  pub timers : List Timer
  pub drives : List Drive

abbrev pub count_time : Bool → Task → Task
count_time user t =
    if user then record t { utime = t.utime + 1 } else record t { stime = t.stime + 1 }

abbrev pub motors_run : Kernel → List Drive → Option (Kernel × List Drive)
motors_run k ds = if any_motor ds then do_floppy_timer k ds else some (k, ds)

-- The functions that were called, and what is left.
unfoldable pub do_timer : Kernel → Clock → Bool → Option (List ℕ × Clock × Kernel)
unfolding run_timers do_floppy_timer tick
do_timer k c user = elim (task_at k.tasks k.current) [
  | none ↦ none
  | some t ↦ elim (motors_run (put_task k k.current (count_time user t)) c.drives) [
    | none ↦ none
    | some (k', ds) ↦ elim (tick k' user) [
      | none ↦ none
      | some k'' ↦ some (
        (run_timers c.timers).0,
        record { beepcount = c.beepcount - 1; timers = (run_timers c.timers).1; drives = ds },
        k'',
      )
    ]
  ]
]
