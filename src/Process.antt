-- ===== src/Process.antt =====
-- The kernel exercise as a whole: what a process or the timer may do, one step at a time. OS/process/sched.c,
-- fork.c and exit.c share `task`, `current` and `last_pid`.
pub mod Steps
pub mod Naps
pub mod Ticks
pub mod Invariant
mod Tests
use by_doing.Prelude.{ℕ, suc, ◌≡◌, ◌≢◌, ◌≤◌, ◌<◌, Bool, Option, some, List, get_elem?}
use by_doing.Prelude.Int.{ℤ, pos}
use by_doing.Scheduler.{Task, Kernel, task_at}
use by_doing.Scheduler.Calls.{
  put_task, sys_pause, sleep_on, sleep_on_wakes, wake_up, sys_alarm, sys_nice,
}
use by_doing.Scheduler.Doze.{
  interruptible_sleep_on, interruptible_wakes, Risen, dozes_again, risen, math_state_restore,
}
use by_doing.Clock.{Clock, do_timer}
use by_doing.Fork.{Registers, sys_fork}
use by_doing.Signals.{sys_kill}
use by_doing.Exit.{FileSystem, do_exit}
use by_doing.Wait.{Options, Waited, returns, sleeps, sys_waitpid, waitpid_wakes}

-- The kernel that a wait leaves.
abbrev pub after_wait : Waited → Kernel
after_wait (returns _ _ k) = k
after_wait (sleeps k) = k

abbrev pub after_rise : Risen → Kernel
after_rise (dozes_again k) = k
after_rise (risen k) = k

-- One step. Left out are those that end in a panic, and the exit of a process without a living father.
pub data Step (fs : FileSystem) (k : Kernel) : Kernel → Type 0 where
  ticks :
      (c c' : Clock) (user : Bool) (called : List ℕ) (k' : Kernel)
      → do_timer k c user ≡ some (called, c', k')
      → Step fs k k'
  pauses : (k' : Kernel) → sys_pause k ≡ some k' → Step fs k k'
  lies_down :
      (head tmp new : Option ℕ) (k' : Kernel)
      → k.current ≢ 0
      → sleep_on k head ≡ some (tmp, new, k')
      → Step fs k k'
  dozes :
      (head tmp new : Option ℕ) (k' : Kernel)
      → k.current ≢ 0
      → interruptible_sleep_on k head ≡ some (tmp, new, k')
      → Step fs k k'
  stirs :
      (head tmp : Option ℕ) (r : Risen)
      → interruptible_wakes k head tmp ≡ some r
      → Step fs k (after_rise r)
  computes : (k' : Kernel) → math_state_restore k ≡ some k' → Step fs k k'
  gets_up : (tmp : Option ℕ) (k' : Kernel) → sleep_on_wakes k tmp ≡ some k' → Step fs k k'
  wakes : (head new : Option ℕ) (k' : Kernel) → wake_up k head ≡ some (new, k') → Step fs k k'
  sets_alarm :
      (me : Task) (seconds : ℕ)
      → task_at k.tasks k.current ≡ some me
      → Step fs k (put_task k k.current (sys_alarm k.jiffies me seconds).1)
  is_nice :
      (me : Task) (n : ℤ)
      → task_at k.tasks k.current ≡ some me
      → Step fs k (put_task k k.current (sys_nice me n))
  forks :
      (r : Registers) (page : Option ℕ) (code_limit data_limit : ℕ) (copied : Bool) (me : Task)
      (e : ℤ) (k' : Kernel)
      → task_at k.tasks k.current ≡ some me
      → me.data_base ≡ me.code_base
      → code_limit ≤ data_limit
      → sys_fork r page code_limit data_limit copied k ≡ some (e, k')
      → Step fs k k'
  kills : (pid sig e : ℤ) (k' : Kernel) → sys_kill k pid sig ≡ some (e, k') → Step fs k k'
  exits :
      (code : ℕ) (me f : Task) (c j : ℕ) (k' : Kernel)
      → k.current ≡ suc c
      → task_at k.tasks k.current ≡ some me
      → get_elem? k.tasks j ≡ some (some f)
      → me.father ≡ pos f.pid
      → f.pid ≢ 0
      → f.pid ≢ me.pid
      → do_exit fs code k ≡ some k'
      → Step fs k k'
  waits_for :
      (pid : ℤ) (options : Options) (w : Waited)
      → sys_waitpid k pid options ≡ some w
      → Step fs k (after_wait w)
  wakes_waiting :
      (pid : ℤ) (options : Options) (w : Waited)
      → waitpid_wakes k pid options ≡ some w
      → Step fs k (after_wait w)
  time_passes : (later : ℕ) → Step fs k (record k { jiffies = later })

-- Any number of steps.
pub data Reach (fs : FileSystem) (k : Kernel) : Kernel → Type 0 where
  here : Reach fs k k
  step : (k' k'' : Kernel) → Reach fs k k' → Step fs k' k'' → Reach fs k k''
