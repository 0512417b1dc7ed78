-- ===== src/Scheduler/Doze.antt =====
-- `interruptible_sleep_on` and `math_state_restore` of OS/process/sched.c. The coprocessor's registers are
-- not modelled, only whose they are.
use by_doing.Prelude.{ℕ, Bool, true, false, Option, none, some, ◌==◌, if◌then◌else◌}
use by_doing.Scheduler.{Kernel, interruptible, waits, task_at, schedule}
use by_doing.Scheduler.Calls.{put_task, write_log, make_running}

-- The current task sleeps, and a signal can wake it.
unfoldable pub doze : Kernel → Option Kernel
unfolding schedule
doze k = elim (task_at k.tasks k.current) [
  | none ↦ none
  | some t ↦
      schedule (write_log (put_task k k.current (record t { state = interruptible })) t.pid waits)
]

-- `interruptible_sleep_on` up to `schedule`, as `sleep_on`: what moves to the stack, and the new head.
unfoldable pub interruptible_sleep_on : Kernel → Option ℕ → Option (Option ℕ × Option ℕ × Kernel)
unfolding doze
interruptible_sleep_on k head =
    if k.current == 0
    then none
    else elim (doze k) [ none ↦ none | some k' ↦ some (head, some k.current, k') ]

-- The caller sleeps again, or it returns and the queue is empty.
pub data Risen : Type 0 where
  dozes_again : Kernel → Risen
  risen : Kernel → Risen

abbrev pub rise : Option Kernel → Option Risen
rise none = none
rise (some k) = some (risen k)

abbrev pub again : Option Kernel → Option Risen
again none = none
again (some k) = some (dozes_again k)

-- The rest of it, at the queue's head as it is now: a head that is another task is woken first, and the
-- caller sleeps again.
unfoldable pub interruptible_wakes : Kernel → Option ℕ → Option ℕ → Option Risen
unfolding doze make_running
interruptible_wakes k none tmp = rise (make_running k tmp)
interruptible_wakes k (some h) tmp =
    if h == k.current
    then rise (make_running k tmp)
    else elim (make_running k (some h)) [ none ↦ none | some k' ↦ again (doze k') ]

abbrev pub has_math : Option ℕ → ℕ → Bool
has_math none current = false
has_math (some m) current = m == current

unfoldable pub math_state_restore : Kernel → Option Kernel
math_state_restore k = elim (task_at k.tasks k.current) [
  | none ↦ none
  | some t ↦
      if has_math k.last_math k.current
      then some k
      else some (record (put_task k k.current (record t { used_math = true })) {
        last_math = some k.current;
      })
]
