-- ===== src/Scheduler/Calls.antt =====
-- Other operations of OS/process/sched.c. A call that goes on after `schedule` does so when its task is
-- current again: it is two definitions, one up to `schedule` and one for the rest, which takes what the
-- task has kept on its stack.
use by_doing.Prelude.{
  ℕ, zero, suc, ◌+◌, ◌-◌, ◌*◌, ◌/◌, ◌%◌, ◌^◌, Bool, ◌&&◌, Option, none, some, [], ◌∷◌, ◌++◌, ltb,
  leb, ◌==◌, if◌then◌else◌, set, arith,
}
use by_doing.Prelude.Int.{ℤ, pos, negsuc}
use by_doing.Scheduler.Rounds.{IsPriority}
use by_doing.Scheduler.{
  Task, Kernel, LogKind, running, interruptible, uninterruptible, became_ready, waits, task_at,
  schedule, long_limit,
}

abbrev pub put_task : Kernel → ℕ → Task → Kernel
put_task k i t = record k { tasks = set k.tasks i (some t) }

abbrev pub write_log : Kernel → ℕ → LogKind → Kernel
write_log k pid kind = record k {
  log = k.log ++ (record { pid = pid; kind = kind; at = k.jiffies } ∷ []);
}

-- `sys_pause`, up to `schedule`, after which it only returns 0.
unfoldable pub sys_pause : Kernel → Option Kernel
unfolding schedule
sys_pause k = elim (task_at k.tasks k.current) [
  | none ↦ none
  | some t ↦
      let asleep = put_task k k.current (record t { state = interruptible }) in
      schedule (if t.pid == 0 then asleep else write_log asleep t.pid waits)
]

-- A task that a pointer names is made running, with its line in the log; a null pointer is `none`.
unfoldable pub make_running : Kernel → Option ℕ → Option Kernel
make_running k none = some k
make_running k (some i) = elim (task_at k.tasks i) [
  | none ↦ none
  | some t ↦ some (write_log (put_task k i (record t { state = running })) t.pid became_ready)
]

-- `sleep_on` up to `schedule`: the queue's head moves to the stack, the first result, and the current task
-- takes its place. Task 0 panics, `none`. The pointer `p` to the queue is not null, here and in `wake_up`.
unfoldable pub sleep_on : Kernel → Option ℕ → Option (Option ℕ × Option ℕ × Kernel)
unfolding schedule
sleep_on k head = if k.current == 0 then none else elim (task_at k.tasks k.current) [
  | none ↦ none
  | some t ↦
      elim (schedule
        (write_log (put_task k k.current (record t { state = uninterruptible })) t.pid waits)) [
          | none ↦ none
          | some k' ↦ some (head, some k.current, k')
        ]
]

-- The rest of `sleep_on`.
unfoldable pub sleep_on_wakes : Kernel → Option ℕ → Option Kernel
unfolding make_running
sleep_on_wakes k tmp = make_running k tmp

-- `wake_up`: the queue's head is made running, and the queue is empty.
unfoldable pub wake_up : Kernel → Option ℕ → Option (Option ℕ × Kernel)
unfolding make_running
wake_up k head = elim (make_running k head) [ none ↦ none | some k' ↦ some (none, k') ]

-- `--current->counter`, and 0 where that is not above 0.
abbrev pub ticked : ℕ → ℕ
ticked c =
    let down = (c + 2 ^ 32 - 1) % 2 ^ 32 in if ltb 0 down && ltb down long_limit then down else 0

-- The end of `do_timer`: the counter of the current task goes down, and at 0 a task in user mode gives way.
unfoldable pub tick : Kernel → Bool → Option Kernel
unfolding schedule
tick k user = elim (task_at k.tasks k.current) [
  | none ↦ none
  | some t ↦
      let k' = put_task k k.current (record t { counter = ticked t.counter }) in
      if ltb 0 (ticked t.counter) then some k' else if user then schedule k' else some k'
]

abbrev pub hz : ℕ
hz = 100

-- `sys_alarm` for seconds that are not negative: the seconds that were left, by a division that goes towards
-- 0, and the task with the new alarm.
unfoldable pub sys_alarm : ℕ → Task → ℕ → ℤ × Task
sys_alarm jiffies t seconds = (
  if t.alarm == 0
      then pos 0
      else if leb jiffies t.alarm
      then pos ((t.alarm - jiffies) / hz)
      else elim ((jiffies - t.alarm) / hz) [ zero ↦ pos 0 | suc n ↦ negsuc n ],
  record t { alarm = if ltb 0 seconds then jiffies + hz * seconds else 0 },
)

-- `priority - increment`
abbrev pub lowered : ℕ → ℤ → ℕ
lowered p (pos n) = (p + 2 ^ 32 - n % 2 ^ 32) % 2 ^ 32
lowered p (negsuc n) = (p + suc n) % 2 ^ 32

-- `sys_nice`: a priority that would not stay above 0 is left as it is.
unfoldable pub sys_nice : Task → ℤ → Task
sys_nice t n =
    let p = lowered t.priority n in
    if ltb 0 p && ltb p long_limit then record t { priority = p } else t

-- A nice value keeps the priority above 0.
pub sys_nice-IsPriority :
    (t : Task) (n : ℤ) → IsPriority t.priority → IsPriority (sys_nice t n).priority
unfolding sys_nice
sys_nice-IsPriority t n h = by_size (lowered t.priority n)
  where
    by_size :
        (p : ℕ)
        → IsPriority (if ltb 0 p && ltb p long_limit then record t { priority = p } else t).priority
    by_size p = (ground (arith, h.0, h.1), ground (arith, h.0, h.1))
