-- ===== src/Scheduler.antt =====
-- OS/process/sched.c: the scheduler of the kernel exercise, with the process log that it writes. A `long`
-- that is never negative is a number; counters and priorities are the words of 32 bits of their `long`s,
-- with wrap-around; the words of signals are lists of 32 bits, lowest first.
pub mod Choice
pub mod Rounds
pub mod Switch
pub mod Calls
pub mod Sleep
pub mod Doze
pub mod Samples
pub mod Family
pub mod Sound
pub mod Change
pub mod Kept
mod Tests
use by_doing.Prelude.{
  ℕ, zero, suc, ◌+◌, ◌-◌, ◌/◌, ◌%◌, ◌^◌, Bool, true, false, ◌&&◌, ◌||◌, Option, none, some, List,
  [], ◌∷◌, ◌++◌, ltb, ◌==◌, if◌then◌else◌, get_elem?, set,
}
use by_doing.Prelude.Int.{ℤ}

-- TASK_RUNNING to TASK_STOPPED.
pub data TaskState : Type 0 where
  running interruptible uninterruptible zombie stopped : TaskState

abbrev pub is_running : TaskState → Bool
is_running running = true
is_running _ = false

abbrev pub is_interruptible : TaskState → Bool
is_interruptible interruptible = true
is_interruptible _ = false

-- The registers in a task's state segment that `fork` sets.
pub record Tss : Type 0 where
  pub back_link : ℕ
  pub esp0 : ℕ
  pub ss0 : ℕ
  pub eip : ℕ
  pub eflags : ℕ
  pub eax : ℕ
  pub ecx : ℕ
  pub edx : ℕ
  pub ebx : ℕ
  pub esp : ℕ
  pub ebp : ℕ
  pub esi : ℕ
  pub edi : ℕ
  pub es : ℕ
  pub cs : ℕ
  pub ss : ℕ
  pub ds : ℕ
  pub fs : ℕ
  pub gs : ℕ
  pub ldt : ℕ
  pub trace_bitmap : ℕ

-- The fields of `struct task_struct` that the exercise's files use. `father` is -1 for task 0, `tty` where
-- there is none; open files and inodes are named by their addresses, a null pointer is `none`. The bases are
-- those in `ldt[1]` and `ldt[2]`.
pub record Task : Type 0 where
  pub state : TaskState
  pub counter : ℕ
  pub priority : ℕ
  pub signal : List Bool
  pub blocked : List Bool
  pub exit_code : ℕ
  pub pid : ℕ
  pub father : ℤ
  pub pgrp : ℕ
  pub session : ℕ
  pub leader : Bool
  pub euid : ℕ
  pub alarm : ℕ
  pub utime : ℕ
  pub stime : ℕ
  pub cutime : ℕ
  pub cstime : ℕ
  pub start_time : ℕ
  pub start_code : ℕ
  pub code_base : ℕ
  pub data_base : ℕ
  pub used_math : Bool
  pub tty : ℤ
  pub pwd : Option ℕ
  pub root : Option ℕ
  pub executable : Option ℕ
  pub filp : List (Option ℕ)
  pub tss : Tss

-- The letters of the log: ready, running, waiting, new, exited.
pub data LogKind : Type 0 where
  became_ready became_running waits is_new exits : LogKind

pub record LogLine : Type 0 where
  pub pid : ℕ
  pub kind : LogKind
  pub at : ℕ

-- `task`, `current` as an index into it, `jiffies`, the log, `last_pid`, and `last_task_used_math` as an
-- index; the counts of the open files and inodes by address, and the process group of each terminal.
pub record Kernel : Type 0 where
  pub tasks : List (Option Task)
  pub current : ℕ
  pub jiffies : ℕ
  pub log : List LogLine
  pub last_pid : ℕ
  pub last_math : Option ℕ
  pub f_count : ℕ → ℕ
  pub i_count : ℕ → ℕ
  pub tty_pgrp : ℕ → ℕ

abbrev pub nr_tasks : ℕ
nr_tasks = 64

-- One more than the largest `long`.
abbrev pub long_limit : ℕ
long_limit = 2 ^ 31

-- The bits of SIGALRM, SIGKILL and SIGSTOP.
abbrev pub alarm_bit : ℕ
alarm_bit = 13

abbrev pub kill_bit : ℕ
kill_bit = 8

abbrev pub stop_bit : ℕ
stop_bit = 18

abbrev pub is_blockable : ℕ → Bool
is_blockable i = if i == kill_bit then false else if i == stop_bit then false else true

-- `signal & ~(_BLOCKABLE & blocked)` is not 0; `i` is the place of the first bit.
unfoldable pub has_signal : ℕ → List Bool → List Bool → Bool
has_signal i [] blocked = false
has_signal i (s ∷ ss) [] = s || has_signal (suc i) ss []
has_signal i (s ∷ ss) (b ∷ bs) =
    let later = has_signal (suc i) ss bs in
    if s then (if b && is_blockable i then later else true) else later

abbrev pub ring : ℕ → Task → Task
ring jiffies t =
    if ltb 0 t.alarm && ltb t.alarm jiffies
    then record t { signal = set t.signal alarm_bit true; alarm = 0 }
    else t

-- The first loop of `schedule` on one task, with what it logs.
unfoldable pub check_task : ℕ → Task → Task × List LogLine
unfolding has_signal
check_task jiffies t =
    let rung = ring jiffies t in
    if has_signal 0 rung.signal rung.blocked && is_interruptible rung.state
    then (
      record rung { state = running },
      record { pid = t.pid; kind = became_ready; at = jiffies } ∷ [],
    )
    else (rung, [])

-- From the last place down.
unfoldable pub check_tasks : ℕ → List (Option Task) → List (Option Task) × List LogLine
unfolding check_task
check_tasks jiffies [] = ([], [])
check_tasks jiffies (none ∷ ts) = let (ts', log) = check_tasks jiffies ts in (none ∷ ts', log)
check_tasks jiffies (some t ∷ ts) =
    let (ts', log) = check_tasks jiffies ts in
    let (t', line) = check_task jiffies t in (some t' ∷ ts', log ++ line)

-- `counter > c`, where `c` is -1 before the first candidate.
abbrev pub beats : Task → Option (ℕ × ℕ) → Bool
beats t none = true
beats t (some (c, next)) = ltb c t.counter

-- `counter` is not negative, so that it is above -1, and the task runs.
abbrev pub is_candidate : Task → Bool
is_candidate t = is_running t.state && ltb t.counter long_limit

-- `counter >> 1`, which keeps the sign.
abbrev pub half : ℕ → ℕ
half c = if ltb c long_limit then c / 2 else c / 2 + long_limit

-- The best counter with its place, from the last place down; `i` is the first place of the list.
unfoldable pub choose : ℕ → List (Option Task) → Option (ℕ × ℕ)
choose i [] = none
choose i (none ∷ ts) = choose (suc i) ts
choose i (some t ∷ ts) =
    let later = choose (suc i) ts in
    if is_candidate t && beats t later then some (t.counter, i) else later

unfoldable pub recharge : List (Option Task) → List (Option Task)
recharge [] = []
recharge (none ∷ ts) = none ∷ recharge ts
recharge (some t ∷ ts) =
    some (record t { counter = (half t.counter + t.priority) % 2 ^ 32 }) ∷ recharge ts

-- `while (1)`: where no task is running `c` is -1 and place 0 is next. The tasks are those of the places
-- from 1 on. `none`: the fuel is gone.
unfoldable pub pick : ℕ → List (Option Task) → Option (ℕ × List (Option Task))
unfolding choose recharge
pick zero ts = none
pick (suc fuel) ts =
    let again = pick fuel (recharge ts) in
    elim (choose 1 ts) [
      | none ↦ some (0, ts)
      | some (c, next) ↦ elim c [ zero ↦ again | suc _ ↦ some (next, ts) ]
    ]

-- The rounds that the loop is given.
abbrev pub rounds : ℕ
rounds = 2

-- The task at a place; the code follows the pointer without a test.
abbrev pub task_at : List (Option Task) → ℕ → Option Task
task_at ts i = elim (get_elem? ts i) [ none ↦ none | some t ↦ t ]

-- What is logged where the next process is another one.
abbrev pub switch_log : Task → Task → ℕ → List LogLine
switch_log old new jiffies =
    if old.pid == new.pid
    then []
    else if is_running old.state
    then record { pid = old.pid; kind = became_ready; at = jiffies }
      ∷ record { pid = new.pid; kind = became_running; at = jiffies }
      ∷ []
    else record { pid = new.pid; kind = became_running; at = jiffies } ∷ []

abbrev pub switch_to : Kernel → ℕ → Option Kernel
switch_to k next = elim (task_at k.tasks k.current) [
  | none ↦ none
  | some old ↦ elim (task_at k.tasks next) [
    | none ↦ none
    | some new ↦ some (record k { current = next; log = k.log ++ switch_log old new k.jiffies })
  ]
]

-- `schedule` up to the switch. There is always a task 0.
unfoldable pub schedule : Kernel → Option Kernel
unfolding check_tasks pick
schedule k = elim k.tasks [
  | [] ↦ none
  | t ∷ ts ↦
      let (checked, log) = check_tasks k.jiffies ts in
      elim (pick rounds checked) [
        | none ↦ none
        | some (next, after) ↦ switch_to (record k { tasks = t ∷ after; log = k.log ++ log }) next
      ]
]
