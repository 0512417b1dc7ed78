-- ===== src/Wait.antt =====
-- OS/process/exit.c: `sys_waitpid`, as two definitions: the call up to where it returns or sleeps, and what it
-- does when it is woken. `verify_area` only prepares the pages of the status, and is left out.
pub mod Search
pub mod Reap
pub mod Child
mod Tests
use by_doing.Prelude.{
  ℕ, zero, suc, ◌+◌, Bool, true, false, ◌&&◌, Option, none, some, List, [], ◌∷◌, ◌==◌,
  if◌then◌else◌, set,
}
use by_doing.Prelude.Int.{ℤ, pos, negsuc, eqb_ℤ}
use by_doing.Scheduler.{
  Task, TaskState, Kernel, running, interruptible, uninterruptible, zombie, stopped, waits, task_at,
  schedule, has_signal,
}
use by_doing.Scheduler.Calls.{put_task, write_log}
use by_doing.Signals.{child_bit}
use by_doing.Exit.{release}

-- -EINTR and -ECHILD.
abbrev pub eintr : ℤ
eintr = negsuc 3

abbrev pub echild : ℤ
echild = negsuc 9

-- WNOHANG and WUNTRACED.
pub record Options : Type 0 where
  pub no_hang : Bool
  pub untraced : Bool

-- A child of `me` that `pid` asks for.
abbrev pub wanted : Task → ℤ → Task → Bool
wanted me (pos zero) t = t.pgrp == me.pgrp
wanted me (pos (suc n)) t = t.pid == suc n
wanted me (negsuc zero) t = true
wanted me (negsuc (suc n)) t = t.pgrp == n + 2

abbrev pub is_child : Task → Task → Bool
is_child me t = eqb_ℤ t.father (pos me.pid)

-- What the loop has come to: it goes on, with `flag`, or it returns at the place of a child.
pub data Scan : Type 0 where
  seen : Bool → Scan
  found_stopped : ℕ → Task → Scan
  found_zombie : ℕ → Task → Scan

-- The switch over a child's state.
abbrev pub look_at : Options → ℕ → Task → Bool → Scan
look_at options i t flag = elim t.state [
  | running ↦ seen true
  | interruptible ↦ seen true
  | uninterruptible ↦ seen true
  | zombie ↦ found_zombie i t
  | stopped ↦ if options.untraced then found_stopped i t else seen flag
]

-- One round, at the entry `t` in place `i`, which is not null.
abbrev pub scan_at : Task → ℕ → ℤ → Options → ℕ → Task → Bool → Scan
scan_at me current pid options i t flag =
    if i == current
    then seen flag
    else if is_child me t && wanted me pid t
    then look_at options i t flag
    else seen flag

-- The loop, from the last place down; `i` is the first place of the list.
unfoldable pub scan : Task → ℕ → ℤ → Options → ℕ → List (Option Task) → Scan
scan me current pid options i [] = seen false
scan me current pid options i (none ∷ ts) = scan me current pid options (suc i) ts
scan me current pid options i (some t ∷ ts) = elim (scan me current pid options (suc i) ts) [
  | seen flag ↦ scan_at me current pid options i t flag
  | found_stopped j u ↦ found_stopped j u
  | found_zombie j u ↦ found_zombie j u
]

-- The call returns a value, and has written a status or not; or it sleeps.
pub data Waited : Type 0 where
  returns : ℤ → Option ℕ → Kernel → Waited
  sleeps : Kernel → Waited

-- The times of a dead child are added to those of `me`.
abbrev pub inherits : Task → Task → Task
inherits t child = record t { cutime = t.cutime + child.utime; cstime = t.cstime + child.stime }

-- The child at place `i` is reaped. `release` calls `schedule`: the value and the status are those that the
-- caller returns and writes when it is current again.
abbrev pub reap : Kernel → Task → ℕ → Task → Option Waited
reap k me i t = elim (release (put_task k k.current (inherits me t)) (some i)) [
  | none ↦ none
  | some k' ↦ some (returns (pos t.pid) (some t.exit_code) k')
]

-- No child has ended, but there is one.
abbrev pub wait_longer : Kernel → Task → Options → Option Waited
wait_longer k me options =
    if options.no_hang
    then some (returns (pos 0) none k)
    else elim (schedule
        (write_log (put_task k k.current (record me { state = interruptible })) me.pid waits)) [
          | none ↦ none
          | some k' ↦ some (sleeps k')
        ]

unfoldable pub sys_waitpid : Kernel → ℤ → Options → Option Waited
unfolding scan release
sys_waitpid k pid options = elim (task_at k.tasks k.current) [
  | none ↦ none
  | some me ↦ elim k.tasks [
    | [] ↦ none
    | o ∷ ts ↦ elim (scan me k.current pid options 1 ts) [
      | found_stopped i t ↦ some (returns (pos t.pid) (some 0x7f) k)
      | found_zombie i t ↦ reap k me i t
      | seen flag ↦ if flag then wait_longer k me options else some (returns echild none k)
    ]
  ]
]

unfoldable pub any_bit : List Bool → Bool
any_bit [] = false
any_bit (b ∷ bs) = if b then true else any_bit bs

-- When the caller is current again after it slept: SIGCHLD goes, and without another signal the call starts
-- over.
unfoldable pub waitpid_wakes : Kernel → ℤ → Options → Option Waited
unfolding sys_waitpid any_bit
waitpid_wakes k pid options = elim (task_at k.tasks k.current) [
  | none ↦ none
  | some me ↦
      let awake = record me { signal = set me.signal child_bit false } in
      if any_bit awake.signal
      then some (returns eintr none (put_task k k.current awake))
      else sys_waitpid (put_task k k.current awake) pid options
]
