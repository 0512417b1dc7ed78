-- ===== src/Exit.antt =====
-- OS/process/exit.c: `release`, `do_exit` and `sys_exit`. A pointer to a task is its place in `task`. The
-- memory manager's calls have no effect on what is modelled; `sys_close` and `iput` are the file system's.
pub mod Orphans
pub mod Samples
pub mod Body
pub mod Zombie
mod Tests
use by_doing.Prelude.{
  ℕ, zero, suc, ◌+◌, ◌*◌, ◌%◌, Bool, true, false, ◌&&◌, ◌≡◌, Option, none, some, List, [], ◌∷◌,
  ◌==◌, if◌then◌else◌, set, get_elem?,
}
use by_doing.Prelude.Int.{ℤ, pos, negsuc, eqb_ℤ}
use by_doing.Scheduler.{Task, TaskState, Kernel, zombie, exits, nr_tasks, task_at, schedule}
use by_doing.Scheduler.Calls.{put_task, write_log}
use by_doing.Signals.{send_sig, kill_session, signal_father}

-- The counts of open files and of inodes.
abbrev pub Counts : Type 0
Counts = (ℕ → ℕ) × (ℕ → ℕ)

-- What the code relies on of the file system: `sys_close` takes the file out of the task's table.
pub record FileSystem : Type 0 where
  pub sys_close : ℕ → Task → Counts → Task × Counts
  pub iput : Option ℕ → Counts → Counts
  pub closes :
      (i : ℕ) (t : Task) (c : Counts) → (sys_close i t c).0 ≡ record t { filp = set t.filp i none }

abbrev pub nr_open : ℕ
nr_open = 20

-- `release`. Place 0 is not searched, so a pointer to it panics, as one to no task does.
unfoldable pub release : Kernel → Option ℕ → Option Kernel
unfolding schedule
release k none = some k
release k (some zero) = none
release k (some (suc j)) = elim (task_at k.tasks (suc j)) [
  | none ↦ none
  | some _ ↦ schedule (record k { tasks = set k.tasks (suc j) none })
]

abbrev pub is_zombie : TaskState → Bool
is_zombie zombie = true
is_zombie _ = false

-- A child of `me` at place `i` is given to task 1, which hears of it if the child is dead.
unfoldable pub adopt_one : Task → ℕ → List (Option Task) → List (Option Task)
unfolding send_sig
adopt_one me i ts = elim (task_at ts i) [
  | none ↦ ts
  | some t ↦
      let moved = set ts i (some (record t { father = pos 1 })) in
      if eqb_ℤ t.father (pos me.pid)
      then (if is_zombie t.state
          then set moved 1 (send_sig me (pos 17) (task_at moved 1) true).1
          else moved)
      else ts
]

-- The loop, with the rounds that are left.
unfoldable pub adopt : Task → ℕ → ℕ → List (Option Task) → List (Option Task)
unfolding adopt_one
adopt me zero i ts = ts
adopt me (suc rounds) i ts = adopt me rounds (suc i) (adopt_one me i ts)

abbrev pub is_open : List (Option ℕ) → ℕ → Bool
is_open filp i = elim (get_elem? filp i) [
  | none ↦ false
  | some f ↦ elim f [ none ↦ false | some _ ↦ true ]
]

-- The terminal of a session's leader is left.
abbrev pub left_tty : Task → (ℕ → ℕ) → ℕ → ℕ
left_tty t pgrp n = if t.leader && eqb_ℤ t.tty (pos n) then 0 else pgrp n

abbrev pub left_math : ℕ → Option ℕ → Option ℕ
left_math current none = none
left_math current (some m) = if m == current then none else some m

abbrev pub hang_up : Task → List (Option Task) → List (Option Task)
hang_up t [] = []
hang_up t (o ∷ ts) = if t.leader then o ∷ kill_session t ts else o ∷ ts

-- The task is dead, with its code and its line in the log.
abbrev pub dead : ℕ → Kernel → Task → Kernel
dead code k t =
    write_log (put_task k k.current (record t { state = zombie; exit_code = code })) t.pid exits

-- `tell_father`, and the last call of `schedule`. Without a father the current task is released, and
-- `schedule` is called there, by a task that is no more.
unfoldable pub tell_father : Kernel → ℤ → Option Kernel
unfolding release signal_father
tell_father k pid =
    if eqb_ℤ pid (pos 0) then release k (some k.current) else elim (signal_father pid k.tasks) [
      | none ↦ release k (some k.current)
      | some ts ↦ schedule (record k { tasks = ts })
    ]

module _ (fs : FileSystem) where
  -- The loop that closes the files.
  unfoldable pub close_all : ℕ → ℕ → Task → Counts → Task × Counts
  close_all zero i t c = (t, c)
  close_all (suc rounds) i t c =
      if is_open t.filp i
      then close_all rounds (suc i) (fs.sys_close i t c).0 (fs.sys_close i t c).1
      else close_all rounds (suc i) t c

  -- The task without its files and inodes, and the counts.
  unfoldable pub drop_files : Task → Counts → Task × Counts
  unfolding close_all
  drop_files t c =
      let (u, d) = close_all nr_open 0 t c in
      (
        record u { pwd = none; root = none; executable = none },
        fs.iput u.executable (fs.iput u.root (fs.iput u.pwd d)),
      )

  -- The current task `t` without its files, terminal and session.
  abbrev pub detached : Kernel → List (Option Task) → Task → Kernel
  detached k ts t =
      let (u, c) = drop_files t (k.f_count, k.i_count) in
      record k {
        tasks = hang_up u (set ts k.current (some u));
        f_count = c.0;
        i_count = c.1;
        tty_pgrp = left_tty u k.tty_pgrp;
        last_math = left_math k.current k.last_math;
      }

  -- `do_exit`, up to the switch to another task.
  unfoldable pub do_exit : ℕ → Kernel → Option Kernel
  unfolding adopt tell_father
  do_exit code k = elim (task_at k.tasks k.current) [
    | none ↦ none
    | some me ↦
        let ts = adopt me nr_tasks 0 k.tasks in
        elim (task_at ts k.current) [
          | none ↦ none
          | some t ↦
              let k' = detached k ts t in
              elim (task_at k'.tasks k.current) [
                | none ↦ none
                | some u ↦ tell_father (dead code k' u) u.father
              ]
        ]
  ]

  -- `sys_exit`: the low byte of the code, above the byte of a signal.
  unfoldable pub sys_exit : ℕ → Kernel → Option Kernel
  unfolding do_exit
  sys_exit error_code k = do_exit (error_code % 256 * 256) k
