-- ===== src/Signals.antt =====
-- OS/process/exit.c: `send_sig`, `kill_session`, `sys_kill` and `tell_father`. A null entry of `task` is
-- `none`. The loops over `task` go from the last place down and leave out place 0, except for that of
-- `tell_father`.
pub mod Kill
mod Tests
use by_doing.Prelude.{
  ℕ, zero, suc, ◌+◌, Bool, true, false, ◌||◌, Option, none, some, List, [], ◌∷◌, ltb, ◌==◌,
  if◌then◌else◌, set,
}
use by_doing.Prelude.Int.{ℤ, pos, negsuc, eqb_ℤ}
use by_doing.Scheduler.{Task, Kernel, task_at}

-- -EPERM and -EINVAL.
abbrev pub eperm : ℤ
eperm = negsuc 0

abbrev pub einval : ℤ
einval = negsuc 21

-- The bits of SIGHUP and SIGCHLD.
abbrev pub hang_up_bit : ℕ
hang_up_bit = 0

abbrev pub child_bit : ℕ
child_bit = 16

abbrev pub raised : ℕ → Task → Task
raised bit t = record t { signal = set t.signal bit true }

-- The bit of a signal's number, which is from 1 to 32.
abbrev pub signal_bit : ℤ → Option ℕ
signal_bit (negsuc _) = none
signal_bit (pos zero) = none
signal_bit (pos (suc n)) = if ltb n 32 then some n else none

-- Whether `me` may send to `t`: `suser()` is an effective user id of 0.
abbrev pub may_signal : Task → Bool → Task → Bool
may_signal me priv t = priv || (me.euid == t.euid || me.euid == 0)

abbrev pub send_to : Task → ℤ → Task → Bool → ℤ × Option Task
send_to me sig t priv = elim (signal_bit sig) [
  | none ↦ (einval, some t)
  | some bit ↦ if may_signal me priv t then (pos 0, some (raised bit t)) else (eperm, some t)
]

-- The value returned, and the entry afterwards.
unfoldable pub send_sig : Task → ℤ → Option Task → Bool → ℤ × Option Task
send_sig me sig none priv = (einval, none)
send_sig me sig (some t) priv = send_to me sig t priv

-- `kill_session` on the entries from place 1 on.
unfoldable pub kill_session : Task → List (Option Task) → List (Option Task)
kill_session me [] = []
kill_session me (none ∷ ts) = none ∷ kill_session me ts
kill_session me (some t ∷ ts) =
    some (if t.session == me.session then raised hang_up_bit t else t) ∷ kill_session me ts

-- The four cases of `pid`.
pub data Target : Type 0 where
  own_group : Target
  one : ℕ → Target
  everyone : Target
  group : ℕ → Target

abbrev pub target_of : ℤ → Target
target_of (pos zero) = own_group
target_of (pos (suc n)) = one (suc n)
target_of (negsuc zero) = everyone
target_of (negsuc (suc n)) = group (n + 2)

-- Only the case of all processes does not test the entry.
abbrev pub selects : Task → Target → Option Task → Bool
selects me own_group none = false
selects me own_group (some t) = t.pgrp == me.pid
selects me (one p) none = false
selects me (one p) (some t) = t.pid == p
selects me everyone o = true
selects me (group g) none = false
selects me (group g) (some t) = t.pgrp == g

abbrev pub privileged : Target → Bool
privileged own_group = true
privileged _ = false

-- `if ((err = send_sig(...))) retval = err`
abbrev pub keep_error : ℤ → ℤ → ℤ
keep_error err retval = if eqb_ℤ err (pos 0) then retval else err

-- The loop over the entries: `retval`, and the entries afterwards.
unfoldable pub kill_each : Task → ℤ → Target → List (Option Task) → ℤ × List (Option Task)
unfolding send_sig
kill_each me sig target [] = (pos 0, [])
kill_each me sig target (o ∷ ts) =
    let (retval, ts') = kill_each me sig target ts in
    if selects me target o
    then (
      keep_error (send_sig me sig o (privileged target)).0 retval,
      (send_sig me sig o (privileged target)).1 ∷ ts',
    )
    else (retval, o ∷ ts')

unfoldable pub sys_kill : Kernel → ℤ → ℤ → Option (ℤ × Kernel)
unfolding kill_each
sys_kill k pid sig = elim (task_at k.tasks k.current) [
  | none ↦ none
  | some me ↦ elim k.tasks [
    | [] ↦ none
    | o ∷ ts ↦
        let (retval, ts') = kill_each me sig (target_of pid) ts in
        some (retval, record k { tasks = o ∷ ts' })
  ]
]

-- The loop of `tell_father`: the first task with the id gets SIGCHLD; `none` where there is none.
unfoldable pub signal_father : ℤ → List (Option Task) → Option (List (Option Task))
signal_father pid [] = none
signal_father pid (none ∷ ts) =
    let later = signal_father pid ts in elim later [ none ↦ none | some ts' ↦ some (none ∷ ts') ]
signal_father pid (some t ∷ ts) =
    let later = signal_father pid ts in
    if eqb_ℤ (pos t.pid) pid
    then some (some (raised child_bit t) ∷ ts)
    else elim later [ none ↦ none | some ts' ↦ some (some t ∷ ts') ]
