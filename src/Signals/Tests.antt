-- ===== src/Signals/Tests.antt =====
-- `sys_kill` at concrete values.
use by_doing.Prelude.{◌≡◌, ◌≢◌, refl, some, set}
use by_doing.Prelude.Int.{ℤ, pos, negsuc}
use by_doing.Scheduler.{Kernel}
use by_doing.Scheduler.Samples.{family, init, child}
use by_doing.Scheduler.Family.{family-IsSound}
use by_doing.Signals.{raised, sys_kill}
use by_doing.Signals.Kill.{sys_kill-one, sys_kill-everyone}

-- The child sends SIGTERM to task 1.
kill_example :
    sys_kill family (pos 1) (pos 15)
    ≡ some (pos 0, record family { tasks = set family.tasks 1 (some (raised 14 init)) })
kill_example =
    sys_kill-one family (pos 15) family-IsSound 0 0 14 child init refl refl refl refl refl

kill_all_example :
    (retval : ℤ) × (k' : Kernel) × (sys_kill family (negsuc 0) (pos 15) ≡ some (retval, k'))
    × (retval ≢ pos 0)
kill_all_example = sys_kill-everyone family (pos 15) family-IsSound 1 refl
