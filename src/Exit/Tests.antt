-- ===== src/Exit/Tests.antt =====
-- `do_exit` at concrete values.
use by_doing.Prelude.{◌≡◌, refl, some, arith, true, get_elem?}
use by_doing.Scheduler.{Kernel, Task}
use by_doing.Scheduler.Sound.{IsSound}
use by_doing.Scheduler.Samples.{family, init, child}
use by_doing.Scheduler.Family.{family-IsSound}
use by_doing.Signals.{child_bit}
use by_doing.Exit.{do_exit}
use by_doing.Exit.Samples.{no_counts}
use by_doing.Exit.Zombie.{Exited, do_exit-Exited}

-- The child exits, and task 1 is its father.
do_exit_example :
    (k' : Kernel) × (do_exit no_counts 256 family ≡ some k')
    × Exited 256 family child init 1 k'
    × IsSound k'
    × ((u : Task) × (get_elem? k'.tasks 1 ≡ some (some u))
        × (get_elem? u.signal child_bit ≡ some true))
do_exit_example =
    do_exit-Exited 256 family child init family-IsSound no_counts 2 1 refl refl refl refl
      (λ e. omega (arith, e)) (λ e. omega (arith, e)) (omega arith)
