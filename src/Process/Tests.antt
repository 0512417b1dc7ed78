-- ===== src/Process/Tests.antt =====
-- Steps of a concrete kernel.
use by_doing.Prelude.{refl, arith}
use by_doing.Scheduler.{Kernel}
use by_doing.Scheduler.Sound.{IsSound}
use by_doing.Scheduler.Samples.{family, init, child}
use by_doing.Scheduler.Family.{family-IsSound}
use by_doing.Exit.Samples.{no_counts}
use by_doing.Exit.Zombie.{do_exit_lem}
use by_doing.Process.{exits, time_passes, here, step}
use by_doing.Process.Invariant.{Reach-IsSound}

-- The child has exited.
abbrev bereaved : Kernel
bereaved =
    (do_exit_lem 256 family child init family-IsSound no_counts 2 1 refl refl refl refl
      (λ e. omega (arith, e)) (λ e. omega (arith, e))).0

reach_example : IsSound (record bereaved { jiffies = 9 })
reach_example =
    Reach-IsSound no_counts family (record bereaved { jiffies = 9 }) family-IsSound
      (step bereaved _
        (step family _ here (
          exits 256 child init 2 1 bereaved refl refl refl refl (λ e. omega (arith, e))
            (λ e. omega (arith, e))
            (do_exit_lem 256 family child init family-IsSound no_counts 2 1 refl refl refl refl
              (λ e. omega (arith, e)) (λ e. omega (arith, e))).1))
        (time_passes 9))
