-- ===== src/Wait/Tests.antt =====
-- `sys_waitpid` at concrete values.
use by_doing.Prelude.{◌≡◌, refl, false, none, some, [], ◌∷◌, arith, get_elem?}
use by_doing.Prelude.Int.{negsuc, pos}
use by_doing.Scheduler.{
  Kernel, zombie, schedule, check_tasks, check_task, has_signal, pick, choose, recharge,
}
use by_doing.Scheduler.Sound.{idents, IsSound, IsSound-same}
use by_doing.Scheduler.Samples.{family, idle, init, child}
use by_doing.Scheduler.Family.{family-IsSound}
use by_doing.Exit.{do_exit, adopt, adopt_one, drop_files, close_all, tell_father, release}
use by_doing.Signals.{send_sig, kill_session, signal_father}
use by_doing.Exit.Samples.{no_counts}
use by_doing.Wait.{Options, Waited, returns, sys_waitpid}
use by_doing.Wait.Reap.{Outcome, sys_waitpid-Outcome}
use by_doing.Wait.Child.{do_exit-sys_waitpid}

abbrev plain : Options
plain = record { no_hang = false; untraced = false }

-- The child is dead, and task 1 is current.
abbrev mourning : Kernel
mourning = record family {
  tasks =
      some idle ∷ some init ∷ none ∷ some (record child { state = zombie; exit_code = 256 }) ∷ [];
  current = 1;
}

mourning-IsSound : IsSound mourning
unfolding idents
mourning-IsSound = IsSound-same family mourning refl refl (1, 15, refl) family-IsSound

waitpid_example :
    (w : Waited) × (sys_waitpid mourning (negsuc 0) plain ≡ some w)
    × Outcome mourning init (negsuc 0) plain w
waitpid_example = sys_waitpid-Outcome mourning (negsuc 0) plain init mourning-IsSound refl

-- What the exit of the child leaves.
unfoldable bereaved : Kernel
bereaved = elim (do_exit no_counts 256 family) [ none ↦ family | some k ↦ k ]

bereaved_run : do_exit no_counts 256 family ≡ some bereaved
unfolding bereaved do_exit adopt adopt_one send_sig drop_files close_all kill_session tell_father
    signal_father release schedule check_tasks check_task has_signal pick choose recharge
bereaved_run = refl

bereaved_turn : bereaved.current ≡ 1
unfolding bereaved do_exit adopt adopt_one send_sig drop_files close_all kill_session tell_father
    signal_father release schedule check_tasks check_task has_signal pick choose recharge
bereaved_turn = refl

exit_wait_example :
    (k : Kernel) × (sys_waitpid bereaved (pos 2) plain ≡ some (returns (pos 2) (some 256) k))
    × (get_elem? k.tasks 3 ≡ some none)
    × IsSound k
exit_wait_example =
    do_exit-sys_waitpid 256 family bereaved child init no_counts 2 1 1 plain family-IsSound refl
      refl refl refl (λ e. omega (arith, e)) (λ e. omega (arith, e)) refl bereaved_run bereaved_turn
