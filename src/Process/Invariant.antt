-- ===== src/Process/Invariant.antt =====
-- All steps of the kernel exercise from a sound kernel.
use by_doing.Prelude.{
  ℕ, ◌≡◌, ◌∙◌, ap, sym, refl, Bool, true, false, Option, none, some, arith, set, if◌then◌else◌,
}
use by_doing.Prelude.Int.{ℤ}
use by_doing.Scheduler.{Task, Kernel, task_at}
use by_doing.Scheduler.Calls.{
  put_task, sleep_on, sleep_on_wakes, make_running, wake_up, sys_alarm, sys_pause,
}
use by_doing.Scheduler.Doze.{interruptible_sleep_on, math_state_restore}
use by_doing.Scheduler.Sound.{IsSound, current_task}
use by_doing.Fork.{sys_fork}
use by_doing.Fork.Child.{sys_fork-Forked}
use by_doing.Signals.{sys_kill, child_bit}
use by_doing.Signals.Kill.{sys_kill-IsSound}
use by_doing.Exit.{FileSystem, do_exit}
use by_doing.Exit.Zombie.{do_exit_lem}
use by_doing.Wait.{Options, Waited, returns, sys_waitpid, waitpid_wakes, any_bit, eintr}
use by_doing.Wait.Reap.{Outcome, reaped, held, childless, not_yet, asleep, sys_waitpid-Outcome}
use by_doing.Process.{
  after_wait, Step, ticks, pauses, lies_down, dozes, stirs, computes, gets_up, wakes, sets_alarm,
  is_nice, forks, kills, exits, waits_for, wakes_waiting, time_passes, Reach, here, step,
}
use by_doing.Process.Naps.{
  interruptible_sleep_on-IsSound, interruptible_wakes-IsSound, math_state_restore-IsSound,
}
use by_doing.Process.Ticks.{do_timer-IsSound}
use by_doing.Process.Steps.{
  same_run, put_task-IsSound, time-IsSound, sys_pause-IsSound, sleep_on-IsSound,
  make_running-IsSound, sys_nice-IsSound, get_of_task_at,
}

Outcome-IsSound :
    (k : Kernel) (me : Task) (pid : ℤ) (options : Options) (w : Waited)
    → IsSound k
    → Outcome k me pid options w
    → IsSound (after_wait w)
Outcome-IsSound k me pid options _ s (reaped j t k' at w dead free others sound) = sound
Outcome-IsSound k me pid options _ s (held j t at w end asked) = s
Outcome-IsSound k me pid options _ s (childless h) = s
Outcome-IsSound k me pid options _ s (not_yet h child e) = s
Outcome-IsSound k me pid options _ s (asleep k' h child e others sound) = sound

-- Two results of one run.
same_value {ℓ} : {A : Type ℓ} (o : Option A) (a b : A) → o ≡ some a → o ≡ some b → a ≡ b
same_value o a b e e' = cc (sym e ∙ e')

waited-IsSound :
    (k : Kernel) (pid : ℤ) (options : Options) (w : Waited)
    → IsSound k
    → sys_waitpid k pid options ≡ some w
    → IsSound (after_wait w)
waited-IsSound k pid options w s e =
    let (me, _, at) = current_task k s in
    let (v, run, h) = sys_waitpid-Outcome k pid options me s at in
    let same : v ≡ w = same_value (sys_waitpid k pid options) v w run e in
    rw same at (Outcome-IsSound k me pid options v s h)

waitpid_wakes_run :
    (k : Kernel) (pid : ℤ) (options : Options) (me : Task)
    → task_at k.tasks k.current ≡ some me
    → waitpid_wakes k pid options ≡ (
        if any_bit (set me.signal child_bit false)
        then some (
            returns eintr none
              (put_task k k.current (record me { signal = set me.signal child_bit false })))
        else sys_waitpid
            (put_task k k.current (record me { signal = set me.signal child_bit false }))
            pid
            options)
unfolding waitpid_wakes
waitpid_wakes_run k pid options me at = ground (arith, at)

woken-IsSound :
    (k : Kernel) (pid : ℤ) (options : Options) (w : Waited)
    → IsSound k
    → waitpid_wakes k pid options ≡ some w
    → IsSound (after_wait w)
woken-IsSound k pid options w s e =
    let (me, at, now) = current_task k s in
    let awake = record me { signal = set me.signal child_bit false } in
    by_signal (put_task k k.current awake) (put_task-IsSound k k.current me awake at refl refl s)
      (any_bit awake.signal) (sym (waitpid_wakes_run k pid options me now) ∙ e)
  where
    by_signal :
        (k' : Kernel)
        → IsSound k'
        → (b : Bool)
        → (if b then some (returns eintr none k') else sys_waitpid k' pid options) ≡ some w
        → IsSound (after_wait w)
    by_signal k' s true e =
        let same : returns eintr none k' ≡ w =
          same_value (some (returns eintr none k')) _ w refl e in
        rw (sym same) s
    by_signal k' s false e = waited-IsSound k' pid options w s e

wake_up_runs :
    (k k' : Kernel) (head new : Option ℕ)
    → wake_up k head ≡ some (new, k')
    → make_running k head ≡ some k'
unfolding wake_up
wake_up_runs k k' head new e = ground (arith, e)

alarm_same :
    (jiffies : ℕ) (me : Task) (seconds : ℕ)
    → ((sys_alarm jiffies me seconds).1.pid ≡ me.pid)
      × ((sys_alarm jiffies me seconds).1.priority ≡ me.priority)
unfolding sys_alarm
alarm_same jiffies me seconds = (refl, refl)

Step-IsSound : (fs : FileSystem) (k k' : Kernel) → IsSound k → Step fs k k' → IsSound k'
unfolding sleep_on_wakes
Step-IsSound fs k k' s (ticks c c' user called _ e) = do_timer-IsSound k k' c c' user called s e
Step-IsSound fs k k' s (pauses _ e) =
    let (k1, run, sound) = sys_pause-IsSound k s in same_run (sys_pause k) k1 k' run sound e
Step-IsSound fs k k' s (lies_down head tmp new _ apart e) =
    let (k1, run, sound) = sleep_on-IsSound k head apart s in
    let same : k1 ≡ k' =
      ap (λ x. x.2)
        (same_value (sleep_on k head) (head, some k.current, k1) (tmp, new, k') run e) in
    rw same at sound
Step-IsSound fs k k' s (dozes head tmp new _ apart e) =
    let (k1, run, sound) = interruptible_sleep_on-IsSound k head apart s in
    let same : k1 ≡ k' =
      ap (λ x. x.2)
        (same_value (interruptible_sleep_on k head) (head, some k.current, k1) (tmp, new, k') run
          e) in
    rw same at sound
Step-IsSound fs k _ s (stirs head tmp r e) = interruptible_wakes-IsSound k head tmp r s e
Step-IsSound fs k k' s (computes _ e) =
    let (k1, run, sound) = math_state_restore-IsSound k s in
    same_run (math_state_restore k) k1 k' run sound e
Step-IsSound fs k k' s (gets_up tmp _ e) = make_running-IsSound k k' tmp s e
Step-IsSound fs k k' s (wakes head new _ e) =
    make_running-IsSound k k' head s (wake_up_runs k k' head new e)
Step-IsSound fs k _ s (sets_alarm me seconds at) =
    put_task-IsSound k k.current me _ (get_of_task_at k.tasks k.current me at)
      (alarm_same k.jiffies me seconds).0 (alarm_same k.jiffies me seconds).1 s
Step-IsSound fs k _ s (is_nice me n at) = sys_nice-IsSound k me n at s
Step-IsSound fs k k' s (forks r page code_limit data_limit copied me e _ at bases fits run) =
    let (e', k1, go, _, sound) =
      sys_fork-Forked r page code_limit data_limit copied k me s at bases fits in
    let same : k1 ≡ k' =
      ap (λ x. x.1)
        (same_value (sys_fork r page code_limit data_limit copied k) (e', k1) (e, k') go run) in
    rw same at sound
Step-IsSound fs k k' s (kills pid sig e _ run) =
    let (e', k1, go, sound) = sys_kill-IsSound k pid sig s in
    let same : k1 ≡ k' = ap (λ x. x.1) (same_value (sys_kill k pid sig) (e', k1) (e, k') go run) in
    rw same at sound
Step-IsSound fs k k' s (exits code me f c j _ now at father_at father some_id other run) =
    let (k1, go, _, sound) =
      do_exit_lem code k me f s fs c j now at father_at father some_id other in
    same_run (do_exit fs code k) k1 k' go sound run
Step-IsSound fs k _ s (waits_for pid options w e) = waited-IsSound k pid options w s e
Step-IsSound fs k _ s (wakes_waiting pid options w e) = woken-IsSound k pid options w s e
Step-IsSound fs k _ s (time_passes later) = time-IsSound k later s

-- Whatever the processes and the timer do from a sound kernel, one step after another, the kernel stays
-- sound: at most 64 tasks, a task 0 and a current task, no id twice, every priority
-- above 0 as a `long`.
pub Reach-IsSound : (fs : FileSystem) (k k' : Kernel) → IsSound k → Reach fs k k' → IsSound k'
Reach-IsSound fs k _ s here = s
Reach-IsSound fs k k' s (step k1 _ path last) =
    Step-IsSound fs k1 k' (Reach-IsSound fs k k1 s path) last
