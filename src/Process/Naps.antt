-- ===== src/Process/Naps.antt =====
-- `interruptible_sleep_on` and `math_state_restore` on a sound kernel.
use by_doing.Prelude.{
  ℕ, ◌≡◌, ◌≢◌, ◌∙◌, sym, refl, Bool, true, false, Option, none, some, arith, inl, inr,
  if◌then◌else◌, Option-cases, ℕ_discrete,
}
use by_doing.Scheduler.{Task, Kernel, task_at, schedule, interruptible, waits}
use by_doing.Scheduler.Calls.{put_task, write_log, make_running}
use by_doing.Scheduler.Doze.{
  doze, interruptible_sleep_on, interruptible_wakes, Risen, dozes_again, risen, rise, again,
  math_state_restore, has_math,
}
use by_doing.Scheduler.Sound.{IsSound, IsSound-same, current_task}
use by_doing.Process.{after_rise}
use by_doing.Process.Steps.{
  Runs, next, same_run, put_task-IsSound, write_log-IsSound, make_running-IsSound,
}

doze_run :
    (k : Kernel) (t : Task)
    → task_at k.tasks k.current ≡ some t
    → doze k
      ≡ schedule (write_log (put_task k k.current (record t { state = interruptible })) t.pid waits)
unfolding doze
doze_run k t at = ground (arith, at)

doze-IsSound : (k : Kernel) → IsSound k → Runs (doze k)
doze-IsSound k s =
    let (t, here, at) = current_task k s in
    let lain =
      put_task-IsSound k k.current t (record t { state = interruptible }) here refl refl s in
    let (k', run, sound) = next _ (write_log-IsSound _ t.pid waits lain) in
    (k', doze_run k t at ∙ run, sound)

interruptible_run :
    (k k' : Kernel) (head : Option ℕ)
    → k.current ≢ 0
    → doze k ≡ some k'
    → interruptible_sleep_on k head ≡ some (head, some k.current, k')
unfolding interruptible_sleep_on
interruptible_run k k' head apart run = ground (arith, apart, run)

pub interruptible_sleep_on-IsSound :
    (k : Kernel) (head : Option ℕ)
    → k.current ≢ 0
    → IsSound k
    → (k' : Kernel) × (interruptible_sleep_on k head ≡ some (head, some k.current, k')) × IsSound k'
interruptible_sleep_on-IsSound k head apart s =
    let (k', run, sound) = doze-IsSound k s in (k', interruptible_run k k' head apart run, sound)

rise-IsSound :
    (o : Option Kernel) (r : Risen)
    → ((k : Kernel) → o ≡ some k → IsSound k)
    → rise o ≡ some r
    → IsSound (after_rise r)
rise-IsSound none r h e = absurd (cc e)
rise-IsSound (some k) (risen k') h e = h k' (ground (arith, e))
rise-IsSound (some k) (dozes_again k') h e = absurd (cc e)

again-IsSound : (o : Option Kernel) (r : Risen) → Runs o → again o ≡ some r → IsSound (after_rise r)
again-IsSound none r h e = absurd (cc h.1)
again-IsSound (some k) (dozes_again k') (_, run, sound) e =
    same_run (some k) _ k' run sound (ground (arith, e))
again-IsSound (some k) (risen k') h e = absurd (cc e)

wakes_head :
    (k k' : Kernel) (h : ℕ) (tmp : Option ℕ)
    → h ≢ k.current
    → make_running k (some h) ≡ some k'
    → interruptible_wakes k (some h) tmp ≡ again (doze k')
unfolding interruptible_wakes
wakes_head k k' h tmp apart run = ground (arith, apart, run)

wakes_none :
    (k : Kernel) (h : ℕ) (tmp : Option ℕ)
    → h ≢ k.current
    → make_running k (some h) ≡ none
    → interruptible_wakes k (some h) tmp ≡ none
unfolding interruptible_wakes
wakes_none k h tmp apart run = ground (arith, apart, run)

wakes_self :
    (k : Kernel) (h : ℕ) (tmp : Option ℕ)
    → h ≡ k.current
    → interruptible_wakes k (some h) tmp ≡ rise (make_running k tmp)
unfolding interruptible_wakes
wakes_self k h tmp same = ground (arith, same)

pub interruptible_wakes-IsSound :
    (k : Kernel) (head tmp : Option ℕ) (r : Risen)
    → IsSound k
    → interruptible_wakes k head tmp ≡ some r
    → IsSound (after_rise r)
unfolding interruptible_wakes
interruptible_wakes-IsSound k none tmp r s e =
    rise-IsSound (make_running k tmp) r (λ k' run. make_running-IsSound k k' tmp s run) e
interruptible_wakes-IsSound k (some h) tmp r s e = elim (ℕ_discrete h k.current) [
  | yes same ↦
      rise-IsSound (make_running k tmp) r (λ k' run. make_running-IsSound k k' tmp s run)
        (sym (wakes_self k h tmp same) ∙ e)
  | no apart ↦ elim (Option-cases (make_running k (some h))) [
    | inl gone ↦ absurd (cc (sym (wakes_none k h tmp apart gone) ∙ e))
    | inr (k', run) ↦
        again-IsSound (doze k') r (doze-IsSound k' (make_running-IsSound k k' (some h) s run))
          (sym (wakes_head k k' h tmp apart run) ∙ e)
  ]
]

math_run :
    (k : Kernel) (t : Task)
    → task_at k.tasks k.current ≡ some t
    → math_state_restore k
      ≡ some (
          if has_math k.last_math k.current
          then k
          else record (put_task k k.current (record t { used_math = true })) {
            last_math = some k.current;
          })
unfolding math_state_restore
math_run k t at = ground (arith, at)

pub math_state_restore-IsSound : (k : Kernel) → IsSound k → Runs (math_state_restore k)
math_state_restore-IsSound k s =
    let (t, here, at) = current_task k s in
    let h = put_task-IsSound k k.current t (record t { used_math = true }) here refl refl s in
    (
      _,
      math_run k t at,
      by_owner t (IsSound-same _ _ refl refl h.here h) (has_math k.last_math k.current),
    )
  where
    by_owner :
        (t : Task)
        → IsSound (record (put_task k k.current (record t { used_math = true })) {
          last_math = some k.current;
        })
        → (b : Bool)
        → IsSound (
            if b then k else record (put_task k k.current (record t { used_math = true })) {
              last_math = some k.current;
            })
    by_owner t h true = s
    by_owner t h false = h
