-- ===== src/Process/Steps.antt =====
-- The steps of OS/process/sched.c on a sound kernel.
use by_doing.Prelude.{
  ℕ, ◌≡◌, ◌≢◌, ◌∙◌, ap, refl, Bool, true, false, Option, none, some, List, ◌==◌, ltb, arith,
  get_elem?, set, inl, inr, if◌then◌else◌, Option-cases,
}
use by_doing.Prelude.Int.{ℤ}
use by_doing.Scheduler.{
  Task, Kernel, LogKind, task_at, schedule, interruptible, uninterruptible, running, waits,
  became_ready,
}
use by_doing.Scheduler.Calls.{
  ticked, put_task, write_log, sys_pause, make_running, sleep_on, tick, sys_nice,
  sys_nice-IsPriority,
}
use by_doing.Scheduler.Sound.{
  idents, IsSound, IsSound-same, current_task, schedule-IsSound, idents-put, idents-set,
  get_elem?-idents,
}
use by_doing.Scheduler.Change.{renice-IsSound}

-- What a run leaves, and what another run of it would.
pub same_run :
    (o : Option Kernel) (k k' : Kernel) → o ≡ some k → IsSound k → o ≡ some k' → IsSound k'
same_run o k k' e s e' = let same : k ≡ k' = ground (arith, e, e') in rw same at s

pub put_task-IsSound :
    (k : Kernel) (j : ℕ) (t u : Task)
    → get_elem? k.tasks j ≡ some (some t)
    → u.pid ≡ t.pid
    → u.priority ≡ t.priority
    → IsSound k
    → IsSound (put_task k j u)
put_task-IsSound k j t u at pid priority s =
    IsSound-same k (put_task k j u) (idents-put k.tasks j t u at pid priority) refl s.here s

pub write_log-IsSound :
    (k : Kernel) (pid : ℕ) (kind : LogKind) → IsSound k → IsSound (write_log k pid kind)
write_log-IsSound k pid kind s = IsSound-same k (write_log k pid kind) refl refl s.here s

pub time-IsSound : (k : Kernel) (later : ℕ) → IsSound k → IsSound (record k { jiffies = later })
time-IsSound k later s = IsSound-same k _ refl refl s.here s

pub get_of_task_at :
    (ts : List (Option Task)) (i : ℕ) (t : Task)
    → task_at ts i ≡ some t
    → get_elem? ts i ≡ some (some t)
get_of_task_at ts i t e = ground (arith, e)

sys_nice_pid : (t : Task) (n : ℤ) → (sys_nice t n).pid ≡ t.pid
unfolding sys_nice
sys_nice_pid t n = ground arith

-- A call that returns on a sound kernel, and leaves one.
abbrev pub Runs : Option Kernel → Type 0
Runs o = (k : Kernel) × (o ≡ some k) × IsSound k

pub next : (k : Kernel) → IsSound k → Runs (schedule k)
next k s = let (k', run, _, sound, _, _, _, _) = schedule-IsSound k s in (k', run, sound)

sys_pause_run :
    (k : Kernel) (t : Task)
    → task_at k.tasks k.current ≡ some t
    → sys_pause k
      ≡ schedule (
          if t.pid == 0
          then put_task k k.current (record t { state = interruptible })
          else write_log (put_task k k.current (record t { state = interruptible })) t.pid waits)
unfolding sys_pause
sys_pause_run k t at = ground (arith, at)

pub sys_pause-IsSound : (k : Kernel) → IsSound k → Runs (sys_pause k)
sys_pause-IsSound k s =
    let (t, here, at) = current_task k s in
    let lain =
      put_task-IsSound k k.current t (record t { state = interruptible }) here refl refl s in
    let (k', run, sound) = next _ (by_pid t lain (t.pid == 0)) in
    (k', sys_pause_run k t at ∙ run, sound)
  where
    by_pid :
        (t : Task)
        → IsSound (put_task k k.current (record t { state = interruptible }))
        → (b : Bool)
        → IsSound (
            if b
            then put_task k k.current (record t { state = interruptible })
            else write_log (put_task k k.current (record t { state = interruptible })) t.pid waits)
    by_pid t h true = h
    by_pid t h false = write_log-IsSound _ t.pid waits h

tick_run :
    (k : Kernel) (t : Task) (user : Bool)
    → task_at k.tasks k.current ≡ some t
    → tick k user ≡ (
        if ltb 0 (ticked t.counter)
        then some (put_task k k.current (record t { counter = ticked t.counter }))
        else if user
        then schedule (put_task k k.current (record t { counter = ticked t.counter }))
        else some (put_task k k.current (record t { counter = ticked t.counter })))
unfolding tick
tick_run k t user at = ground (arith, at)

pub tick-IsSound : (k : Kernel) (user : Bool) → IsSound k → Runs (tick k user)
tick-IsSound k user s =
    let (t, here, at) = current_task k s in
    let after =
      put_task-IsSound k k.current t (record t { counter = ticked t.counter }) here refl refl s in
    let (k', run, sound) = by_counter t after (ltb 0 (ticked t.counter)) user in
    (k', tick_run k t user at ∙ run, sound)
  where
    by_counter :
        (t : Task)
        → IsSound (put_task k k.current (record t { counter = ticked t.counter }))
        → (b c : Bool)
        → Runs (
            if b
            then some (put_task k k.current (record t { counter = ticked t.counter }))
            else if c
            then schedule (put_task k k.current (record t { counter = ticked t.counter }))
            else some (put_task k k.current (record t { counter = ticked t.counter })))
    by_counter t h true c = (_, refl, h)
    by_counter t h false true = next _ h
    by_counter t h false false = (_, refl, h)

sleep_on_run :
    (k k' : Kernel) (t : Task) (head : Option ℕ)
    → k.current ≢ 0
    → task_at k.tasks k.current ≡ some t
    → schedule (write_log (put_task k k.current (record t { state = uninterruptible })) t.pid waits)
      ≡ some k'
    → sleep_on k head ≡ some (head, some k.current, k')
unfolding sleep_on
sleep_on_run k k' t head apart at run = ground (arith, apart, at, run)

pub sleep_on-IsSound :
    (k : Kernel) (head : Option ℕ)
    → k.current ≢ 0
    → IsSound k
    → (k' : Kernel) × (sleep_on k head ≡ some (head, some k.current, k')) × IsSound k'
sleep_on-IsSound k head apart s =
    let (t, here, at) = current_task k s in
    let lain =
      put_task-IsSound k k.current t (record t { state = uninterruptible }) here refl refl s in
    let (k', run, sound) = next _ (write_log-IsSound _ t.pid waits lain) in
    (k', sleep_on_run k k' t head apart at run, sound)

-- A queue's head that names no task is where the code follows a bad pointer.
pub make_running-IsSound :
    (k k' : Kernel) (p : Option ℕ) → IsSound k → make_running k p ≡ some k' → IsSound k'
unfolding make_running
make_running-IsSound k k' none s e = same_run (some k) k k' refl s e
make_running-IsSound k k' (some i) s e = elim (Option-cases (task_at k.tasks i)) [
  | inl gone ↦ absurd (ground (arith, e, gone))
  | inr (t, at) ↦
      let woken = record t { state = running } in
      same_run (make_running k (some i)) _ k' (ground (arith, at))
        (write_log-IsSound _ t.pid became_ready
          (put_task-IsSound k i t woken (get_of_task_at k.tasks i t at) refl refl s))
        e
]

pub sys_nice-IsSound :
    (k : Kernel) (t : Task) (n : ℤ)
    → task_at k.tasks k.current ≡ some t
    → IsSound k
    → IsSound (put_task k k.current (sys_nice t n))
sys_nice-IsSound k t n at s =
    let here = get_of_task_at k.tasks k.current t at in
    let id : get_elem? (idents k.tasks) k.current ≡ some (some (t.pid, t.priority)) =
      get_elem?-idents k.tasks k.current (some t) here in
    renice-IsSound k _ s k.current t.pid t.priority (sys_nice t n).priority
      (idents-set k.tasks k.current (some (sys_nice t n))
        ∙ ap (λ p. set (idents k.tasks) k.current (some (p, (sys_nice t n).priority)))
            (sys_nice_pid t n))
      id (sys_nice-IsPriority t n (s.positive k.current t.pid t.priority id)) refl refl
