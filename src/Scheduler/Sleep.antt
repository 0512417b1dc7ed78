-- ===== src/Scheduler/Sleep.antt =====
-- `sleep_on` and `wake_up` of OS/process/sched.c.
use by_doing.Prelude.{
  ℕ, zero, suc, ◌≡◌, ◌≢◌, refl, Option, none, some, List, [], ◌∷◌, get_elem?, set, arith, inl, inr,
  sym, ◌∙◌, ap,
}
use by_doing.Scheduler.{
  Task, Kernel, uninterruptible, running, waits, became_ready, check_task, check_tasks, task_at,
  schedule,
}
use by_doing.Scheduler.Rounds.{
  IsPositive, IsPriority, priority-some, Picked, get_elem?-check_tasks, get_elem?-recharge,
  recharged,
}
use by_doing.Scheduler.Switch.{schedule-Scheduled}
use by_doing.Scheduler.Calls.{sleep_on, wake_up, make_running, put_task, write_log}

-- The task `pid` sleeps at the place and cannot be interrupted.
pub record Asleep (pid : ℕ) (ts : List (Option Task)) (k : ℕ) : Type 0 where
  pub task : Task
  pub at : get_elem? ts k ≡ some (some task)
  pub state : task.state ≡ uninterruptible
  pub same : task.pid ≡ pid

check_task-asleep :
    (j : ℕ) (t : Task)
    → t.state ≡ uninterruptible
    → ((check_task j t).0.state ≡ uninterruptible) × ((check_task j t).0.pid ≡ t.pid)
unfolding check_task
check_task-asleep j t e = ground (arith, e)

check_tasks-Asleep :
    (j pid : ℕ) (ts : List (Option Task)) (k : ℕ)
    → Asleep pid ts k
    → Asleep pid (check_tasks j ts).0 k
check_tasks-Asleep j pid ts k a = record {
  task = (check_task j a.task).0;
  at = get_elem?-check_tasks j ts k a.task a.at;
  state = (check_task-asleep j a.task a.state).0;
  same = (check_task-asleep j a.task a.state).1 ∙ a.same;
}

pick-Asleep :
    (pid n : ℕ) (ts after : List (Option Task)) (k : ℕ)
    → Picked ts n after
    → Asleep pid ts k
    → Asleep pid after k × (n ≢ suc k)
pick-Asleep pid n ts after k (inl (idle, here, same)) a = (
  record {
    task = a.task;
    at = ap (λ x. get_elem? x k) same ∙ a.at;
    state = a.state;
    same = a.same;
  },
  omega arith,
)
pick-Asleep pid n ts after k (inr f) a = elim f.charged [
  | inl same ↦ (rests a.task (ap (λ x. get_elem? x k) same ∙ a.at) a.state a.same)
  | inr (more, _) ↦
      rests (recharged a.task) (ap (λ x. get_elem? x k) more ∙ get_elem?-recharge ts k a.task a.at)
        a.state a.same
]
  where
    awake : (u : Task) → get_elem? after k ≡ some (some u) → u.state ≡ uninterruptible → n ≢ suc k
    awake u e s here =
        let place : f.best.place ≡ k = omega (arith, f.best.counted) in
        let again : get_elem? after k ≡ some (some f.best.task) =
          ap (get_elem? after) (sym place) ∙ f.best.runs.at in
        absurd (ground (arith, e, again, s, f.best.runs.state))

    rests :
        (u : Task)
        → get_elem? after k ≡ some (some u)
        → u.state ≡ uninterruptible
        → u.pid ≡ pid
        → Asleep pid after k × (n ≢ suc k)
    rests u e s p = (record { task = u; at = e; state = s; same = p }, awake u e s)

IsPositive-set :
    (ts : List (Option Task)) (k : ℕ) (t : Task)
    → IsPositive ts
    → IsPriority t.priority
    → IsPositive (set ts k (some t))
IsPositive-set [] k t p h = tt
IsPositive-set (none ∷ ts) zero t p h = (h, p)
IsPositive-set (some u ∷ ts) zero t p h = (h, p.1)
IsPositive-set (none ∷ ts) (suc k) t p h = IsPositive-set ts k t p h
IsPositive-set (some u ∷ ts) (suc k) t p h = (p.0, IsPositive-set ts k t p.1 h)

-- The current task `j + 1` in its sleep.
abbrev laid : Kernel → ℕ → Task → Kernel
laid k j t = write_log (put_task k (suc j) (record t { state = uninterruptible })) t.pid waits

pub get_elem?-set-here :
    (ts : List (Option Task)) (k : ℕ) (u v : Task)
    → get_elem? ts k ≡ some (some u)
    → get_elem? (set ts k (some v)) k ≡ some (some v)
get_elem?-set-here [] k u v e = absurd (cc e)
get_elem?-set-here (o ∷ ts) zero u v e = refl
get_elem?-set-here (o ∷ ts) (suc k) u v e = get_elem?-set-here ts k u v e

sleep_on_run :
    (k : Kernel) (t : Task) (j : ℕ) (head : Option ℕ) {k' : Kernel}
    → k.current ≡ suc j
    → task_at k.tasks (suc j) ≡ some t
    → schedule (laid k j t) ≡ some k'
    → sleep_on k head ≡ some (head, some (suc j), k')
unfolding sleep_on
sleep_on_run k t j head here at run = ground (arith, here, at, run)

-- Let a task that is not task 0 call `sleep_on`, with a task 0 there and all priorities above 0. Then
-- another task is current, the caller sleeps, is the new head of the queue, and keeps the old head; and
-- when `wake_up` is called on the queue as it is then, exactly the caller is made running.
pub sleep_on-wake_up :
    (k : Kernel) (o t : Task) (ts : List (Option Task)) (j : ℕ) (head : Option ℕ)
    → k.tasks ≡ some o ∷ ts
    → k.current ≡ suc j
    → get_elem? ts j ≡ some (some t)
    → IsPositive ts
    → (k' : Kernel) × (sleep_on k head ≡ some (head, some (suc j), k'))
      × (k'.current ≢ suc j)
      × (u : Task) × (task_at k'.tasks (suc j) ≡ some u)
      × (u.pid ≡ t.pid)
      × (u.state ≡ uninterruptible)
      × (wake_up k' (some (suc j))
          ≡ some (
            none,
            write_log (put_task k' (suc j) (record u { state = running })) t.pid became_ready,
          ))
unfolding wake_up make_running
sleep_on-wake_up k o t ts j head all here at p =
    let above = priority-some ts j t p at in
    let v = record t { state = uninterruptible } in
    let ts' = set ts j (some v) in
    let sleeping = get_elem?-set-here ts j t v at in
    let shape : (laid k j t).tasks ≡ some o ∷ ts' = ap (λ x. set x (suc j) (some v)) all in
    let (k', run, s) = schedule-Scheduled (laid k j t) o ts' shape (IsPositive-set ts j v p above) (
      v,
      ap (λ x. get_elem? (laid k j t).tasks x) here
          ∙ ap (λ x. get_elem? x (suc j)) shape
          ∙ sleeping,
    ) in
    let asleep =
      check_tasks-Asleep k.jiffies t.pid ts' j
        (record { task = v; at = sleeping; state = refl; same = refl }) in
    let (a, other) = pick-Asleep t.pid k'.current _ s.after j s.picked asleep in
    let there : task_at k'.tasks (suc j) ≡ some a.task = ground (arith, s.tasks, a.at) in
    (
      k',
      sleep_on_run k t j head here (ground (arith, all, at)) run,
      other,
      a.task,
      there,
      a.same,
      a.state,
      ground (arith, there, a.same),
    )
