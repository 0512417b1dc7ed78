-- ===== src/Scheduler/Switch.antt =====
-- `schedule` as a whole, with the switch to another task.
use by_doing.Prelude.{
  ℕ, zero, suc, ◌≡◌, refl, Option, some, List, ◌∷◌, ◌++◌, get_elem?, arith, inl, inr, ◌∙◌, ap,
}
use by_doing.Scheduler.{
  Task, Kernel, LogLine, pick, rounds, check_tasks, switch_to, switch_log, schedule, check_task,
}
use by_doing.Scheduler.Rounds.{
  IsPositive, Picked, pick_lem, check_tasks-IsPositive, get_elem?-check_tasks, get_elem?-recharge,
  recharged,
}

-- Some task stands at the place.
abbrev pub Present : List (Option Task) → ℕ → Type 0
Present ts k = (u : Task) × (get_elem? ts k ≡ some (some u))

Picked-Present :
    (ts : List (Option Task)) (n : ℕ) (after : List (Option Task)) (k : ℕ)
    → Picked ts n after
    → Present ts k
    → Present after k
Picked-Present ts n after k (inl (idle, here, same)) (u, e) = (u, ap (λ x. get_elem? x k) same ∙ e)
Picked-Present ts n after k (inr f) (u, e) = elim f.charged [
  | inl same ↦ (u, ap (λ x. get_elem? x k) same ∙ e)
  | inr (more, _) ↦ (recharged u, ap (λ x. get_elem? x k) more ∙ get_elem?-recharge ts k u e)
]

pub Picked-next :
    (ts : List (Option Task)) (n : ℕ) (after : List (Option Task)) (t : Task)
    → Picked ts n after
    → Present (some t ∷ after) n
Picked-next ts n after t (inl (idle, here, same)) = (t, ap (get_elem? (some t ∷ after)) here)
Picked-next ts n after t (inr f) = (
  f.best.task,
  ap (get_elem? (some t ∷ after)) {x = n} {y = suc f.best.place} (omega (arith, f.best.counted))
      ∙ f.best.runs.at,
)

switch_to-Present :
    (k : Kernel) (n : ℕ)
    → Present k.tasks k.current
    → Present k.tasks n
    → (log : List LogLine) × (switch_to k n ≡ some (record k { current = n; log = log }))
switch_to-Present k n (old, at) (new, to) =
    (k.log ++ switch_log old new k.jiffies, ground (arith, at, to))

-- What `schedule` leaves: `checked` are the tasks after the loop over alarms and signals.
pub record Scheduled (checked : List (Option Task)) (t : Task) (k k' : Kernel) : Type 0 where
  pub after : List (Option Task)
  pub picked : Picked checked k'.current after
  pub tasks : k'.tasks ≡ some t ∷ after
  pub time : k'.jiffies ≡ k.jiffies
  pub last : k'.last_pid ≡ k.last_pid

check_tasks-Present :
    (j : ℕ) (t : Task) (ts : List (Option Task)) (k : ℕ)
    → Present (some t ∷ ts) k
    → Present (some t ∷ (check_tasks j ts).0) k
check_tasks-Present j t ts zero p = p
check_tasks-Present j t ts (suc k) (u, e) = ((check_task j u).0, get_elem?-check_tasks j ts k u e)

pick-Present :
    (ts : List (Option Task)) (n : ℕ) (after : List (Option Task)) (t : Task) (k : ℕ)
    → Picked ts n after
    → Present (some t ∷ ts) k
    → Present (some t ∷ after) k
pick-Present ts n after t zero h p = p
pick-Present ts n after t (suc k) h p = Picked-Present ts n after k h p

schedule_run :
    (k : Kernel) (t : Task) (ts : List (Option Task)) {n : ℕ} {after : List (Option Task)}
    → k.tasks ≡ some t ∷ ts
    → pick rounds (check_tasks k.jiffies ts).0 ≡ some (n, after)
    → schedule k
      ≡ switch_to
          (record k { tasks = some t ∷ after; log = k.log ++ (check_tasks k.jiffies ts).1 })
          n
unfolding schedule
schedule_run k t ts all run = ground (arith, all, run)

-- Let there be a task 0 and a current task, and let the other tasks have priorities that are above 0 as a
-- `long`. Then `schedule` ends, without recharging the counters more than once, and switches to the task
-- with the largest counter among the other tasks that are running with a counter that is not negative,
-- or to task 0 where there is none of these.
pub schedule-Scheduled :
    (k : Kernel) (t : Task) (ts : List (Option Task))
    → k.tasks ≡ some t ∷ ts
    → IsPositive ts
    → Present k.tasks k.current
    → (k' : Kernel) × (schedule k ≡ some k') × Scheduled (check_tasks k.jiffies ts).0 t k k'
schedule-Scheduled k t ts all p here =
    let checked = (check_tasks k.jiffies ts).0 in
    let log = k.log ++ (check_tasks k.jiffies ts).1 in
    let (n, after, run, h) = pick_lem checked (check_tasks-IsPositive k.jiffies ts p) in
    let now : Present (some t ∷ ts) k.current = rw all at here in
    let (lines, go) =
      switch_to-Present (record k { tasks = some t ∷ after; log = log }) n
        (pick-Present checked n after t k.current h
          (check_tasks-Present k.jiffies t ts k.current now))
        (Picked-next checked n after t h) in
    (
      record k { tasks = some t ∷ after; current = n; log = lines },
      schedule_run k t ts all run ∙ go,
      record { after = after; picked = h; tasks = refl; time = refl; last = refl },
    )
