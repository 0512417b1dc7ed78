-- ===== src/Scheduler/Rounds.antt =====
-- The outer loop of `schedule`.
use by_doing.Prelude.{
  ℕ, zero, suc, ◌+◌, ◌%◌, ◌^◌, ◌<◌, ◌≡◌, ◌⊎◌, refl, Option, none, some, List, [], ◌∷◌, get_elem?,
  arith, inl, inr,
}
use by_doing.Scheduler.{
  Task, choose, half, long_limit, recharge, pick, rounds, check_task, check_tasks,
}
use by_doing.Scheduler.Choice.{Runs, Runs-candidate, NoneRuns, Best, Chosen, choose-Chosen}

abbrev pub IsPriority : ℕ → Type 0
IsPriority p = (0 < p) × (p < long_limit)

-- As a `long`, every priority is above 0, as `sys_nice` keeps it.
abbrev pub IsPositive : List (Option Task) → Type 0
IsPositive [] = Unit
IsPositive (none ∷ ts) = IsPositive ts
IsPositive (some t ∷ ts) = IsPriority t.priority × IsPositive ts

pub priority-some :
    (ts : List (Option Task)) (k : ℕ) (u : Task)
    → IsPositive ts
    → get_elem? ts k ≡ some (some u)
    → IsPriority u.priority
priority-some [] k u p e = absurd (cc e)
priority-some (none ∷ ts) zero u p e = absurd (cc e)
priority-some (some t ∷ ts) zero u p e = (ground (arith, p.0.0, e), ground (arith, p.0.1, e))
priority-some (none ∷ ts) (suc k) u p e = priority-some ts k u p e
priority-some (some t ∷ ts) (suc k) u p e = priority-some ts k u p.1 e

abbrev pub recharged : Task → Task
recharged t = record t { counter = (half t.counter + t.priority) % 2 ^ 32 }

pub get_elem?-recharge :
    (ts : List (Option Task)) (k : ℕ) (u : Task)
    → get_elem? ts k ≡ some (some u)
    → get_elem? (recharge ts) k ≡ some (some (recharged u))
unfolding recharge
get_elem?-recharge [] k u e = absurd (cc e)
get_elem?-recharge (none ∷ ts) zero u e = absurd (cc e)
get_elem?-recharge (some t ∷ ts) zero u e = ground (arith, e)
get_elem?-recharge (none ∷ ts) (suc k) u e = get_elem?-recharge ts k u e
get_elem?-recharge (some t ∷ ts) (suc k) u e = get_elem?-recharge ts k u e

recharged-spent :
    (t : Task) → t.counter ≡ 0 → t.priority < long_limit → (recharged t).counter ≡ t.priority
recharged-spent t e h = ground (arith, e, h)

-- What the outer loop finds: a running task with the largest counter, which is above 0, the counters
-- recharged first if those of all running tasks were 0; or no task runs, and place 0 is taken.
pub record Found (ts : List (Option Task)) (n : ℕ) (after : List (Option Task)) : Type 0 where
  pub counter : ℕ
  pub counts : 0 < counter
  pub best : Best 1 after counter n
  pub charged :
      (after ≡ ts) ⊎ ((after ≡ recharge ts) × ((k : ℕ) (u : Task) → Runs ts k u → u.counter ≡ 0))

abbrev pub Picked : List (Option Task) → ℕ → List (Option Task) → Type 0
Picked ts n after = (NoneRuns ts × (n ≡ 0) × (after ≡ ts)) ⊎ Found ts n after

-- With a running task of priority above 0, a recharged list has a candidate.
second_round :
    (ts : List (Option Task)) (n : ℕ)
    → IsPositive ts
    → Best 1 ts 0 n
    → (c : ℕ) × (m : ℕ) × (choose 1 (recharge ts) ≡ some (suc c, m))
      × Best 1 (recharge ts) (suc c) m
second_round ts n p b = by_choice (choose 1 (recharge ts)) refl (choose-Chosen 1 (recharge ts))
  where
    new : (recharged b.task).counter ≡ b.task.priority
    new = recharged-spent b.task b.counter (priority-some ts b.place b.task p b.runs.at).1

    there : Runs (recharge ts) b.place (recharged b.task)
    there = record {
      at = get_elem?-recharge ts b.place b.task b.runs.at;
      state = b.runs.state;
      able = omega (arith, new, (priority-some ts b.place b.task p b.runs.at).1);
    }

    by_choice :
        (o : Option (ℕ × ℕ))
        → choose 1 (recharge ts) ≡ o
        → Chosen 1 (recharge ts) o
        → (c : ℕ) × (m : ℕ) × (choose 1 (recharge ts) ≡ some (suc c, m))
          × Best 1 (recharge ts) (suc c) m
    by_choice none e h = absurd (
        cc (
          h b.place (recharged b.task) there.at,
          Runs-candidate (recharge ts) b.place (recharged b.task) there,
        ))
    by_choice (some (zero, m)) e h = absurd (
        omega (
          arith,
          h.most b.place (recharged b.task) there,
          new,
          (priority-some ts b.place b.task p b.runs.at).0,
        ))
    by_choice (some (suc c, m)) e h = (c, m, e, h)

pub pick_lem :
    (ts : List (Option Task))
    → IsPositive ts
    → (n : ℕ) × (after : List (Option Task)) × (pick rounds ts ≡ some (n, after))
      × Picked ts n after
unfolding pick
pick_lem ts p = by_choice (choose 1 ts) refl (choose-Chosen 1 ts)
  where
    by_choice :
        (o : Option (ℕ × ℕ))
        → choose 1 ts ≡ o
        → Chosen 1 ts o
        → (n : ℕ) × (after : List (Option Task)) × (pick rounds ts ≡ some (n, after))
          × Picked ts n after
    by_choice none e h = (0, ts, ground (arith, e), inl (h, refl, refl))
    by_choice (some (zero, n)) e h =
        let (c, m, again, b) = second_round ts n p h in
        (
          m,
          recharge ts,
          ground (arith, e, again),
          inr (record {
            counter = suc c;
            counts = omega arith;
            best = b;
            charged = inr (refl, λ k u r. omega (arith, h.most k u r));
          }),
        )
    by_choice (some (suc c, n)) e h = (
      n,
      ts,
      ground (arith, e),
      inr (record { counter = suc c; counts = omega arith; best = h; charged = inl refl }),
    )

-- The first loop keeps every task in its place, with its priority.
pub check_task-priority : (j : ℕ) (t : Task) → (check_task j t).0.priority ≡ t.priority
unfolding check_task
check_task-priority j t = ground arith

pub check_tasks-IsPositive :
    (j : ℕ) (ts : List (Option Task)) → IsPositive ts → IsPositive (check_tasks j ts).0
unfolding check_tasks
check_tasks-IsPositive j [] p = tt
check_tasks-IsPositive j (none ∷ ts) p = check_tasks-IsPositive j ts p
check_tasks-IsPositive j (some t ∷ ts) p = (
  (omega (arith, p.0.0, check_task-priority j t), omega (arith, p.0.1, check_task-priority j t)),
  check_tasks-IsPositive j ts p.1,
)

pub get_elem?-check_tasks :
    (j : ℕ) (ts : List (Option Task)) (k : ℕ) (u : Task)
    → get_elem? ts k ≡ some (some u)
    → get_elem? (check_tasks j ts).0 k ≡ some (some (check_task j u).0)
unfolding check_tasks
get_elem?-check_tasks j [] k u e = absurd (cc e)
get_elem?-check_tasks j (none ∷ ts) zero u e = absurd (cc e)
get_elem?-check_tasks j (some t ∷ ts) zero u e = ground (arith, e)
get_elem?-check_tasks j (none ∷ ts) (suc k) u e = get_elem?-check_tasks j ts k u e
get_elem?-check_tasks j (some t ∷ ts) (suc k) u e = get_elem?-check_tasks j ts k u e
