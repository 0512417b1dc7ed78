-- ===== src/Scheduler/Sound.antt =====
-- What the kernel keeps of its tasks whatever they do: their ids and priorities, and the invariant of the
-- table of tasks.
use by_doing.Prelude.{
  ℕ, zero, suc, ◌≤◌, ◌<◌, ◌≡◌, refl, sym, ap, ◌∙◌, Option, none, some, List, [], ◌∷◌, length,
  get_elem?, set, arith, inl, inr,
}
use by_doing.Scheduler.{
  Task, Kernel, nr_tasks, long_limit, recharge, check_task, check_tasks, schedule, task_at,
}
use by_doing.Scheduler.Rounds.{IsPositive, IsPriority, Picked}
use by_doing.Scheduler.Switch.{Present, Scheduled, schedule-Scheduled, Picked-next}

abbrev pub Ident : Type 0
Ident = Option (ℕ × ℕ)

abbrev pub ident : Option Task → Ident
ident none = none
ident (some t) = some (t.pid, t.priority)

unfoldable pub idents : List (Option Task) → List Ident
idents [] = []
idents (o ∷ ts) = ident o ∷ idents ts

pub length-idents : (ts : List (Option Task)) → length (idents ts) ≡ length ts
unfolding idents
length-idents [] = refl
length-idents (o ∷ ts) = ap suc (length-idents ts)

pub idents-set :
    (ts : List (Option Task)) (j : ℕ) (o : Option Task)
    → idents (set ts j o) ≡ set (idents ts) j (ident o)
unfolding idents
idents-set [] j o = refl
idents-set (x ∷ ts) zero o = refl
idents-set (x ∷ ts) (suc j) o = ap (λ l. ident x ∷ l) (idents-set ts j o)

pub get_elem?-idents :
    (ts : List (Option Task)) (j : ℕ) (o : Option Task)
    → get_elem? ts j ≡ some o
    → get_elem? (idents ts) j ≡ some (ident o)
unfolding idents
get_elem?-idents [] j o e = absurd (cc e)
get_elem?-idents (x ∷ ts) zero o e = ground (arith, e)
get_elem?-idents (x ∷ ts) (suc j) o e = get_elem?-idents ts j o e

-- A task stands where its id does.
pub task_of_ident :
    (ts : List (Option Task)) (j p q : ℕ)
    → get_elem? (idents ts) j ≡ some (some (p, q))
    → (t : Task) × (get_elem? ts j ≡ some (some t)) × (t.pid ≡ p) × (t.priority ≡ q)
unfolding idents
task_of_ident [] j p q e = absurd (cc e)
task_of_ident (none ∷ ts) zero p q e = absurd (cc e)
task_of_ident (some t ∷ ts) zero p q e = (t, refl, ground (arith, e), ground (arith, e))
task_of_ident (x ∷ ts) (suc j) p q e = task_of_ident ts j p q e

pub set_same {ℓ} :
    {A : Type ℓ} (xs : List A) (j : ℕ) (a : A) → get_elem? xs j ≡ some a → set xs j a ≡ xs
set_same [] j a e = refl
set_same (x ∷ xs) zero a e = ground (arith, e)
set_same (x ∷ xs) (suc j) a e = ap (λ l. x ∷ l) (set_same xs j a e)

pub get_elem?-set_over {ℓ} :
    {A : Type ℓ} (xs : List A) (j : ℕ) (a b : A)
    → get_elem? xs j ≡ some a
    → get_elem? (set xs j b) j ≡ some b
get_elem?-set_over [] j a b e = absurd (cc e)
get_elem?-set_over (x ∷ xs) zero a b e = refl
get_elem?-set_over (x ∷ xs) (suc j) a b e = get_elem?-set_over xs j a b e

-- A task that is put back with its id and priority.
pub idents-put :
    (ts : List (Option Task)) (j : ℕ) (t u : Task)
    → get_elem? ts j ≡ some (some t)
    → u.pid ≡ t.pid
    → u.priority ≡ t.priority
    → idents (set ts j (some u)) ≡ idents ts
idents-put ts j t u e p q =
    idents-set ts j (some u)
    ∙ set_same (idents ts) j (some (u.pid, u.priority))
        (get_elem?-idents ts j (some t) e ∙ ground (arith, p, q))

idents-recharge : (ts : List (Option Task)) → idents (recharge ts) ≡ idents ts
unfolding idents recharge
idents-recharge [] = refl
idents-recharge (none ∷ ts) = ap (λ l. none ∷ l) (idents-recharge ts)
idents-recharge (some t ∷ ts) = ap (λ l. some (t.pid, t.priority) ∷ l) (idents-recharge ts)

check_task-ident : (j : ℕ) (t : Task) → ident (some (check_task j t).0) ≡ ident (some t)
unfolding check_task
check_task-ident j t = ground arith

idents-check_tasks : (j : ℕ) (ts : List (Option Task)) → idents (check_tasks j ts).0 ≡ idents ts
unfolding idents check_tasks
idents-check_tasks j [] = refl
idents-check_tasks j (none ∷ ts) = ap (λ l. none ∷ l) (idents-check_tasks j ts)
idents-check_tasks j (some t ∷ ts) =
    ap (λ i. i ∷ idents (check_tasks j ts).0) (check_task-ident j t)
    ∙ ap (λ l. ident (some t) ∷ l) (idents-check_tasks j ts)

idents-Picked :
    (ts : List (Option Task)) (n : ℕ) (after : List (Option Task))
    → Picked ts n after
    → idents after ≡ idents ts
idents-Picked ts n after (inl (idle, here, same)) = ap idents same
idents-Picked ts n after (inr f) = elim f.charged [
  | inl same ↦ ap idents same
  | inr (more, _) ↦ ap idents more ∙ idents-recharge ts
]

-- A task stands at the place.
abbrev pub Taken : List Ident → ℕ → Type 0
Taken ids j = (p : ℕ) × (q : ℕ) × (get_elem? ids j ≡ some (some (p, q)))

pub Present-Taken : (ts : List (Option Task)) (j : ℕ) → Present ts j → Taken (idents ts) j
Present-Taken ts j (t, e) = (t.pid, t.priority, get_elem?-idents ts j (some t) e)

pub Taken-Present : (ts : List (Option Task)) (j : ℕ) → Taken (idents ts) j → Present ts j
Taken-Present ts j (p, q, e) = let (t, at, _, _) = task_of_ident ts j p q e in (t, at)

-- There are at most 64 tasks, a task 0 and a current task among them; no two have one id, and each has a
-- priority that is above 0 as a `long`; `last_pid` fits its type.
pub record IsSound (k : Kernel) : Type 0 where
  pub few : length (idents k.tasks) ≤ nr_tasks
  pub first : Taken (idents k.tasks) 0
  pub here : Taken (idents k.tasks) k.current
  pub positive : (j p q : ℕ) → get_elem? (idents k.tasks) j ≡ some (some (p, q)) → IsPriority q
  pub distinct :
      (i j p q r : ℕ)
      → get_elem? (idents k.tasks) i ≡ some (some (p, q))
      → get_elem? (idents k.tasks) j ≡ some (some (p, r))
      → i ≡ j
  pub small : k.last_pid < long_limit

-- What keeps ids and priorities keeps the invariant.
pub IsSound-ids :
    (k k' : Kernel)
    → idents k'.tasks ≡ idents k.tasks
    → k'.last_pid < long_limit
    → Taken (idents k.tasks) k'.current
    → IsSound k
    → IsSound k'
IsSound-ids k k' same small here s = record {
  few = omega (arith, ap (length {A = Ident}) same, s.few);
  first = (s.first.0, s.first.1, ap (λ l. get_elem? l 0) same ∙ s.first.2);
  here = (here.0, here.1, ap (λ l. get_elem? l k'.current) same ∙ here.2);
  positive = λ j p q e. s.positive j p q (ap (λ l. get_elem? l j) (sym same) ∙ e);
  distinct = λ i j p q r d e.
      s.distinct i j p q r (ap (λ l. get_elem? l i) (sym same) ∙ d)
        (ap (λ l. get_elem? l j) (sym same) ∙ e);
  small = small;
}

pub IsSound-same :
    (k k' : Kernel)
    → idents k'.tasks ≡ idents k.tasks
    → k'.last_pid ≡ k.last_pid
    → Taken (idents k.tasks) k'.current
    → IsSound k
    → IsSound k'
IsSound-same k k' same last here s = IsSound-ids k k' same (omega (arith, last, s.small)) here s

-- The current task.
pub current_task :
    (k : Kernel)
    → IsSound k
    → (t : Task) × (get_elem? k.tasks k.current ≡ some (some t))
      × (task_at k.tasks k.current ≡ some t)
current_task k s = let (t, e) = Taken-Present k.tasks k.current s.here in (t, e, ground (arith, e))

above-IsPositive :
    (ts : List (Option Task))
    → ((j p q : ℕ) → get_elem? (idents ts) j ≡ some (some (p, q)) → IsPriority q)
    → IsPositive ts
unfolding idents
above-IsPositive [] h = tt
above-IsPositive (none ∷ ts) h = above-IsPositive ts (λ j. h (suc j))
above-IsPositive (some t ∷ ts) h = (h 0 t.pid t.priority refl, above-IsPositive ts (λ j. h (suc j)))

-- The table of a sound kernel begins with a task.
pub first_task :
    (k : Kernel) → IsSound k → (t : Task) × (ts : List (Option Task)) × (k.tasks ≡ some t ∷ ts)
first_task k s = by_table k.tasks s.first
  where
    by_table :
        (ts : List (Option Task))
        → Taken (idents ts) 0
        → (t : Task) × (rest : List (Option Task)) × (ts ≡ some t ∷ rest)
    by_table [] (p, q, e) = let (t, at, _, _) = task_of_ident [] 0 p q e in absurd (cc at)
    by_table (none ∷ ts) (p, q, e) =
        let (t, at, _, _) = task_of_ident (none ∷ ts) 0 p q e in absurd (cc at)
    by_table (some t ∷ ts) h = (t, ts, refl)

-- On a sound kernel `schedule` switches to a task, and keeps ids, priorities and the invariant.
pub schedule-IsSound :
    (k : Kernel)
    → IsSound k
    → (k' : Kernel) × (schedule k ≡ some k')
      × (idents k'.tasks ≡ idents k.tasks)
      × IsSound k'
      × (t : Task) × (ts : List (Option Task)) × (k.tasks ≡ some t ∷ ts)
      × Scheduled (check_tasks k.jiffies ts).0 t k k'
unfolding idents
schedule-IsSound k s =
    let (t, ts, all) = first_task k s in
    let same : idents k.tasks ≡ ident (some t) ∷ idents ts = ap idents all in
    let positive =
      above-IsPositive ts
        (λ j p q e. s.positive (suc j) p q (ap (λ l. get_elem? l (suc j)) same ∙ e)) in
    let (k', run, h) =
      schedule-Scheduled k t ts all positive (Taken-Present k.tasks k.current s.here) in
    let kept : idents k'.tasks ≡ idents k.tasks =
      ap idents h.tasks
      ∙ ap (λ l. ident (some t) ∷ l)
          (idents-Picked (check_tasks k.jiffies ts).0 k'.current h.after h.picked
            ∙ idents-check_tasks k.jiffies ts)
      ∙ sym same in
    let (p, q, e) =
      Present-Taken (some t ∷ h.after) k'.current
        (Picked-next (check_tasks k.jiffies ts).0 k'.current h.after t h.picked) in
    (
      k',
      run,
      kept,
      IsSound-same k k' kept h.last
          (p, q, ap (λ l. get_elem? l k'.current) (sym kept ∙ ap idents h.tasks) ∙ e) s,
      t,
      ts,
      all,
      h,
    )
