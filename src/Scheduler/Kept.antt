-- ===== src/Scheduler/Kept.antt =====
-- What `schedule` and signals leave of a task.
use by_doing.Prelude.{
  ℕ, zero, suc, ◌≡◌, ◌≢◌, ◌⊎◌, ◌∙◌, sym, ap, refl, Bool, true, Option, some, List, [], ◌∷◌,
  get_elem?, set, arith, inl, inr, length, length-set,
}
use by_doing.Scheduler.{
  Task, Kernel, running, interruptible, zombie, check_task, check_tasks, schedule,
}
use by_doing.Scheduler.Rounds.{Picked, get_elem?-check_tasks, get_elem?-recharge, recharged}
use by_doing.Scheduler.Switch.{Scheduled}
use by_doing.Scheduler.Sound.{ident, idents, idents-put, IsSound, schedule-IsSound}

-- From `t` to `u` a task has at most been woken, got more signals, or had its counter or alarm changed.
pub record IsKept (t u : Task) : Type 0 where
  pub pid : u.pid ≡ t.pid
  pub priority : u.priority ≡ t.priority
  pub father : u.father ≡ t.father
  pub group : u.pgrp ≡ t.pgrp
  pub exit_code : u.exit_code ≡ t.exit_code
  pub times : (u.utime ≡ t.utime) × (u.stime ≡ t.stime)
  pub sums : (u.cutime ≡ t.cutime) × (u.cstime ≡ t.cstime)
  pub state : (u.state ≡ t.state) ⊎ ((t.state ≡ interruptible) × (u.state ≡ running))
  pub width : length u.signal ≡ length t.signal
  pub signals : (b : ℕ) → get_elem? t.signal b ≡ some true → get_elem? u.signal b ≡ some true

pub Kept_refl : (t : Task) → IsKept t t
Kept_refl t = record {
  pid = refl;
  priority = refl;
  father = refl;
  group = refl;
  exit_code = refl;
  times = (refl, refl);
  sums = (refl, refl);
  state = inl refl;
  width = refl;
  signals = λ b e. e;
}

state_trans :
    (t u v : Task)
    → (u.state ≡ t.state) ⊎ ((t.state ≡ interruptible) × (u.state ≡ running))
    → (v.state ≡ u.state) ⊎ ((u.state ≡ interruptible) × (v.state ≡ running))
    → (v.state ≡ t.state) ⊎ ((t.state ≡ interruptible) × (v.state ≡ running))
state_trans t u v (inl a) (inl b) = inl (b ∙ a)
state_trans t u v (inl a) (inr (b, c)) = inr (sym a ∙ b, c)
state_trans t u v (inr (a, b)) (inl c) = inr (a, c ∙ b)
state_trans t u v (inr (a, b)) (inr (c, d)) = absurd (cc (sym b ∙ c))

pub Kept_trans : {t u v : Task} → IsKept t u → IsKept u v → IsKept t v
Kept_trans {t} {u} {v} a b = record {
  pid = b.pid ∙ a.pid;
  priority = b.priority ∙ a.priority;
  father = b.father ∙ a.father;
  group = b.group ∙ a.group;
  exit_code = b.exit_code ∙ a.exit_code;
  times = (b.times.0 ∙ a.times.0, b.times.1 ∙ a.times.1);
  sums = (b.sums.0 ∙ a.sums.0, b.sums.1 ∙ a.sums.1);
  state = state_trans t u v a.state b.state;
  width = b.width ∙ a.width;
  signals = λ n e. b.signals n (a.signals n e);
}

-- A task that is dead stays dead.
pub Kept-zombie : (t u : Task) → IsKept t u → t.state ≡ zombie → u.state ≡ zombie
Kept-zombie t u k e = elim k.state [
  | inl same ↦ same ∙ e
  | inr (asleep, _) ↦ absurd (cc (sym asleep ∙ e))
]

set-signals :
    (l : List Bool) (n b : ℕ) → get_elem? l b ≡ some true → get_elem? (set l n true) b ≡ some true
set-signals [] n b e = absurd (cc e)
set-signals (x ∷ l) zero zero e = refl
set-signals (x ∷ l) zero (suc b) e = e
set-signals (x ∷ l) (suc n) zero e = e
set-signals (x ∷ l) (suc n) (suc b) e = set-signals l n b e

pub raised-Kept : (t : Task) (n : ℕ) → IsKept t (record t { signal = set t.signal n true })
raised-Kept t n = record {
  pid = refl;
  priority = refl;
  father = refl;
  group = refl;
  exit_code = refl;
  times = (refl, refl);
  sums = (refl, refl);
  state = inl refl;
  width = length-set t.signal n true;
  signals = set-signals t.signal n;
}

check_task-state :
    (j : ℕ) (t : Task)
    → ((check_task j t).0.state ≡ t.state)
      ⊎ ((t.state ≡ interruptible) × ((check_task j t).0.state ≡ running))
unfolding check_task
check_task-state j t = ground arith

check_task-signals :
    (j : ℕ) (t : Task) (b : ℕ)
    → get_elem? t.signal b ≡ some true
    → get_elem? (check_task j t).0.signal b ≡ some true
unfolding check_task
check_task-signals j t b e = ground (arith, e, set-signals t.signal 13 b e)

check_task-width : (j : ℕ) (t : Task) → length (check_task j t).0.signal ≡ length t.signal
unfolding check_task
check_task-width j t = ground (arith, length-set t.signal 13 true)

check_task-Kept : (j : ℕ) (t : Task) → IsKept t (check_task j t).0
unfolding check_task
check_task-Kept j t = record {
  pid = ground arith;
  priority = ground arith;
  father = ground arith;
  group = ground arith;
  exit_code = ground arith;
  times = (ground arith, ground arith);
  sums = (ground arith, ground arith);
  state = check_task-state j t;
  width = check_task-width j t;
  signals = check_task-signals j t;
}

-- Every task of `ts` has its like in `ts'`.
abbrev pub AllKept : List (Option Task) → List (Option Task) → Type 0
AllKept ts ts' =
    (j : ℕ) (t : Task)
    → get_elem? ts j ≡ some (some t)
    → (u : Task) × (get_elem? ts' j ≡ some (some u)) × IsKept t u

pub AllKept-refl : (ts : List (Option Task)) → AllKept ts ts
AllKept-refl ts j t e = (t, e, Kept_refl t)

pub AllKept-trans : (a b c : List (Option Task)) → AllKept a b → AllKept b c → AllKept a c
AllKept-trans a b c f g j t e =
    let (u, at, k) = f j t e in let (v, at', k') = g j u at in (v, at', Kept_trans k k')

pub AllKept-set :
    (ts : List (Option Task)) (j : ℕ) (t u : Task)
    → get_elem? ts j ≡ some (some t)
    → IsKept t u
    → AllKept ts (set ts j (some u))
AllKept-set [] j t u at k i v e = absurd (cc e)
AllKept-set (o ∷ ts) zero t u at k zero v e =
    let same : t ≡ v = ground (arith, at, e) in (u, refl, rw same at k)
AllKept-set (o ∷ ts) zero t u at k (suc i) v e = (v, e, Kept_refl v)
AllKept-set (o ∷ ts) (suc j) t u at k zero v e = (v, e, Kept_refl v)
AllKept-set (o ∷ ts) (suc j) t u at k (suc i) v e = AllKept-set ts j t u at k i v e

AllKept-Picked :
    (ts : List (Option Task)) (n : ℕ) (after : List (Option Task))
    → Picked ts n after
    → AllKept ts after
AllKept-Picked ts n after (inl (_, _, same)) j t e =
    (t, ap (λ x. get_elem? x j) same ∙ e, Kept_refl t)
AllKept-Picked ts n after (inr f) j t e = elim f.charged [
  | inl same ↦ (t, ap (λ x. get_elem? x j) same ∙ e, Kept_refl t)
  | inr (more, _) ↦ (
    recharged t,
    ap (λ x. get_elem? x j) more ∙ get_elem?-recharge ts j t e,
    record {
      pid = refl;
      priority = refl;
      father = refl;
      group = refl;
      exit_code = refl;
      times = (refl, refl);
      sums = (refl, refl);
      state = inl refl;
      width = refl;
      signals = λ b h. h;
    },
  )
]

-- `schedule` keeps every task, and a dead one is not the next.
module _ (k k' : Kernel) (x : Task) (ts : List (Option Task)) (all : k.tasks ≡ some x ∷ ts)
    (s : Scheduled (check_tasks k.jiffies ts).0 x k k') where
  kept_from :
      (j : ℕ) (t : Task)
      → get_elem? ts j ≡ some (some t)
      → (u : Task) × (get_elem? s.after j ≡ some (some u)) × IsKept t u
  kept_from j t e =
      let (v, at, h) =
        AllKept-Picked (check_tasks k.jiffies ts).0 k'.current s.after s.picked j _
          (get_elem?-check_tasks k.jiffies ts j t e) in
      (v, at, Kept_trans (check_task-Kept k.jiffies t) h)

  kept_table :
      (j : ℕ) (t : Task)
      → get_elem? (some x ∷ ts) j ≡ some (some t)
      → (u : Task) × (get_elem? (some x ∷ s.after) j ≡ some (some u)) × IsKept t u
  kept_table zero t e = (t, e, Kept_refl t)
  kept_table (suc j) t e = kept_from j t e

  pub schedule-AllKept : AllKept k.tasks k'.tasks
  schedule-AllKept j t e =
      let (u, at, h) = kept_table j t (ap (λ l. get_elem? l j) (sym all) ∙ e) in
      (u, ap (λ l. get_elem? l j) s.tasks ∙ at, h)

  not_next :
      (j : ℕ) (u : Task)
      → get_elem? s.after j ≡ some (some u)
      → u.state ≡ zombie
      → Picked (check_tasks k.jiffies ts).0 k'.current s.after
      → k'.current ≢ suc j
  not_next j u at d (inl (_, idle, _)) = omega (arith, idle)
  not_next j u at d (inr f) = λ here.
      let place : f.best.place ≡ j = omega (arith, f.best.counted, here) in
      let again : get_elem? s.after j ≡ some (some f.best.task) =
        ap (get_elem? s.after) (sym place) ∙ f.best.runs.at in
      absurd (ground (arith, at, again, d, f.best.runs.state))

  pub schedule-awake :
      (j : ℕ) (t : Task)
      → get_elem? k.tasks (suc j) ≡ some (some t)
      → t.state ≡ zombie
      → k'.current ≢ suc j
  schedule-awake j t e dead =
      let (u, at, h) = kept_from j t (ap (λ l. get_elem? l (suc j)) (sym all) ∙ e) in
      not_next j u at (Kept-zombie t u h dead) s.picked

-- The ids are the same and every task has its like.
abbrev pub Alike : List (Option Task) → List (Option Task) → Type 0
Alike ts ts' = (idents ts' ≡ idents ts) × AllKept ts ts'

pub Alike-refl : (ts : List (Option Task)) → Alike ts ts
Alike-refl ts = (refl, AllKept-refl ts)

pub Alike-trans : (a b c : List (Option Task)) → Alike a b → Alike b c → Alike a c
Alike-trans a b c (i, f) (j, g) = (j ∙ i, AllKept-trans a b c f g)

pub Alike-set :
    (ts : List (Option Task)) (j : ℕ) (t u : Task)
    → get_elem? ts j ≡ some (some t)
    → IsKept t u
    → Alike ts (set ts j (some u))
Alike-set ts j t u at k = (idents-put ts j t u at k.pid k.priority, AllKept-set ts j t u at k)

pub Alike-cons :
    (o : Option Task) (ts ts' : List (Option Task)) → Alike ts ts' → Alike (o ∷ ts) (o ∷ ts')
unfolding idents
Alike-cons o ts ts' (i, f) = (ap (λ l. ident o ∷ l) i, by_place)
  where
    by_place : AllKept (o ∷ ts) (o ∷ ts')
    by_place zero t e = (t, e, Kept_refl t)
    by_place (suc j) t e = f j t e

-- What a sound kernel is after `schedule`.
pub record IsNext (k k' : Kernel) : Type 0 where
  pub sound : IsSound k'
  pub ids : idents k'.tasks ≡ idents k.tasks
  pub kept : AllKept k.tasks k'.tasks
  pub awake :
      (j : ℕ) (t : Task)
      → get_elem? k.tasks (suc j) ≡ some (some t)
      → t.state ≡ zombie
      → k'.current ≢ suc j

pub schedule-IsNext :
    (k : Kernel) → IsSound k → (k' : Kernel) × (schedule k ≡ some k') × IsNext k k'
schedule-IsNext k s =
    let (k', run, same, sound, x, ts, all, h) = schedule-IsSound k s in
    (
      k',
      run,
      record {
        sound = sound;
        ids = same;
        kept = schedule-AllKept k k' x ts all h;
        awake = schedule-awake k k' x ts all h;
      },
    )
