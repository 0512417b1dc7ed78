-- ===== src/Scheduler/Choice.antt =====
-- The inner loop of `schedule`: the running task with the largest counter.
use by_doing.Prelude.{
  ℕ, zero, suc, ◌+◌, ◌≤◌, ◌<◌, ◌≡◌, refl, true, false, Option, none, some, List, [], ◌∷◌,
  if◌then◌else◌, get_elem?, arith, Bool-cases, inl, inr, dec_lt,
}
use by_doing.Scheduler.{Task, is_running, is_candidate, long_limit, choose, beats}

-- The task `u` stands at place `k` and is running, with a counter that is not negative.
pub record Runs (ts : List (Option Task)) (k : ℕ) (u : Task) : Type 0 where
  pub at : get_elem? ts k ≡ some (some u)
  pub state : is_running u.state ≡ true
  pub able : u.counter < long_limit

pub Runs-candidate :
    (ts : List (Option Task)) (k : ℕ) (u : Task) → Runs ts k u → is_candidate u ≡ true
Runs-candidate ts k u r = ground (arith, r.state, r.able)

candidate-Runs :
    (ts : List (Option Task)) (k : ℕ) (u : Task)
    → get_elem? ts k ≡ some (some u)
    → is_candidate u ≡ true
    → Runs ts k u
candidate-Runs ts k u at e = record { at = at; state = ground (arith, e); able = ground (arith, e) }

abbrev pub NoneRuns : List (Option Task) → Type 0
NoneRuns ts = (k : ℕ) (u : Task) → get_elem? ts k ≡ some (some u) → is_candidate u ≡ false

-- The place `n`, counted from `i`, holds a running task with the counter `c`, and no running task has more.
pub record Best (i : ℕ) (ts : List (Option Task)) (c n : ℕ) : Type 0 where
  pub place : ℕ
  pub task : Task
  pub counted : n ≡ i + place
  pub runs : Runs ts place task
  pub counter : task.counter ≡ c
  pub most : (k : ℕ) (u : Task) → Runs ts k u → u.counter ≤ c

abbrev pub Chosen : ℕ → List (Option Task) → Option (ℕ × ℕ) → Type 0
Chosen i ts none = NoneRuns ts
Chosen i ts (some (c, n)) = Best i ts c n

-- The entry in front does not run.
abbrev Idle : Option Task → Type 0
Idle o = (u : Task) → o ≡ some u → is_candidate u ≡ false

none-ahead : (o : Option Task) (ts : List (Option Task)) → Idle o → NoneRuns ts → NoneRuns (o ∷ ts)
none-ahead o ts idle h zero u e = idle u (cc)
none-ahead o ts idle h (suc k) u e = h k u e

most-ahead :
    (o : Option Task) (ts : List (Option Task)) (c : ℕ)
    → ((u : Task) → o ≡ some u → is_candidate u ≡ true → u.counter ≤ c)
    → ((k : ℕ) (u : Task) → Runs ts k u → u.counter ≤ c)
    → (k : ℕ) (u : Task) → Runs (o ∷ ts) k u
    → u.counter ≤ c
most-ahead o ts c front h zero u r = front u (cc r.at) (Runs-candidate (o ∷ ts) zero u r)
most-ahead o ts c front h (suc k) u r = h k u (record { at = r.at; state = r.state; able = r.able })

-- The choice among the later places stands where the entry in front does not beat it.
later-Best :
    (i : ℕ) (o : Option Task) (ts : List (Option Task)) (c n : ℕ)
    → ((u : Task) → o ≡ some u → is_candidate u ≡ true → u.counter ≤ c)
    → Best (suc i) ts c n
    → Best i (o ∷ ts) c n
later-Best i o ts c n front h = record {
  place = suc h.place;
  task = h.task;
  counted = omega (arith, h.counted);
  runs = record { at = h.runs.at; state = h.runs.state; able = h.runs.able };
  counter = h.counter;
  most = most-ahead o ts c front h.most;
}

front-Best :
    (i : ℕ) (t : Task) (ts : List (Option Task))
    → is_candidate t ≡ true
    → ((k : ℕ) (u : Task) → Runs ts k u → u.counter ≤ t.counter)
    → Best i (some t ∷ ts) t.counter i
front-Best i t ts run h = record {
  place = 0;
  task = t;
  counted = omega arith;
  runs = candidate-Runs (some t ∷ ts) 0 t refl run;
  counter = refl;
  most = most-ahead (some t) ts t.counter (λ u e _. ground (arith, e)) h;
}

skip :
    (i : ℕ) (o : Option Task) (ts : List (Option Task)) (r : Option (ℕ × ℕ))
    → Idle o
    → Chosen (suc i) ts r
    → Chosen i (o ∷ ts) r
skip i o ts none idle h = none-ahead o ts idle h
skip i o ts (some (c, n)) idle h = later-Best i o ts c n (λ u e run. absurd (cc (idle u e, run))) h

-- A running task in front.
compete :
    (i : ℕ) (t : Task) (ts : List (Option Task)) (r : Option (ℕ × ℕ))
    → is_candidate t ≡ true
    → Chosen (suc i) ts r
    → Chosen i (some t ∷ ts) (if beats t r then some (t.counter, i) else r)
compete i t ts none run h =
    front-Best i t ts run λ k u r. absurd (cc (h k u r.at, Runs-candidate ts k u r))
compete i t ts (some (c, n)) run h = elim (dec_lt c t.counter) [
  | yes more ↦
      let e : beats t (some (c, n)) ≡ true = ground arith in
      rw e (front-Best i t ts run λ k u r. omega (arith, h.most k u r))
  | no less ↦
      let e : beats t (some (c, n)) ≡ false = ground arith in
      rw e (later-Best i (some t) ts c n (λ u same _. ground (arith, same)) h)
]

-- The inner loop finds no task exactly where none runs, and otherwise the place of a running task with the
-- largest counter.
pub choose-Chosen : (i : ℕ) (ts : List (Option Task)) → Chosen i ts (choose i ts)
unfolding choose
choose-Chosen i [] = λ k u e. absurd (cc e)
choose-Chosen i (none ∷ ts) =
    skip i none ts (choose (suc i) ts) (λ u e. absurd (cc e)) (choose-Chosen (suc i) ts)
choose-Chosen i (some t ∷ ts) = elim (Bool-cases (is_candidate t)) [
  | inl run ↦ rw run (compete i t ts (choose (suc i) ts) run (choose-Chosen (suc i) ts))
  | inr idle ↦
      rw idle
        (skip i (some t) ts (choose (suc i) ts) (λ u e. cc (idle, e)) (choose-Chosen (suc i) ts))
]
