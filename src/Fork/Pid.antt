-- ===== src/Fork/Pid.antt =====
-- `find_empty_process` of OS/process/fork.c.
use by_doing.Prelude.{
  ℕ, zero, suc, ◌+◌, ◌-◌, ◌≤◌, ◌<◌, ◌≡◌, ◌≢◌, ◌∙◌, ap, sym, refl, true, false, Option, none, some,
  List, [], ◌∷◌, ltb, if◌then◌else◌, length, arith, drop, Bool-cases, inl, inr, get_elem?,
}
use by_doing.Prelude.Members.{elem, remove, elem-remove, length-remove}
use by_doing.Scheduler.{Task, Kernel, nr_tasks, long_limit}
use by_doing.Fork.{next_pid, pid_used, search_pid, free_place, find_empty_process, place_result}

-- The ids of the tasks.
unfoldable pub pids : List (Option Task) → List ℕ
pids [] = []
pids (none ∷ ts) = pids ts
pids (some t ∷ ts) = t.pid ∷ pids ts

elem-pids : (p : ℕ) (ts : List (Option Task)) → elem p (pids ts) ≡ pid_used p ts
unfolding elem pids pid_used
elem-pids p [] = refl
elem-pids p (none ∷ ts) = elem-pids p ts
elem-pids p (some t ∷ ts) = ground (arith, elem-pids p ts)

length-pids : (ts : List (Option Task)) → length (pids ts) ≤ length ts
unfolding pids
length-pids [] = omega arith
length-pids (none ∷ ts) = omega (arith, length-pids ts)
length-pids (some t ∷ ts) = omega (arith, length-pids ts)

-- The id that is tried in round `j`.
abbrev ahead : ℕ → ℕ → ℕ
ahead last j = if ltb (last + j) long_limit then last + j else last + j + 1 - long_limit

next-ahead :
    (last j : ℕ)
    → last < long_limit
    → j + 1 < long_limit
    → next_pid (ahead last j) ≡ ahead last (j + 1)
next-ahead last j h k = ground arith

ahead-apart :
    (last i j : ℕ)
    → last < long_limit
    → 0 < i
    → i < j
    → j + 1 < long_limit
    → ahead last i ≢ ahead last j
ahead-apart last i j h z lt k = ground arith

ahead-range :
    (last j : ℕ)
    → last < long_limit
    → 0 < j
    → j + 1 < long_limit
    → (0 < ahead last j) × (ahead last j < long_limit)
ahead-range last j h z k = ground arith

-- An id that no task has.
pub record IsFresh (ts : List (Option Task)) (p : ℕ) : Type 0 where
  pub unused : pid_used p ts ≡ false
  pub above : 0 < p
  pub below : p < long_limit

-- `left` holds every used id that the rounds to come may meet; a round that fails takes one out.
search_pid-IsFresh :
    (rounds k last : ℕ) (ts : List (Option Task)) (left : List ℕ)
    → last < long_limit
    → k + rounds + 1 < long_limit
    → length left < rounds
    → ((j : ℕ)
        → k < j
        → j ≤ k + rounds
        → elem (ahead last j) (pids ts) ≡ true
        → elem (ahead last j) left ≡ true)
    → (p : ℕ) × (search_pid rounds (ahead last k) ts ≡ some p) × IsFresh ts p
unfolding search_pid
search_pid-IsFresh zero k last ts left h fits enough all = absurd (omega arith)
search_pid-IsFresh (suc rounds) k last ts left h fits enough all =
    let p = ahead last (k + 1) in
    let step = next-ahead last k h (omega arith) in
    elim (Bool-cases (pid_used p ts)) [
      | inr fresh ↦
          let (above, below) = ahead-range last (k + 1) h (omega arith) (omega arith) in
          (p, ground (arith, step, fresh), record { unused = fresh; above = above; below = below })
      | inl used ↦
          let here = all (k + 1) (omega arith) (omega arith) (elem-pids p ts ∙ used) in
          let later =
            search_pid-IsFresh rounds (k + 1) last ts (remove p left) h (omega arith)
              (omega (arith, length-remove p left here))
              (λ j lt le e.
                elem-remove p (ahead last j) left
                  (ahead-apart last (k + 1) j h (omega arith) (omega arith) (omega arith))
                  (all j (omega arith) (omega arith) e)) in
          (later.0, ground (arith, step, used, later.1), later.2)
    ]

-- The place found is the first without a task, and there is none where all are taken.
abbrev pub FirstFree : ℕ → List (Option Task) → Option ℕ → Type 0
FirstFree i ts none = (j : ℕ) → get_elem? ts j ≢ some none
FirstFree i ts (some n) =
    (j : ℕ) × (n ≡ i + j)
    × (get_elem? ts j ≡ some none)
    × ((m : ℕ) → m < j → get_elem? ts m ≢ some none)

none-later :
    (t : Task) (ts : List (Option Task))
    → ((j : ℕ) → get_elem? ts j ≢ some none)
    → (j : ℕ) → get_elem? (some t ∷ ts) j ≢ some none
none-later t ts h zero = λ e. cc e
none-later t ts h (suc j) = h j

below-later :
    (t : Task) (ts : List (Option Task)) (k : ℕ)
    → ((m : ℕ) → m < k → get_elem? ts m ≢ some none)
    → (m : ℕ) → m < suc k
    → get_elem? (some t ∷ ts) m ≢ some none
below-later t ts k h zero lt = λ e. cc e
below-later t ts k h (suc m) lt = h m (omega arith)

FirstFree-later :
    (i : ℕ) (t : Task) (ts : List (Option Task)) (o : Option ℕ)
    → FirstFree (suc i) ts o
    → FirstFree i (some t ∷ ts) o
FirstFree-later i t ts none h = none-later t ts h
FirstFree-later i t ts (some n) (j, at, free, before) =
    (suc j, omega arith, free, below-later t ts j before)

free_place-FirstFree : (i : ℕ) (ts : List (Option Task)) → FirstFree i ts (free_place i ts)
unfolding free_place
free_place-FirstFree i [] = λ j e. cc e
free_place-FirstFree i (none ∷ ts) = (0, omega arith, refl, λ m lt. absurd (omega arith))
free_place-FirstFree i (some t ∷ ts) =
    FirstFree-later i t ts (free_place (suc i) ts) (free_place-FirstFree (suc i) ts)

-- With at most 64 tasks the search for an id ends: the new `last_pid` is above 0 and is no task's id, also
-- after the counter has wrapped round. The value returned is the first place from 1 on without a task,
-- or -EAGAIN where there is none; nothing else has changed.
pub find_empty_process-IsFresh :
    (k : Kernel)
    → length k.tasks ≤ nr_tasks
    → k.last_pid < long_limit
    → (p : ℕ) × (o : Option ℕ) × (find_empty_process k
        ≡ some (place_result o, record k { last_pid = p }))
      × IsFresh k.tasks p
      × FirstFree 1 (drop 1 k.tasks) o
unfolding find_empty_process
find_empty_process-IsFresh k few small =
    let start : ahead k.last_pid 0 ≡ k.last_pid = ground arith in
    let found =
      search_pid-IsFresh (suc nr_tasks) 0 k.last_pid k.tasks (pids k.tasks) small (omega arith)
        (omega (arith, length-pids k.tasks)) (λ j lt le e. e) in
    let run : search_pid (suc nr_tasks) k.last_pid k.tasks ≡ some found.0 =
      ap (λ x. search_pid (suc nr_tasks) x k.tasks) (sym start) ∙ found.1 in
    (
      found.0,
      free_place 1 (drop 1 k.tasks),
      ground (arith, run),
      found.2,
      free_place-FirstFree 1 (drop 1 k.tasks),
    )
