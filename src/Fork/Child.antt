-- ===== src/Fork/Child.antt =====
-- `find_empty_process` and then `copy_process`: the child, and what else changes.
use by_doing.Prelude.{
  ℕ, zero, suc, ◌<◌, ◌≤◌, ◌*◌, if◌then◌else◌, ◌≡◌, ◌≢◌, ◌∙◌, ◌⊎◌, ap, sym, refl, Bool, true, false,
  Option, none, some, List, [], ◌∷◌, arith, get_elem?, set, drop, inl, inr,
}
use by_doing.Prelude.Int.{ℤ, pos}
use by_doing.Scheduler.{Task, Kernel, running, task_at, long_limit}
use by_doing.Scheduler.Sound.{
  idents, length-idents, IsSound, IsSound-ids, current_task, first_task, set_same, idents-set,
  get_elem?-idents,
}
use by_doing.Scheduler.Change.{add-IsSound}
use by_doing.Fork.{
  Registers, find_empty_process, copy_process, copy_mem, copied_task, let_run, sys_fork, pid_used,
  eagain, no_signals, place_result, child_tss,
}
use by_doing.Fork.Pid.{find_empty_process-IsFresh, IsFresh, FirstFree}

unused-idents :
    (p : ℕ) (ts : List (Option Task))
    → pid_used p ts ≡ false
    → (j q : ℕ) → get_elem? (idents ts) j ≢ some (some (p, q))
unfolding pid_used idents
unused-idents p [] h j q = λ e. cc e
unused-idents p (none ∷ ts) h zero q = λ e. cc e
unused-idents p (none ∷ ts) h (suc j) q = unused-idents p ts h j q
unused-idents p (some t ∷ ts) h zero q = λ e. ground (arith, e)
unused-idents p (some t ∷ ts) h (suc j) q = unused-idents p ts (ground (arith, h)) j q

-- The new task `c` of the parent `t`: only its registers, its bases and its id are new.
pub record IsChild (k : Kernel) (t c : Task) (pid : ℕ) : Type 0 where
  pub id : c.pid ≡ pid
  pub father : c.father ≡ pos t.pid
  pub state : c.state ≡ running
  pub counter : c.counter ≡ t.priority
  pub priority : c.priority ≡ t.priority
  pub signal : c.signal ≡ no_signals
  pub blocked : c.blocked ≡ t.blocked
  pub group : (c.pgrp ≡ t.pgrp) × (c.session ≡ t.session)
  pub follows : c.leader ≡ false
  pub young : (c.utime ≡ 0) × (c.stime ≡ 0) × (c.alarm ≡ 0) × (c.start_time ≡ k.jiffies)
  pub answer : c.tss.eax ≡ 0
  pub files :
      (c.filp ≡ t.filp) × (c.pwd ≡ t.pwd) × (c.root ≡ t.root) × (c.executable ≡ t.executable)

-- No memory for the task, none for its pages, or no free place.
abbrev pub Refused : Kernel → Option ℕ → Bool → Type 0
Refused k page copied =
    (page ≡ none) ⊎ ((copied ≡ false) ⊎ ((j : ℕ) → get_elem? k.tasks (suc j) ≢ some none))

-- The call failed, and the tasks are as they were; or a child of the current task stands in a place that
-- was free, with an id that no task had, and the other tasks are as they were.
pub data Forked (k : Kernel) (t : Task) (page : Option ℕ) (copied : Bool)
    : ℤ → Kernel → Type 0 where
  failed :
      (k' : Kernel)
      → Refused k page copied
      → k'.tasks ≡ k.tasks
      → k'.current ≡ k.current
      → k'.last_pid < long_limit
      → Forked k t page copied eagain k'
  forked :
      (k' : Kernel) (n p : ℕ) (c : Task)
      → get_elem? k.tasks n ≡ some none
      → IsFresh k.tasks p
      → IsChild k t c p
      → k'.tasks ≡ set k.tasks n (some c)
      → k'.current ≡ k.current
      → k'.last_pid ≡ p
      → Forked k t page copied (pos p) k'

-- The invariant holds after both.
Forked-IsSound :
    (k k' : Kernel) (t : Task) (page : Option ℕ) (copied : Bool) (e : ℤ)
    → get_elem? k.tasks k.current ≡ some (some t)
    → IsSound k
    → Forked k t page copied e k'
    → IsSound k'
Forked-IsSound k k' t page copied e at s (failed _ why same here small) =
    IsSound-ids k k' (ap idents same) small
      (s.here.0, s.here.1, ap (get_elem? (idents k.tasks)) here ∙ s.here.2) s
Forked-IsSound k k' t page copied e at s (forked _ n p c free fresh child same here last) =
    add-IsSound k k' s n p t.priority
      (ap idents same
        ∙ idents-set k.tasks n (some c)
        ∙ ap (λ x. set (idents k.tasks) n x) (ground (arith, child.id, child.priority)))
      (get_elem?-idents k.tasks n none free) (unused-idents p k.tasks fresh.unused)
      (s.positive k.current t.pid t.priority (get_elem?-idents k.tasks k.current (some t) at)) here
      (omega (arith, last, fresh.below))

-- The child, before it may run.
abbrev new_task : Registers → ℕ → ℕ → Kernel → Task → Task
new_task r page nr k t = record (copied_task r page nr k t) {
  start_code = nr * 0x4000000;
  code_base = nr * 0x4000000;
  data_base = nr * 0x4000000;
}

copy_process_run :
    (r : Registers) (page code_limit data_limit nr : ℕ) (copied : Bool) (k : Kernel) (t : Task)
    → task_at k.tasks k.current ≡ some t
    → t.data_base ≡ t.code_base
    → code_limit ≤ data_limit
    → copy_process r (some page) code_limit data_limit copied nr k
      ≡ some (
          if copied
          then (pos k.last_pid, let_run k nr (new_task r page nr k t))
          else (eagain, record k { tasks = set k.tasks nr none }))
unfolding copy_process copy_mem
copy_process_run r page code_limit data_limit nr true k t at bases fits =
    ground (arith, at, bases, fits)
copy_process_run r page code_limit data_limit nr false k t at bases fits =
    ground (arith, at, bases, fits)

new_task-IsChild :
    (r : Registers) (page nr : ℕ) (k k' : Kernel) (t : Task)
    → k'.jiffies ≡ k.jiffies
    → IsChild k t (record (new_task r page nr k' t) { state = running }) k'.last_pid
unfolding child_tss
new_task-IsChild r page nr k k' t time = record {
  id = refl;
  father = refl;
  state = refl;
  counter = refl;
  priority = refl;
  signal = refl;
  blocked = refl;
  group = (refl, refl);
  follows = refl;
  young = (refl, refl, refl, time);
  answer = refl;
  files = (refl, refl, refl, refl);
}

module _ (r : Registers) (code_limit data_limit : ℕ) (k : Kernel) (t : Task) where
  abbrev Result : Option ℕ → Bool → Option (ℤ × Kernel) → Type 0
  Result page copied o = (e : ℤ) × (k' : Kernel) × (o ≡ some (e, k')) × Forked k t page copied e k'

  copied-Forked :
      (page nr p : ℕ) (copied : Bool)
      → task_at k.tasks k.current ≡ some t
      → t.data_base ≡ t.code_base
      → code_limit ≤ data_limit
      → IsFresh k.tasks p
      → get_elem? k.tasks nr ≡ some none
      → Result
          (some page)
          copied
          (copy_process r (some page) code_limit data_limit copied nr (record k { last_pid = p }))
  copied-Forked page nr p true at bases fits fresh free = (
    pos p,
    let_run (record k { last_pid = p }) nr (new_task r page nr (record k { last_pid = p }) t),
    copy_process_run r page code_limit data_limit nr true (record k { last_pid = p }) t at bases
        fits,
    forked _ nr p _ free fresh (new_task-IsChild r page nr k (record k { last_pid = p }) t refl)
        refl refl refl,
  )
  copied-Forked page nr p false at bases fits fresh free = (
    eagain,
    record k { last_pid = p; tasks = set k.tasks nr none },
    copy_process_run r page code_limit data_limit nr false (record k { last_pid = p }) t at bases
        fits,
    failed _ (inr (inl refl)) (set_same k.tasks nr none free) refl fresh.below,
  )

  placed-Forked :
      (page : Option ℕ) (copied : Bool) (p : ℕ) (o : Option ℕ)
      → task_at k.tasks k.current ≡ some t
      → t.data_base ≡ t.code_base
      → code_limit ≤ data_limit
      → find_empty_process k ≡ some (place_result o, record k { last_pid = p })
      → IsFresh k.tasks p
      → FirstFree 1 (drop 1 k.tasks) o
      → (x : Task) (ts : List (Option Task)) → k.tasks ≡ some x ∷ ts
      → Result page copied (sys_fork r page code_limit data_limit copied k)
  unfolding sys_fork copy_process
  placed-Forked page copied p none at bases fits run fresh full x ts all = (
    eagain,
    record k { last_pid = p },
    ground (arith, run),
    failed _ (inr (inr (λ j e. full j (ground (arith, e, all))))) refl refl fresh.below,
  )
  placed-Forked none copied p (some nr) at bases fits run fresh free x ts all = (
    eagain,
    record k { last_pid = p },
    ground (arith, run),
    failed _ (inl refl) refl refl fresh.below,
  )
  placed-Forked (some page) copied p (some nr) at bases fits run fresh (j, place, free, _) x ts
        all =
      let (e, k', go, h) = copied-Forked page nr p copied at bases fits fresh (
        ap (get_elem? k.tasks) {x = nr} {y = suc j} (omega arith)
        ∙ ap (λ l. get_elem? l (suc j)) all
        ∙ sym (ap (λ l. get_elem? (drop 1 l) j) all)
        ∙ free) in
      (e, k', ground (arith, run) ∙ go, h)

-- On a sound kernel, where the current task's segments have one base and the data limit is not below the
-- code limit, `sys_fork` returns: either -EAGAIN, for one of its three reasons, with the tasks as they
-- were; or a child stands in a free place under a fresh id, which is the value returned, and the other
-- tasks are as they were. The kernel is sound afterwards.
pub sys_fork-Forked :
    (r : Registers) (page : Option ℕ) (code_limit data_limit : ℕ) (copied : Bool) (k : Kernel)
    (t : Task)
    → IsSound k
    → task_at k.tasks k.current ≡ some t
    → t.data_base ≡ t.code_base
    → code_limit ≤ data_limit
    → (e : ℤ) × (k' : Kernel) × (sys_fork r page code_limit data_limit copied k ≡ some (e, k'))
      × Forked k t page copied e k'
      × IsSound k'
sys_fork-Forked r page code_limit data_limit copied k t s at bases fits =
    let (x, ts, all) = first_task k s in
    let (p, o, run, fresh, place) =
      find_empty_process-IsFresh k (omega (arith, s.few, length-idents k.tasks)) s.small in
    let (e, k', go, h) =
      placed-Forked r code_limit data_limit k t page copied p o at bases fits run fresh place x ts
        all in
    let (u, here, same) = current_task k s in
    (e, k', go, h, Forked-IsSound k k' t page copied e (ground (arith, here, same, at)) s h)
