-- ===== src/Exit/Body.antt =====
-- `do_exit` up to `tell_father`: the files, the terminal and the session are left, and the task is dead.
use by_doing.Prelude.{
  ℕ, zero, suc, ◌<◌, ◌≡◌, ◌≢◌, ◌∙◌, ap, sym, refl, Bool, true, false, Option, none, some, List, [],
  ◌∷◌, length, arith, get_elem?, set, inl, if◌then◌else◌, get_elem?-set_ne,
}
use by_doing.Prelude.Int.{pos, eqb_ℤ}
use by_doing.Scheduler.{Task, Kernel, task_at, zombie, nr_tasks}
use by_doing.Scheduler.Kept.{IsKept, Kept_refl, Kept_trans, Alike-trans, Alike-set}
use by_doing.Scheduler.Sound.{idents, IsSound, idents-put, length-idents}
use by_doing.Scheduler.Sleep.{get_elem?-set-here}
use by_doing.Exit.{
  FileSystem, Counts, adopt, close_all, drop_files, detached, do_exit, dead, tell_father, is_open,
}
use by_doing.Exit.Orphans.{orphaned, idents-adopt, adopt-orphaned, hang_up-Alike, task_at-get}

-- Without a file, and without its inodes, a task is kept.
filp-Kept : (t : Task) (fs : List (Option ℕ)) → IsKept t (record t { filp = fs })
filp-Kept t fs = record {
  pid = refl;
  priority = refl;
  father = refl;
  group = refl;
  exit_code = refl;
  times = (refl, refl);
  sums = (refl, refl);
  state = inl refl;
  width = refl;
  signals = λ b e. e;
}

inodes-Kept : (t : Task) → IsKept t (record t { pwd = none; root = none; executable = none })
inodes-Kept t = record {
  pid = refl;
  priority = refl;
  father = refl;
  group = refl;
  exit_code = refl;
  times = (refl, refl);
  sums = (refl, refl);
  state = inl refl;
  width = refl;
  signals = λ b e. e;
}

-- The task that has ended.
abbrev pub ended : ℕ → Task → Task
ended code t = record t { state = zombie; exit_code = code }

ended-Kept : (code : ℕ) (t u : Task) → IsKept t u → IsKept (ended code t) (ended code u)
ended-Kept code t u k = record {
  pid = k.pid;
  priority = k.priority;
  father = k.father;
  group = k.group;
  exit_code = refl;
  times = k.times;
  sums = k.sums;
  state = inl refl;
  width = k.width;
  signals = k.signals;
}

if-Kept :
    (t : Task) (b : Bool) (x y : Task × Counts)
    → IsKept t x.0
    → IsKept t y.0
    → IsKept t (if b then x else y).0
if-Kept t true x y h k = h
if-Kept t false x y h k = k

pub place-fits :
    (ts : List (Option Task)) (j : ℕ) (t : Task) → get_elem? ts j ≡ some (some t) → j < length ts
place-fits [] j t e = absurd (cc e)
place-fits (o ∷ ts) zero t e = omega arith
place-fits (o ∷ ts) (suc j) t e = omega (arith, place-fits ts j t e)

-- The table when the process has ended, before its father hears of it.
pub record Laid (code : ℕ) (k : Kernel) (me : Task) (ts : List (Option Task)) : Type 0 where
  pub ids : idents ts ≡ idents k.tasks
  pub body : (u : Task) × (get_elem? ts k.current ≡ some (some u)) × IsKept (ended code me) u
  pub others :
      (i : ℕ) (t : Task)
      → i ≢ k.current
      → get_elem? k.tasks i ≡ some (some t)
      → (u : Task) × (get_elem? ts i ≡ some (some u)) × IsKept (orphaned me t) u

own_child : (me : Task) → eqb_ℤ me.father (pos me.pid) ≡ false → orphaned me me ≡ me
own_child me e = ground (arith, e)

own-Kept :
    (me u : Task) → eqb_ℤ me.father (pos me.pid) ≡ false → IsKept (orphaned me me) u → IsKept me u
own-Kept me u e k = rw (own_child me e) at k

module _ (fs : FileSystem) where
  close_all-Kept : (rounds i : ℕ) (t : Task) (c : Counts) → IsKept t (close_all fs rounds i t c).0
  unfolding close_all
  close_all-Kept zero i t c = Kept_refl t
  close_all-Kept (suc rounds) i t c =
      if-Kept t (is_open t.filp i) _ _
        (Kept_trans (rw (fs.closes i t c) (filp-Kept t (set t.filp i none)))
          (close_all-Kept rounds (suc i) (fs.sys_close i t c).0 (fs.sys_close i t c).1))
        (close_all-Kept rounds (suc i) t c)

  drop_files-Kept : (t : Task) (c : Counts) → IsKept t (drop_files fs t c).0
  unfolding drop_files
  drop_files-Kept t c = Kept_trans (close_all-Kept 20 0 t c) (inodes-Kept _)

  do_exit_run :
      (code : ℕ) (k : Kernel) (me t u : Task)
      → task_at k.tasks k.current ≡ some me
      → task_at (adopt me nr_tasks 0 k.tasks) k.current ≡ some t
      → task_at (detached fs k (adopt me nr_tasks 0 k.tasks) t).tasks k.current ≡ some u
      → do_exit fs code k
        ≡ tell_father (dead code (detached fs k (adopt me nr_tasks 0 k.tasks) t) u) u.father
  unfolding do_exit
  do_exit_run code k me t u a b c = ground (arith, a, b, c)

  -- Up to `tell_father`.
  pub do_exit-Laid :
      (code : ℕ) (k : Kernel) (me : Task)
      → IsSound k
      → task_at k.tasks k.current ≡ some me
      → eqb_ℤ me.father (pos me.pid) ≡ false
      → (k' : Kernel) × (do_exit fs code k ≡ tell_father k' me.father)
        × Laid code k me k'.tasks
        × (k'.current ≡ k.current)
        × (k'.last_pid ≡ k.last_pid)
  do_exit-Laid code k me s here apart =
      let at = task_at-get k.tasks k.current me here in
      let fits : (i : ℕ) (t : Task) → get_elem? k.tasks i ≡ some (some t) → i < nr_tasks =
        λ i t e. omega (arith, place-fits k.tasks i t e, s.few, length-idents k.tasks) in
      let ts = adopt me nr_tasks 0 k.tasks in
      let (t, to, h) =
        adopt-orphaned me nr_tasks 0 k.tasks k.current me (omega arith)
          (omega (arith, fits k.current me at)) at in
      let bare = drop_files fs t (k.f_count, k.i_count) in
      let k' = detached fs k ts t in
      let (same, kept) =
        Alike-trans ts (set ts k.current (some bare.0)) k'.tasks
          (Alike-set ts k.current t bare.0 to (drop_files-Kept t (k.f_count, k.i_count)))
          (hang_up-Alike bare.0 (set ts k.current (some bare.0))) in
      let (u, now, g) = kept k.current t to in
      let whole : IsKept me u = Kept_trans (own-Kept me t apart h) g in
      (
        dead code k' u,
        do_exit_run code k me t u here (ground (arith, to)) (ground (arith, now))
            ∙ ap (tell_father (dead code k' u)) whole.father,
        record {
          ids =
              idents-put k'.tasks k.current u (ended code u) now refl refl
              ∙ same
              ∙ idents-adopt me nr_tasks 0 k.tasks;
          body = (
            ended code u,
            get_elem?-set-here k'.tasks k.current u (ended code u) now,
            ended-Kept code me u whole,
          );
          others = λ i v other e.
              let (w, to, h) =
                adopt-orphaned me nr_tasks 0 k.tasks i v (omega arith) (omega (arith, fits i v e))
                  e in
              let (x, now, g) = kept i w to in
              (
                x,
                get_elem?-set_ne k'.tasks (some (ended code u)) (λ e. other (sym e)) ∙ now,
                Kept_trans h g,
              );
        },
        refl,
        refl,
      )
