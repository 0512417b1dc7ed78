-- ===== src/Wait/Child.antt =====
-- `do_exit` of a child, and then `sys_waitpid` of its father.
use by_doing.Prelude.{
  ℕ, suc, ◌≡◌, ◌≢◌, ◌∙◌, ap, sym, refl, true, ◌&&◌, Option, none, some, List, arith, get_elem?,
}
use by_doing.Prelude.Int.{pos}
use by_doing.Scheduler.{Task, Kernel, zombie, task_at}
use by_doing.Scheduler.Sound.{IsSound}
use by_doing.Exit.{FileSystem, do_exit}
use by_doing.Exit.Orphans.{task_at-get}
use by_doing.Exit.Zombie.{Exited, do_exit_lem, same_place, orphaned_pid}
use by_doing.Wait.{Options, Waited, returns, sys_waitpid, wanted, is_child}
use by_doing.Wait.Search.{Waitable}
use by_doing.Wait.Reap.{Outcome, reaped, held, childless, not_yet, asleep, sys_waitpid-Outcome}

asked_for : (me t : Task) (current i p : ℕ) → Waitable me current (pos (suc p)) i t → t.pid ≡ suc p
asked_for me t current i p w = ground (arith, w.1)

is_asked_for :
    (me t : Task) (p : ℕ)
    → t.father ≡ pos me.pid
    → t.pid ≡ suc p
    → (is_child me t && wanted me (pos (suc p)) t) ≡ true
is_asked_for me t p father id = ground (arith, father, id)

at_task :
    (ts : List (Option Task)) (i : ℕ) (t : Task)
    → get_elem? ts i ≡ some (some t)
    → task_at ts i ≡ some t
at_task ts i t e = ground (arith, e)

not_same :
    (ts : List (Option Task)) (i j : ℕ) (t u : Task)
    → get_elem? ts i ≡ some (some t)
    → get_elem? ts j ≡ some (some u)
    → t.pid ≢ u.pid
    → i ≢ j
not_same ts i j t u at to other = λ e. absurd (ground (arith, ap (get_elem? ts) e, at, to, other))

module _ (k : Kernel) (f b : Task) (c p code : ℕ) (options : Options) (s : IsSound k) where
  -- The ends of the call where a dead child with the id is there.
  ends_reaped :
      (w : Waited)
      → get_elem? k.tasks (suc c) ≡ some (some b)
      → b.state ≡ zombie
      → b.exit_code ≡ code
      → Waitable f k.current (pos (suc p)) (suc c) b
      → Outcome k f (pos (suc p)) options w
      → (k' : Kernel) × (w ≡ returns (pos (suc p)) (some code) k')
        × (get_elem? k'.tasks (suc c) ≡ some none)
        × IsSound k'
  ends_reaped _ at dead result mine (reaped j t k' to w end free others sound) =
      let id : t.pid ≡ b.pid =
        asked_for f t k.current (suc j) p w ∙ sym (asked_for f b k.current (suc c) p mine) in
      let place : suc j ≡ suc c = same_place k k.tasks (suc j) (suc c) t b s refl to at id in
      let this : t ≡ b = ground (arith, ap (get_elem? k.tasks) place, to, at) in
      (
        k',
        ap (λ n. returns (pos n) (some t.exit_code) k') (asked_for f t k.current (suc j) p w)
            ∙ ap (λ n. returns (pos (suc p)) (some n) k') (ap (λ t. t.exit_code) this ∙ result),
        ap (get_elem? k'.tasks) (sym place) ∙ free,
        sound,
      )
  ends_reaped _ at dead result mine (held j t to w end asked) =
      let id : t.pid ≡ b.pid =
        asked_for f t k.current (suc j) p w ∙ sym (asked_for f b k.current (suc c) p mine) in
      let place : suc j ≡ suc c = same_place k k.tasks (suc j) (suc c) t b s refl to at id in
      let this : t ≡ b = ground (arith, ap (get_elem? k.tasks) place, to, at) in
      absurd (cc (sym end ∙ ap (λ t. t.state) this ∙ dead))
  ends_reaped _ at dead result mine (childless h) = absurd (cc (sym dead ∙ (h c b at mine).0))
  ends_reaped _ at dead result mine (not_yet h child e) = absurd ((h c b at mine).0 dead)
  ends_reaped _ at dead result mine (asleep k' h child e others sound) =
      absurd ((h c b at mine).0 dead)

-- The wait, where the task has exited.
Exited-sys_waitpid :
    (code : ℕ) (k k' : Kernel) (me f : Task) (c j p : ℕ) (options : Options)
    → k.current ≡ suc c
    → task_at k.tasks k.current ≡ some me
    → get_elem? k.tasks j ≡ some (some f)
    → me.father ≡ pos f.pid
    → f.pid ≢ me.pid
    → me.pid ≡ suc p
    → Exited code k me f j k'
    → IsSound k'
    → k'.current ≡ j
    → (k'' : Kernel) × (sys_waitpid k' (pos (suc p)) options
        ≡ some (returns (pos (suc p)) (some code) k''))
      × (get_elem? k''.tasks (suc c) ≡ some none)
      × IsSound k''
Exited-sys_waitpid code k k' me f c j p options here now at father other id e sound turn =
    let (b, b_at, b_kept) = e.body in
    let apart : j ≢ k.current =
      not_same k.tasks j k.current f me at (task_at-get k.tasks k.current me now) other in
    let (g, g_at, g_kept) = e.others j f apart at in
    let b_here : get_elem? k'.tasks (suc c) ≡ some (some b) =
      ap (get_elem? k'.tasks) (sym here) ∙ b_at in
    let g_pid : g.pid ≡ f.pid = g_kept.pid ∙ orphaned_pid me f in
    let g_now : task_at k'.tasks k'.current ≡ some g =
      at_task k'.tasks k'.current g (ap (get_elem? k'.tasks) turn ∙ g_at) in
    let mine : Waitable g k'.current (pos (suc p)) (suc c) b = (
      λ same. e.gone (sym same ∙ sym here),
      is_asked_for g b p (b_kept.father ∙ father ∙ ap pos (sym g_pid)) (b_kept.pid ∙ id),
    ) in
    let (w, go, h) = sys_waitpid-Outcome k' (pos (suc p)) options g sound g_now in
    let (k'', same, free, sound') =
      ends_reaped k' g b c p code options sound w b_here (e.dead b b_at) b_kept.exit_code mine h in
    (k'', go ∙ ap some same, free, sound')

-- A task exits on a sound kernel as in `do_exit_lem`, and its father runs next. When the father then waits
-- for the task's id, `sys_waitpid` does not sleep: it returns that id with the exit code, the task's place is
-- free, and the kernel is sound.
pub do_exit-sys_waitpid :
    (code : ℕ) (k k' : Kernel) (me f : Task) (fs : FileSystem) (c j p : ℕ) (options : Options)
    → IsSound k
    → k.current ≡ suc c
    → task_at k.tasks k.current ≡ some me
    → get_elem? k.tasks j ≡ some (some f)
    → me.father ≡ pos f.pid
    → f.pid ≢ 0
    → f.pid ≢ me.pid
    → me.pid ≡ suc p
    → do_exit fs code k ≡ some k'
    → k'.current ≡ j
    → (k'' : Kernel) × (sys_waitpid k' (pos (suc p)) options
        ≡ some (returns (pos (suc p)) (some code) k''))
      × (get_elem? k''.tasks (suc c) ≡ some none)
      × IsSound k''
do_exit-sys_waitpid code k k' me f fs c j p options s here now at father some_id other id ran turn =
    let (k1, run, e, sound) = do_exit_lem code k me f s fs c j here now at father some_id other in
    let same : k1 ≡ k' = cc (sym run ∙ ran) in
    Exited-sys_waitpid code k k' me f c j p options here now at father other id (rw same at e)
      (rw same at sound) turn
