-- ===== src/Wait/Reap.antt =====
-- `sys_waitpid` on every branch.
use by_doing.Prelude.{
  ℕ, zero, suc, ◌≡◌, ◌≢◌, ◌∙◌, ◌⊎◌, ap, sym, refl, true, false, Option, none, some, List, [], ◌∷◌,
  arith, get_elem?, set, inl, inr, if◌then◌else◌, Bool-cases, get_elem?-set_ne,
}
use by_doing.Prelude.Int.{ℤ, pos}
use by_doing.Scheduler.{
  Task, TaskState, Kernel, running, interruptible, uninterruptible, zombie, stopped, waits, task_at,
  schedule,
}
use by_doing.Scheduler.Calls.{put_task, write_log}
use by_doing.Scheduler.Kept.{IsKept, schedule-IsNext}
use by_doing.Scheduler.Sleep.{get_elem?-set-here}
use by_doing.Scheduler.Sound.{
  idents, IsSound, IsSound-same, first_task, current_task, idents-set, idents-put, get_elem?-idents,
  get_elem?-set_over,
}
use by_doing.Scheduler.Change.{drop-IsSound}
use by_doing.Exit.{release}
use by_doing.Wait.{
  Options, Scan, seen, found_stopped, found_zombie, scan, Waited, returns, sleeps, inherits, reap,
  wait_longer, sys_waitpid, echild,
}
use by_doing.Wait.Search.{Waitable, Passed, Scanned, scan-Scanned}

-- The tasks but for the caller and the place `i` are kept, and the caller has become `caller`.
pub record Others (k : Kernel) (i : ℕ) (caller : Task) (k' : Kernel) : Type 0 where
  pub caller_kept : (u : Task) × (get_elem? k'.tasks k.current ≡ some (some u)) × IsKept caller u
  pub kept :
      (j : ℕ) (u : Task)
      → j ≢ i
      → j ≢ k.current
      → get_elem? k.tasks j ≡ some (some u)
      → (v : Task) × (get_elem? k'.tasks j ≡ some (some v)) × IsKept u v

-- The kernel from which the child at place `i` is gone.
abbrev reaped_kernel : Kernel → Task → ℕ → Task → Kernel
reaped_kernel k me i t = record k {
  tasks = set (set k.tasks k.current (some (inherits me t))) i none;
}

reap_run :
    (k k' : Kernel) (me t : Task) (j : ℕ)
    → get_elem? (set k.tasks k.current (some (inherits me t))) (suc j) ≡ some (some t)
    → schedule (reaped_kernel k me (suc j) t) ≡ some k'
    → reap k me (suc j) t ≡ some (returns (pos t.pid) (some t.exit_code) k')
unfolding release
reap_run k k' me t j at run = ground (arith, at, run)

free_ident :
    (ts : List (Option Task)) (i : ℕ)
    → get_elem? (idents ts) i ≡ some none
    → get_elem? ts i ≡ some none
unfolding idents
free_ident [] i e = absurd (cc e)
free_ident (none ∷ ts) zero e = refl
free_ident (some t ∷ ts) zero e = absurd (cc e)
free_ident (o ∷ ts) (suc i) e = free_ident ts i e

-- No dead child is left to wait for, and no stopped one where they are asked for.
abbrev pub NoneReady : Kernel → Task → ℤ → Options → Type 0
NoneReady k me pid options =
    (j : ℕ) (t : Task)
    → get_elem? k.tasks (suc j) ≡ some (some t)
    → Waitable me k.current pid (suc j) t
    → (t.state ≢ zombie) × (t.state ≡ stopped → options.untraced ≡ false)

abbrev pub SomeChild : Kernel → Task → ℤ → Type 0
SomeChild k me pid =
    (j : ℕ) × (t : Task) × (get_elem? k.tasks (suc j) ≡ some (some t))
    × Waitable me k.current pid (suc j) t

-- The ends of the call.
pub data Outcome (k : Kernel) (me : Task) (pid : ℤ) (options : Options) : Waited → Type 0 where
  reaped :
      (j : ℕ) (t : Task) (k' : Kernel)
      → get_elem? k.tasks (suc j) ≡ some (some t)
      → Waitable me k.current pid (suc j) t
      → t.state ≡ zombie
      → get_elem? k'.tasks (suc j) ≡ some none
      → Others k (suc j) (inherits me t) k'
      → IsSound k'
      → Outcome k me pid options (returns (pos t.pid) (some t.exit_code) k')
  held :
      (j : ℕ) (t : Task)
      → get_elem? k.tasks (suc j) ≡ some (some t)
      → Waitable me k.current pid (suc j) t
      → t.state ≡ stopped
      → options.untraced ≡ true
      → Outcome k me pid options (returns (pos t.pid) (some 0x7f) k)
  childless :
      ((j : ℕ) (t : Task)
        → get_elem? k.tasks (suc j) ≡ some (some t)
        → Waitable me k.current pid (suc j) t
        → (t.state ≡ stopped) × (options.untraced ≡ false))
      → Outcome k me pid options (returns echild none k)
  not_yet :
      NoneReady k me pid options
      → SomeChild k me pid
      → options.no_hang ≡ true
      → Outcome k me pid options (returns (pos 0) none k)
  asleep :
      (k' : Kernel)
      → NoneReady k me pid options
      → SomeChild k me pid
      → options.no_hang ≡ false
      → Others k k.current (record me { state = interruptible }) k'
      → IsSound k'
      → Outcome k me pid options (sleeps k')

state_stopped : (t : Task) → (t.state ≡ stopped) ⊎ (t.state ≢ stopped)
state_stopped t = by_state t.state
  where
    by_state : (s : TaskState) → (s ≡ stopped) ⊎ (s ≢ stopped)
    by_state running = inr (λ e. cc e)
    by_state interruptible = inr (λ e. cc e)
    by_state uninterruptible = inr (λ e. cc e)
    by_state zombie = inr (λ e. cc e)
    by_state stopped = inl refl

module _ (k : Kernel) (me : Task) (s : IsSound k)
    (here : get_elem? k.tasks k.current ≡ some (some me)) where
  -- A dead child is reaped.
  reap-Others :
      (j : ℕ) (t : Task)
      → suc j ≢ k.current
      → get_elem? k.tasks (suc j) ≡ some (some t)
      → (k' : Kernel) × (reap k me (suc j) t ≡ some (returns (pos t.pid) (some t.exit_code) k'))
        × (get_elem? k'.tasks (suc j) ≡ some none)
        × Others k (suc j) (inherits me t) k'
        × IsSound k'
  reap-Others j t apart at =
      let heir = inherits me t in
      let one = set k.tasks k.current (some heir) in
      let k1 = reaped_kernel k me (suc j) t in
      let at1 : get_elem? one (suc j) ≡ some (some t) =
        get_elem?-set_ne k.tasks (some heir) (λ e. apart (sym e)) ∙ at in
      let ids : idents k1.tasks ≡ set (idents k.tasks) (suc j) none =
        idents-set one (suc j) none
        ∙ ap (λ l. set l (suc j) none) (idents-put k.tasks k.current me heir here refl refl) in
      let sound =
        drop-IsSound k k1 s (suc j) ids (λ e. omega (arith, e)) refl (λ e. apart (sym e)) refl in
      let (k', run, next) = schedule-IsNext k1 sound in
      (
        k',
        reap_run k k' me t j at1 run,
        free_ident k'.tasks (suc j) (
            ap (λ l. get_elem? l (suc j)) next.ids
            ∙ get_elem?-idents k1.tasks (suc j) none
                (get_elem?-set_over one (suc j) (some t) none at1)),
        record {
          caller_kept =
              next.kept k.current heir (
                get_elem?-set_ne one none apart
                ∙ get_elem?-set-here k.tasks k.current me heir here);
          kept = λ i u other caller e. next.kept i u (
              get_elem?-set_ne one none (λ e. other (sym e))
              ∙ get_elem?-set_ne k.tasks (some heir) (λ e. caller (sym e))
              ∙ e);
        },
        next.sound,
      )

  -- The caller sleeps until a child changes.
  sleeps-Others :
      (k' : Kernel) × (schedule
          (write_log (put_task k k.current (record me { state = interruptible })) me.pid waits)
        ≡ some k')
      × Others k k.current (record me { state = interruptible }) k'
      × IsSound k'
  sleeps-Others =
      let asleep = record me { state = interruptible } in
      let k1 = write_log (put_task k k.current asleep) me.pid waits in
      let sound =
        IsSound-same k k1 (idents-put k.tasks k.current me asleep here refl refl) refl s.here s in
      let (k', run, next) = schedule-IsNext k1 sound in
      (
        k',
        run,
        record {
          caller_kept =
              next.kept k.current asleep (get_elem?-set-here k.tasks k.current me asleep here);
          kept = λ i u _ caller e.
              next.kept i u (get_elem?-set_ne k.tasks (some asleep) (λ e. caller (sym e)) ∙ e);
        },
        next.sound,
      )

  wait_longer-Outcome :
      (pid : ℤ) (options : Options)
      → NoneReady k me pid options
      → SomeChild k me pid
      → (w : Waited) × (wait_longer k me options ≡ some w) × Outcome k me pid options w
  wait_longer-Outcome pid options none_ready child = elim (Bool-cases options.no_hang) [
    | inl e ↦ (returns (pos 0) none k, ground (arith, e), not_yet none_ready child e)
    | inr e ↦
        let (k', run, others, sound) = sleeps-Others in
        (sleeps k', ground (arith, e, run), asleep k' none_ready child e others sound)
  ]

  scanned-Outcome :
      (pid : ℤ) (options : Options) (x : Option Task) (ts : List (Option Task)) (r : Scan)
      → k.tasks ≡ x ∷ ts
      → Scanned me k.current pid options 1 ts r
      → (w : Waited) × (elim r [
        | found_stopped i t ↦ some (returns (pos t.pid) (some 0x7f) k)
        | found_zombie i t ↦ reap k me i t
        | seen flag ↦ if flag then wait_longer k me options else some (returns echild none k)
      ]
          ≡ some w)
        × Outcome k me pid options w
  scanned-Outcome pid options x ts (found_stopped n t) all (j, e, at, w, d, f) =
      let place : n ≡ suc j = omega (arith, e) in
      (
        returns (pos t.pid) (some 0x7f) k,
        refl,
        held j t (ap (λ l. get_elem? l (suc j)) all ∙ at) (rw place at w) d f,
      )
  scanned-Outcome pid options x ts (found_zombie n t) all (j, e, at, w, d) =
      let place : n ≡ suc j = omega (arith, e) in
      let w' : Waitable me k.current pid (suc j) t = rw place at w in
      let at' : get_elem? k.tasks (suc j) ≡ some (some t) =
        ap (λ l. get_elem? l (suc j)) all ∙ at in
      let (k', run, free, others, sound) = reap-Others j t w'.0 at' in
      (
        returns (pos t.pid) (some t.exit_code) k',
        ap (λ i. reap k me i t) place ∙ run,
        reaped j t k' at' w' d free others sound,
      )
  scanned-Outcome pid options x ts (seen false) all (passed, any) = (
    returns echild none k,
    refl,
    childless (λ j t at w.
        by_stopped t (state_stopped t)
          (passed (suc j) j t (omega arith) (ap (λ l. get_elem? l (suc j)) (sym all) ∙ at) w)),
  )
    where
      by_stopped :
          (t : Task)
          → (t.state ≡ stopped) ⊎ (t.state ≢ stopped)
          → Passed options t false
          → (t.state ≡ stopped) × (options.untraced ≡ false)
      by_stopped t (inl e) p = (e, p.held e)
      by_stopped t (inr e) p = absurd (cc (p.counts e))
  scanned-Outcome pid options x ts (seen true) all (passed, any) =
      let (n, j, t, e, at, w) = any refl in
      let place : n ≡ suc j = omega (arith, e) in
      wait_longer-Outcome pid options
        (λ i u to v.
          let p =
            passed (suc i) i u (omega arith) (ap (λ l. get_elem? l (suc i)) (sym all) ∙ to) v in
          (p.alive, p.held))
        (j, t, ap (λ l. get_elem? l (suc j)) all ∙ at, rw place at w)

sys_waitpid_run :
    (k : Kernel) (pid : ℤ) (options : Options) (me : Task) (x : Option Task)
    (ts : List (Option Task))
    → task_at k.tasks k.current ≡ some me
    → k.tasks ≡ x ∷ ts
    → sys_waitpid k pid options ≡ elim (scan me k.current pid options 1 ts) [
      | found_stopped i t ↦ some (returns (pos t.pid) (some 0x7f) k)
      | found_zombie i t ↦ reap k me i t
      | seen flag ↦ if flag then wait_longer k me options else some (returns echild none k)
    ]
unfolding sys_waitpid
sys_waitpid_run k pid options me x ts at all = ground (arith, at, all)

-- On a sound kernel `sys_waitpid` comes to one of its ends: a dead child that `pid` asks for is reaped,
-- with its id and exit code as the results, its times added to the caller's and its place free; a stopped
-- one is reported, if WUNTRACED asks for that; the error is -ECHILD only where no such child is there but
-- stopped ones that were not asked for; and otherwise the call returns 0 or sleeps. The kernel is sound
-- afterwards.
pub sys_waitpid-Outcome :
    (k : Kernel) (pid : ℤ) (options : Options) (me : Task)
    → IsSound k
    → task_at k.tasks k.current ≡ some me
    → (w : Waited) × (sys_waitpid k pid options ≡ some w) × Outcome k me pid options w
sys_waitpid-Outcome k pid options me s at =
    let (x, ts, all) = first_task k s in
    let (u, here, same) = current_task k s in
    let this : get_elem? k.tasks k.current ≡ some (some me) = ground (arith, here, same, at) in
    let (w, run, h) =
      scanned-Outcome k me s this pid options (some x) ts _ all
        (scan-Scanned me k.current pid options 1 ts) in
    (w, sys_waitpid_run k pid options me (some x) ts at all ∙ run, h)
