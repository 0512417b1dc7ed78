-- ===== src/Exit/Zombie.antt =====
-- `do_exit` as a whole: the zombie, its children and its father.
use by_doing.Prelude.{
  ℕ, zero, suc, ◌<◌, ◌≤◌, ◌≡◌, ◌≢◌, ◌∙◌, ◌⊎◌, ap, sym, refl, Bool, true, Option, none, some, List,
  [], ◌∷◌, length, arith, get_elem?, inl, inr, dec_lt, get_elem?-set_self,
}
use by_doing.Prelude.Int.{pos, eqb_ℤ}
use by_doing.Scheduler.{Task, Kernel, task_at, zombie, schedule}
use by_doing.Scheduler.Kept.{
  IsKept, Kept_trans, Kept-zombie, raised-Kept, AllKept, AllKept-set, schedule-IsNext,
}
use by_doing.Scheduler.Sound.{idents, IsSound, IsSound-same, get_elem?-idents}
use by_doing.Scheduler.Sleep.{get_elem?-set-here}
use by_doing.Signals.{signal_father, raised, child_bit}
use by_doing.Signals.Kill.{Father, signal_father-Father, idents-Father}
use by_doing.Exit.{FileSystem, do_exit, tell_father}
use by_doing.Exit.Orphans.{orphaned}
use by_doing.Exit.Body.{ended, Laid, do_exit-Laid}

-- What `do_exit` leaves: `me` is the process, and its father stands at place `j`.
pub record Exited (code : ℕ) (k : Kernel) (me f : Task) (j : ℕ) (k' : Kernel) : Type 0 where
  pub body : (u : Task) × (get_elem? k'.tasks k.current ≡ some (some u)) × IsKept (ended code me) u
  pub dead : (u : Task) → get_elem? k'.tasks k.current ≡ some (some u) → u.state ≡ zombie
  pub gone : k'.current ≢ k.current
  pub others :
      (i : ℕ) (t : Task)
      → i ≢ k.current
      → get_elem? k.tasks i ≡ some (some t)
      → (u : Task) × (get_elem? k'.tasks i ≡ some (some u)) × IsKept (orphaned me t) u
  pub told :
      (length f.signal ≤ child_bit)
      ⊎ ((u : Task) × (get_elem? k'.tasks j ≡ some (some u))
          × (get_elem? u.signal child_bit ≡ some true))

father_found :
    (pid : ℕ) (ts : List (Option Task)) (j : ℕ) (t : Task)
    → get_elem? ts j ≡ some (some t)
    → t.pid ≡ pid
    → signal_father (pos pid) ts ≢ none
unfolding signal_father
father_found pid [] j t at id = absurd (cc at)
father_found pid (none ∷ ts) zero t at id = absurd (cc at)
father_found pid (some u ∷ ts) zero t at id = λ e. ground (arith, at, id, e)
father_found pid (none ∷ ts) (suc j) t at id =
    let later = father_found pid ts j t at id in λ e. ground (arith, e, later)
father_found pid (some u ∷ ts) (suc j) t at id =
    let later = father_found pid ts j t at id in λ e. ground (arith, e, later)

-- One place for one id.
pub same_place :
    (k : Kernel) (ts : List (Option Task)) (i j : ℕ) (t u : Task)
    → IsSound k
    → idents ts ≡ idents k.tasks
    → get_elem? ts i ≡ some (some t)
    → get_elem? ts j ≡ some (some u)
    → t.pid ≡ u.pid
    → i ≡ j
same_place k ts i j t u s same at to id =
    s.distinct i j u.pid t.priority u.priority
      (ap (λ l. get_elem? l i) (sym same)
        ∙ get_elem?-idents ts i (some t) at
        ∙ ap (λ n. some (some (n, t.priority))) id)
      (ap (λ l. get_elem? l j) (sym same) ∙ get_elem?-idents ts j (some u) to)

tell_father_run :
    (k : Kernel) (pid : ℕ) (ts : List (Option Task))
    → pid ≢ 0
    → signal_father (pos pid) k.tasks ≡ some ts
    → tell_father k (pos pid) ≡ schedule (record k { tasks = ts })
unfolding tell_father
tell_father_run k pid ts apart e = ground (arith, apart, e)

pid_of : (t : Task) (n : ℕ) → eqb_ℤ (pos t.pid) (pos n) ≡ true → t.pid ≡ n
pid_of t n e = ground (arith, e)

pub orphaned_pid : (me t : Task) → (orphaned me t).pid ≡ t.pid
orphaned_pid me t = ground arith

orphaned_signal : (me t : Task) → (orphaned me t).signal ≡ t.signal
orphaned_signal me t = ground arith

-- The father has the signal, and keeps it through `schedule`.
signal_arrives :
    (ts ts' after : List (Option Task)) (n j : ℕ) (t : Task) (a : Father (pos n) ts ts')
    → a.place ≡ j
    → child_bit < length a.task.signal
    → AllKept ts' after
    → (u : Task) × (get_elem? after j ≡ some (some u)) × (get_elem? u.signal child_bit ≡ some true)
signal_arrives ts ts' after n j t a here wide kept =
    let now : get_elem? ts' a.place ≡ some (some (raised child_bit a.task)) =
      ap (λ l. get_elem? l a.place) a.told
      ∙ get_elem?-set-here ts a.place a.task (raised child_bit a.task) a.at in
    let (u, at, h) = kept a.place (raised child_bit a.task) now in
    (
      u,
      ap (get_elem? after) (sym here) ∙ at,
      h.signals child_bit (get_elem?-set_self a.task.signal child_bit true wide),
    )

module _ (code : ℕ) (k : Kernel) (me f : Task) (s : IsSound k) where
  -- From the table of a process that has ended to that after `schedule`.
  finish :
      (k3 : Kernel) (ts : List (Option Task)) (c j : ℕ)
      → k.current ≡ suc c
      → Laid code k me k3.tasks
      → k3.current ≡ k.current
      → k3.last_pid ≡ k.last_pid
      → get_elem? k.tasks j ≡ some (some f)
      → j ≢ k.current
      → Father (pos f.pid) k3.tasks ts
      → (k' : Kernel) × (schedule (record k3 { tasks = ts }) ≡ some k')
        × Exited code k me f j k'
        × IsSound k'
  finish k3 ts c j here laid cur last at apart a =
      let sound : IsSound (record k3 { tasks = ts }) =
        IsSound-same k _ (idents-Father (pos f.pid) k3.tasks ts a ∙ laid.ids) last
          (s.here.0, s.here.1, ap (get_elem? (idents k.tasks)) cur ∙ s.here.2) s in
      let (k', run, next) = schedule-IsNext (record k3 { tasks = ts }) sound in
      let kept : AllKept k3.tasks ts = rw a.told (
        AllKept-set k3.tasks a.place a.task (raised child_bit a.task) a.at
          (raised-Kept a.task child_bit)) in
      let (b, b_at, b_kept) = laid.body in
      let (b', b_at', b_kept') = kept k.current b b_at in
      let (b'', b_at'', b_kept'') = next.kept k.current b' b_at' in
      let whole = Kept_trans b_kept (Kept_trans b_kept' b_kept'') in
      let (f3, f_at, f_kept) = laid.others j f apart at in
      let same_pid : f3.pid ≡ f.pid = f_kept.pid ∙ orphaned_pid me f in
      let place : a.place ≡ j =
        same_place k k3.tasks a.place j a.task f3 s laid.ids a.at f_at
          (pid_of a.task f.pid a.id ∙ sym same_pid) in
      let found : a.task ≡ f3 = ground (arith, ap (get_elem? k3.tasks) place, a.at, f_at) in
      let wide_too : length a.task.signal ≡ length f.signal =
        ap (λ t. length t.signal) found
        ∙ f_kept.width
        ∙ ap (length {A = Bool}) (orphaned_signal me f) in
      (
        k',
        run,
        record {
          body = (b'', b_at'', whole);
          dead = λ u e.
              let same : u ≡ b'' = ground (arith, e, b_at'') in
              rw same (Kept-zombie _ b'' whole refl);
          gone = λ e.
              next.awake c b' (ap (get_elem? ts) (sym here) ∙ b_at')
                (Kept-zombie _ b' (Kept_trans b_kept b_kept') refl) (e ∙ here);
          others = λ i t other e.
              let (u, at1, k1) = laid.others i t other e in
              let (v, at2, k2) = kept i u at1 in
              let (w, at3, k3) = next.kept i v at2 in (w, at3, Kept_trans k1 (Kept_trans k2 k3));
          told = elim (dec_lt child_bit (length f.signal)) [
            | yes wide ↦ inr (
                signal_arrives k3.tasks ts k'.tasks f.pid j f a place
                  (omega (arith, wide, wide_too)) next.kept)
            | no short ↦ inl (omega (arith, short))
          ];
        },
        next.sound,
      )

  -- Let a task that is not task 0 call `do_exit` on a sound kernel, and let another task, whose id is not 0,
  -- be its father. Then the call ends in a switch to another task; the caller stays as a zombie with the
  -- exit code, its id and its father; task 1 is the father of each of its children; the father has
  -- SIGCHLD, if its word of signals has that bit; and the kernel is sound.
  pub do_exit_lem :
      (fs : FileSystem) (c j : ℕ)
      → k.current ≡ suc c
      → task_at k.tasks k.current ≡ some me
      → get_elem? k.tasks j ≡ some (some f)
      → me.father ≡ pos f.pid
      → f.pid ≢ 0
      → f.pid ≢ me.pid
      → (k' : Kernel) × (do_exit fs code k ≡ some k') × Exited code k me f j k' × IsSound k'
  do_exit_lem fs c j here now at father some_id other =
      let (k3, run, laid, cur, last) =
        do_exit-Laid fs code k me s now (ground (arith, father, other)) in
      let apart : j ≢ k.current =
        λ e. absurd (ground (arith, ap (get_elem? k.tasks) e, at, now, other)) in
      let (f3, f_at, f_kept) = laid.others j f apart at in
      elim (signal_father-Father (pos f.pid) k3.tasks) [
        | inl e ↦ absurd (father_found f.pid k3.tasks j f3 f_at (f_kept.pid ∙ orphaned_pid me f) e)
        | inr (ts, e, a) ↦
            let (k', go, exited, sound) = finish k3 ts c j here laid cur last at apart a in
            (
              k',
              run ∙ ap (tell_father k3) father ∙ tell_father_run k3 f.pid ts some_id e ∙ go,
              exited,
              sound,
            )
      ]

  -- Let a task that is not task 0 call `do_exit` on a sound kernel, let another task, whose id is not 0, be
  -- its father, and let the father's word of signals have the bit of SIGCHLD. Then the call ends in a switch
  -- to another task; the caller stays as a zombie with the exit code, its id and its father; task 1 is the
  -- father of each of its children; the father has SIGCHLD; and the kernel is sound.
  pub do_exit-Exited :
      (fs : FileSystem) (c j : ℕ)
      → k.current ≡ suc c
      → task_at k.tasks k.current ≡ some me
      → get_elem? k.tasks j ≡ some (some f)
      → me.father ≡ pos f.pid
      → f.pid ≢ 0
      → f.pid ≢ me.pid
      → child_bit < length f.signal
      → (k' : Kernel) × (do_exit fs code k ≡ some k')
        × Exited code k me f j k'
        × IsSound k'
        × ((u : Task) × (get_elem? k'.tasks j ≡ some (some u))
            × (get_elem? u.signal child_bit ≡ some true))
  do_exit-Exited fs c j here now at father some_id other wide =
      let (k', run, e, sound) = do_exit_lem fs c j here now at father some_id other in
      (k', run, e, sound, elim e.told [ inl short ↦ absurd (omega arith) | inr told ↦ told ])
