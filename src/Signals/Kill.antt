-- ===== src/Signals/Kill.antt =====
-- `sys_kill`: whom it reaches, and the value it returns.
use by_doing.Prelude.{
  ℕ, zero, suc, ◌≡◌, ◌≢◌, ◌∙◌, ◌⊎◌, ap, sym, refl, Bool, true, false, Option, none, some, List, [],
  ◌∷◌, arith, get_elem?, set, inl, inr, Bool-cases,
}
use by_doing.Prelude.Int.{ℤ, pos, negsuc, eqb_ℤ}
use by_doing.Scheduler.{Task, Kernel, task_at}
use by_doing.Scheduler.Sound.{
  ident, idents, IsSound, IsSound-same, first_task, current_task, get_elem?-idents, idents-put,
}
use by_doing.Signals.{
  raised, send_sig, kill_session, Target, one, everyone, target_of, selects, privileged, kill_each,
  sys_kill, signal_father, signal_bit, may_signal, child_bit,
}

-- Signals keep ids and priorities.
send_sig-ident :
    (me : Task) (sig : ℤ) (o : Option Task) (priv : Bool)
    → ident (send_sig me sig o priv).1 ≡ ident o
unfolding send_sig
send_sig-ident me sig none priv = refl
send_sig-ident me sig (some t) priv = ground arith

pub idents-kill_each :
    (me : Task) (sig : ℤ) (target : Target) (ts : List (Option Task))
    → idents (kill_each me sig target ts).1 ≡ idents ts
unfolding kill_each idents
idents-kill_each me sig target [] = refl
idents-kill_each me sig target (o ∷ ts) =
    ground (arith, idents-kill_each me sig target ts, send_sig-ident me sig o (privileged target))

pub idents-kill_session :
    (me : Task) (ts : List (Option Task)) → idents (kill_session me ts) ≡ idents ts
unfolding kill_session idents
idents-kill_session me [] = refl
idents-kill_session me (none ∷ ts) = ap (λ l. none ∷ l) (idents-kill_session me ts)
idents-kill_session me (some t ∷ ts) = ground (arith, idents-kill_session me ts)

-- The task that `tell_father` finds.
pub record Father (pid : ℤ) (ts ts' : List (Option Task)) : Type 0 where
  pub place : ℕ
  pub task : Task
  pub at : get_elem? ts place ≡ some (some task)
  pub id : eqb_ℤ (pos task.pid) pid ≡ true
  pub told : ts' ≡ set ts place (some (raised child_bit task))

Father-later :
    (pid : ℤ) (o : Option Task) (ts ts' : List (Option Task))
    → Father pid ts ts'
    → Father pid (o ∷ ts) (o ∷ ts')
Father-later pid o ts ts' f = record {
  place = suc f.place;
  task = f.task;
  at = f.at;
  id = f.id;
  told = ap (λ l. o ∷ l) f.told;
}

pub signal_father-Father :
    (pid : ℤ) (ts : List (Option Task))
    → (signal_father pid ts ≡ none)
      ⊎ ((ts' : List (Option Task)) × (signal_father pid ts ≡ some ts') × Father pid ts ts')
unfolding signal_father
signal_father-Father pid [] = inl refl
signal_father-Father pid (none ∷ ts) = elim (signal_father-Father pid ts) [
  | inl e ↦ inl (ground (arith, e))
  | inr (ts', e, f) ↦ inr (none ∷ ts', ground (arith, e), Father-later pid none ts ts' f)
]
signal_father-Father pid (some t ∷ ts) = elim (Bool-cases (eqb_ℤ (pos t.pid) pid)) [
  | inl same ↦ inr (
    some (raised child_bit t) ∷ ts,
    ground (arith, same),
    record { place = 0; task = t; at = refl; id = same; told = refl },
  )
  | inr other ↦ elim (signal_father-Father pid ts) [
    | inl e ↦ inl (ground (arith, e, other))
    | inr (ts', e, f) ↦
        inr (some t ∷ ts', ground (arith, e, other), Father-later pid (some t) ts ts' f)
  ]
]

pub idents-Father :
    (pid : ℤ) (ts ts' : List (Option Task)) → Father pid ts ts' → idents ts' ≡ idents ts
idents-Father pid ts ts' f =
    ap idents f.told ∙ idents-put ts f.place f.task (raised child_bit f.task) f.at refl refl

-- `sys_kill` on a sound kernel.
sys_kill_run :
    (k : Kernel) (pid sig : ℤ) (me x : Task) (ts : List (Option Task))
    → task_at k.tasks k.current ≡ some me
    → k.tasks ≡ some x ∷ ts
    → sys_kill k pid sig
      ≡ some (
        (kill_each me sig (target_of pid) ts).0,
        record k { tasks = some x ∷ (kill_each me sig (target_of pid) ts).1 },
      )
unfolding sys_kill
sys_kill_run k pid sig me x ts at all = ground (arith, at, all)

pub sys_kill-IsSound :
    (k : Kernel) (pid sig : ℤ)
    → IsSound k
    → (retval : ℤ) × (k' : Kernel) × (sys_kill k pid sig ≡ some (retval, k')) × IsSound k'
unfolding idents
sys_kill-IsSound k pid sig s =
    let (x, ts, all) = first_task k s in
    let (me, _, at) = current_task k s in
    (
      (kill_each me sig (target_of pid) ts).0,
      record k { tasks = some x ∷ (kill_each me sig (target_of pid) ts).1 },
      sys_kill_run k pid sig me x ts at all,
      IsSound-same k _
          (ap (λ l. ident (some x) ∷ l) (idents-kill_each me sig (target_of pid) ts)
            ∙ sym (ap idents all))
          refl s.here s,
    )

-- No task of the list has the id.
abbrev Unknown : ℕ → List (Option Task) → Type 0
Unknown p ts = (j : ℕ) (t : Task) → get_elem? ts j ≡ some (some t) → t.pid ≢ p

selects-Unknown :
    (me : Task) (p : ℕ) (o : Option Task) (ts : List (Option Task))
    → Unknown p (o ∷ ts)
    → selects me (one p) o ≡ false
selects-Unknown me p none ts h = refl
selects-Unknown me p (some t) ts h = ground (arith, h 0 t refl)

kill_each-Unknown :
    (me : Task) (sig : ℤ) (p : ℕ) (ts : List (Option Task))
    → Unknown p ts
    → kill_each me sig (one p) ts ≡ (pos 0, ts)
unfolding kill_each
kill_each-Unknown me sig p [] h = refl
kill_each-Unknown me sig p (o ∷ ts) h =
    ground (arith, kill_each-Unknown me sig p ts (λ j. h (suc j)), selects-Unknown me p o ts h)

-- The one task with an id gets the signal.
kill_each-one :
    (me t : Task) (sig : ℤ) (bit p : ℕ) (j : ℕ) (ts : List (Option Task))
    → signal_bit sig ≡ some bit
    → may_signal me false t ≡ true
    → get_elem? ts j ≡ some (some t)
    → t.pid ≡ p
    → ((i : ℕ) (u : Task) → get_elem? ts i ≡ some (some u) → u.pid ≡ p → i ≡ j)
    → kill_each me sig (one p) ts ≡ (pos 0, set ts j (some (raised bit t)))
unfolding kill_each send_sig
kill_each-one me t sig bit p j [] valid may at id only = absurd (cc at)
kill_each-one me t sig bit p zero (o ∷ ts) valid may at id only =
    let rest : kill_each me sig (one p) ts ≡ (pos 0, ts) =
      kill_each-Unknown me sig p ts (λ i u e same. absurd (omega (arith, only (suc i) u e same))) in
    ground (arith, rest, at, id, valid, may)
kill_each-one me t sig bit p (suc j) (o ∷ ts) valid may at id only =
    let rest =
      kill_each-one me t sig bit p j ts valid may at id
        (λ i u e same. omega (arith, only (suc i) u e same)) in
    let other : selects me (one p) o ≡ false =
      by_entry o (λ u e same. omega (arith, only 0 u e same)) in
    ground (arith, rest, other)
  where
    by_entry :
        (x : Option Task)
        → ((u : Task) → some x ≡ some (some u) → u.pid ≢ p)
        → selects me (one p) x ≡ false
    by_entry none h = refl
    by_entry (some u) h = ground (arith, h u refl)

-- A signal to all is an error if a place is free.
kill_each-everyone :
    (me : Task) (sig : ℤ) (j : ℕ) (ts : List (Option Task))
    → get_elem? ts j ≡ some none
    → (kill_each me sig everyone ts).0 ≢ pos 0
unfolding kill_each send_sig
kill_each-everyone me sig j [] free = absurd (cc free)
kill_each-everyone me sig zero (none ∷ ts) free = λ e. ground (arith, e)
kill_each-everyone me sig zero (some t ∷ ts) free = absurd (cc free)
kill_each-everyone me sig (suc j) (none ∷ ts) free = λ e. ground (arith, e)
kill_each-everyone me sig (suc j) (some t ∷ ts) free =
    let rest = kill_each-everyone me sig j ts free in λ e. ground (arith, e, rest)

module _ (k : Kernel) (sig : ℤ) (s : IsSound k) where
  -- On a sound kernel a valid signal to the id of a task, which is not task 0 and to which the caller may
  -- send, reaches exactly that task, and the call returns 0.
  pub sys_kill-one :
      (p j bit : ℕ) (me t : Task)
      → task_at k.tasks k.current ≡ some me
      → signal_bit sig ≡ some bit
      → get_elem? k.tasks (suc j) ≡ some (some t)
      → t.pid ≡ suc p
      → may_signal me false t ≡ true
      → sys_kill k (pos (suc p)) sig
        ≡ some (pos 0, record k { tasks = set k.tasks (suc j) (some (raised bit t)) })
  sys_kill-one p j bit me t here valid at id may =
      let (x, ts, all) = first_task k s in
      let place : (i : ℕ) (u : Task)
          → get_elem? ts i ≡ some (some u)
          → get_elem? (idents k.tasks) (suc i) ≡ some (some (u.pid, u.priority)) =
        λ i u e.
          get_elem?-idents k.tasks (suc i) (some u) (ap (λ l. get_elem? l (suc i)) all ∙ e) in
      let at' : get_elem? ts j ≡ some (some t) = ap (λ l. get_elem? l (suc j)) (sym all) ∙ at in
      let only : (i : ℕ) (u : Task) → get_elem? ts i ≡ some (some u) → u.pid ≡ suc p → i ≡ j =
        λ i u e same. omega (
          arith,
          s.distinct (suc i) (suc j) (suc p) u.priority t.priority
              (place i u e ∙ ap (λ n. some (some (n, u.priority))) same)
              (place j t at' ∙ ap (λ n. some (some (n, t.priority))) id),
        ) in
      let sent = kill_each-one me t sig bit (suc p) j ts valid may at' id only in
      sys_kill_run k (pos (suc p)) sig me x ts here all ∙ ground (arith, sent, all)

  -- On a sound kernel with a free place, a signal to all processes returns an error, also where each of
  -- them has got the signal.
  pub sys_kill-everyone :
      (j : ℕ)
      → get_elem? k.tasks (suc j) ≡ some none
      → (retval : ℤ) × (k' : Kernel) × (sys_kill k (negsuc 0) sig ≡ some (retval, k'))
        × (retval ≢ pos 0)
  sys_kill-everyone j free =
      let (x, ts, all) = first_task k s in
      let (me, _, at) = current_task k s in
      (
        (kill_each me sig everyone ts).0,
        _,
        sys_kill_run k (negsuc 0) sig me x ts at all,
        kill_each-everyone me sig j ts (ap (λ l. get_elem? l (suc j)) (sym all) ∙ free),
      )
