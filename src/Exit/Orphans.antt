-- ===== src/Exit/Orphans.antt =====
-- The loops of `do_exit` over the other tasks: task 1 becomes the father of the children, and a session is
-- hung up.
use by_doing.Prelude.{
  ℕ, zero, suc, ◌+◌, ◌<◌, ◌≤◌, ◌≡◌, ◌≢◌, ◌∙◌, ap, sym, refl, Bool, true, false, Option, none, some,
  List, [], ◌∷◌, ◌==◌, arith, get_elem?, set, inl, inr, if◌then◌else◌, Bool-cases, Option-cases,
  ℕ_discrete, get_elem?-set_ne,
}
use by_doing.Prelude.Int.{ℤ, pos, eqb_ℤ}
use by_doing.Scheduler.{Task, task_at}
use by_doing.Scheduler.Kept.{
  IsKept, Kept_refl, Kept_trans, raised-Kept, Alike, Alike-refl, Alike-trans, Alike-set, Alike-cons,
}
use by_doing.Scheduler.Sound.{idents, idents-put}
use by_doing.Scheduler.Sleep.{get_elem?-set-here}
use by_doing.Signals.{signal_bit, send_sig, kill_session, raised, hang_up_bit}
use by_doing.Exit.{adopt_one, adopt, is_zombie, hang_up}

-- A child of `me` has task 1 as its father.
abbrev pub orphaned : Task → Task → Task
orphaned me t = if eqb_ℤ t.father (pos me.pid) then record t { father = pos 1 } else t

-- A signal that is sent, and one to a session.
send_sig-Kept :
    (me t : Task) (sig : ℤ) → (u : Task) × ((send_sig me sig (some t) true).1 ≡ some u) × IsKept t u
unfolding send_sig
send_sig-Kept me t sig = elim (Option-cases (signal_bit sig)) [
  | inl e ↦ (t, ground (arith, e), Kept_refl t)
  | inr (bit, e) ↦ (raised bit t, ground (arith, e), raised-Kept t bit)
]

put-Alike :
    (o : Option Task) (t u : Task) (ts : List (Option Task))
    → o ≡ some u
    → IsKept t u
    → Alike (some t ∷ ts) (o ∷ ts)
put-Alike none t u ts e k = absurd (cc e)
put-Alike (some v) t u ts e k =
    let same : u ≡ v = ground (arith, e) in Alike-set (some t ∷ ts) 0 t v refl (rw same at k)

sent-Alike :
    (me : Task) (ts : List (Option Task)) (j : ℕ) (sig : ℤ)
    → Alike ts (set ts j (send_sig me sig (task_at ts j) true).1)
unfolding send_sig
sent-Alike me [] j sig = Alike-refl []
sent-Alike me (none ∷ ts) zero sig = Alike-refl (none ∷ ts)
sent-Alike me (some t ∷ ts) zero sig =
    let (u, e, k) = send_sig-Kept me t sig in put-Alike (send_sig me sig (some t) true).1 t u ts e k
sent-Alike me (o ∷ ts) (suc j) sig = Alike-cons o ts _ (sent-Alike me ts j sig)

kill_session-Alike : (me : Task) (ts : List (Option Task)) → Alike ts (kill_session me ts)
unfolding kill_session
kill_session-Alike me [] = Alike-refl []
kill_session-Alike me (none ∷ ts) = Alike-cons none ts _ (kill_session-Alike me ts)
kill_session-Alike me (some t ∷ ts) =
    Alike-trans _ (some t ∷ kill_session me ts) _
      (Alike-cons (some t) ts _ (kill_session-Alike me ts))
      (Alike-set (some t ∷ kill_session me ts) 0 t _ refl (by_session (t.session == me.session)))
  where
    by_session : (b : Bool) → IsKept t (if b then raised hang_up_bit t else t)
    by_session true = raised-Kept t hang_up_bit
    by_session false = Kept_refl t

pub hang_up-Alike : (t : Task) (ts : List (Option Task)) → Alike ts (hang_up t ts)
hang_up-Alike t [] = Alike-refl []
hang_up-Alike t (o ∷ ts) = by_leader t.leader
  where
    by_leader : (b : Bool) → Alike (o ∷ ts) (if b then o ∷ kill_session t ts else o ∷ ts)
    by_leader true = Alike-cons o ts _ (kill_session-Alike t ts)
    by_leader false = Alike-refl (o ∷ ts)

-- A task with another father.
abbrev moved_to_1 : Task → Task
moved_to_1 t = record t { father = pos 1 }

pub orphaned-Kept : (me t u : Task) → IsKept t u → IsKept (orphaned me t) (orphaned me u)
orphaned-Kept me t u k =
    by_father (eqb_ℤ t.father (pos me.pid)) (eqb_ℤ u.father (pos me.pid))
      (ap (λ f. eqb_ℤ f (pos me.pid)) k.father)
  where
    by_father :
        (b c : Bool)
        → c ≡ b
        → IsKept (if b then moved_to_1 t else t) (if c then moved_to_1 u else u)
    by_father true true e = record {
      pid = k.pid;
      priority = k.priority;
      father = refl;
      group = k.group;
      exit_code = k.exit_code;
      times = k.times;
      sums = k.sums;
      state = k.state;
      width = k.width;
      signals = k.signals;
    }
    by_father false false e = k
    by_father true false e = absurd (cc e)
    by_father false true e = absurd (cc e)

-- One round of the loop over the children.
adopt_one_other :
    (me t : Task) (i : ℕ) (ts : List (Option Task))
    → task_at ts i ≡ some t
    → eqb_ℤ t.father (pos me.pid) ≡ false
    → adopt_one me i ts ≡ ts
unfolding adopt_one
adopt_one_other me t i ts at e = ground (arith, at, e)

adopt_one_gap :
    (me : Task) (i : ℕ) (ts : List (Option Task)) → task_at ts i ≡ none → adopt_one me i ts ≡ ts
unfolding adopt_one
adopt_one_gap me i ts at = ground (arith, at)

abbrev told : Task → Bool → List (Option Task) → List (Option Task)
told me b ts = if b then set ts 1 (send_sig me (pos 17) (task_at ts 1) true).1 else ts

told-Alike : (me : Task) (b : Bool) (ts : List (Option Task)) → Alike ts (told me b ts)
told-Alike me true ts = sent-Alike me ts 1 (pos 17)
told-Alike me false ts = Alike-refl ts

adopt_one_child :
    (me t : Task) (i : ℕ) (ts : List (Option Task))
    → task_at ts i ≡ some t
    → eqb_ℤ t.father (pos me.pid) ≡ true
    → adopt_one me i ts ≡ told me (is_zombie t.state) (set ts i (some (moved_to_1 t)))
unfolding adopt_one
adopt_one_child me t i ts at e = ground (arith, at, e)

pub task_at-get :
    (ts : List (Option Task)) (i : ℕ) (t : Task)
    → task_at ts i ≡ some t
    → get_elem? ts i ≡ some (some t)
task_at-get [] i t e = absurd (cc e)
task_at-get (o ∷ ts) zero t e = ap some e
task_at-get (o ∷ ts) (suc i) t e = task_at-get ts i t e

-- The tasks of a list have their likes, that at place `i` as an orphan.
record Orphaned (me : Task) (i : ℕ) (ts ts' : List (Option Task)) : Type 0 where
  ids : idents ts' ≡ idents ts
  here :
      (t : Task)
      → get_elem? ts i ≡ some (some t)
      → (u : Task) × (get_elem? ts' i ≡ some (some u)) × IsKept (orphaned me t) u
  apart :
      (j : ℕ) (t : Task)
      → j ≢ i
      → get_elem? ts j ≡ some (some t)
      → (u : Task) × (get_elem? ts' j ≡ some (some u)) × IsKept t u

orphaned_other : (me t : Task) → eqb_ℤ t.father (pos me.pid) ≡ false → orphaned me t ≡ t
orphaned_other me t e = ground (arith, e)

orphaned_child : (me t : Task) → eqb_ℤ t.father (pos me.pid) ≡ true → orphaned me t ≡ moved_to_1 t
orphaned_child me t e = ground (arith, e)

-- The table is left as it is.
Orphaned-same :
    (me : Task) (i : ℕ) (ts ts' : List (Option Task))
    → ((t : Task) → get_elem? ts i ≡ some (some t) → orphaned me t ≡ t)
    → ts' ≡ ts
    → Orphaned me i ts ts'
Orphaned-same me i ts ts' h same = record {
  ids = ap idents same;
  here = λ t e. (t, ap (λ l. get_elem? l i) same ∙ e, rw (h t e) (Kept_refl t));
  apart = λ j t _ e. (t, ap (λ l. get_elem? l j) same ∙ e, Kept_refl t);
}

Orphaned-child :
    (me v : Task) (i : ℕ) (ts ts' : List (Option Task))
    → get_elem? ts i ≡ some (some v)
    → orphaned me v ≡ moved_to_1 v
    → Alike (set ts i (some (moved_to_1 v))) ts'
    → Orphaned me i ts ts'
Orphaned-child me v i ts ts' at child (same, kept) = record {
  ids = same ∙ idents-put ts i v (moved_to_1 v) at refl refl;
  here = λ t e.
      let (u, to, k) = kept i (moved_to_1 v) (get_elem?-set-here ts i v (moved_to_1 v) at) in
      let this : t ≡ v = ground (arith, e, at) in (u, to, rw (ap (orphaned me) this ∙ child) k);
  apart = λ j t apart e.
      kept j t (get_elem?-set_ne ts (some (moved_to_1 v)) (λ same. apart (sym same)) ∙ e);
}

adopt_one-Orphaned :
    (me : Task) (i : ℕ) (ts : List (Option Task)) → Orphaned me i ts (adopt_one me i ts)
adopt_one-Orphaned me i ts = elim (Option-cases (task_at ts i)) [
  | inl e ↦
      Orphaned-same me i ts _ (λ t at. absurd (ground (arith, e, at))) (adopt_one_gap me i ts e)
  | inr (v, e) ↦ elim (Bool-cases (eqb_ℤ v.father (pos me.pid))) [
    | inr other ↦
        Orphaned-same me i ts _
          (λ t at. let this : t ≡ v = ground (arith, e, at) in rw this (orphaned_other me v other))
          (adopt_one_other me v i ts e other)
    | inl child ↦ Orphaned-child me v i ts _ (task_at-get ts i v e) (orphaned_child me v child) (
        rw (adopt_one_child me v i ts e child)
          (told-Alike me (is_zombie v.state) (set ts i (some (moved_to_1 v)))))
  ]
]

-- All the rounds.
pub idents-adopt :
    (me : Task) (rounds i : ℕ) (ts : List (Option Task)) → idents (adopt me rounds i ts) ≡ idents ts
unfolding adopt
idents-adopt me zero i ts = refl
idents-adopt me (suc rounds) i ts =
    idents-adopt me rounds (suc i) (adopt_one me i ts) ∙ (adopt_one-Orphaned me i ts).ids

adopt-before :
    (me : Task) (rounds i : ℕ) (ts : List (Option Task)) (j : ℕ) (t : Task)
    → j < i
    → get_elem? ts j ≡ some (some t)
    → (u : Task) × (get_elem? (adopt me rounds i ts) j ≡ some (some u)) × IsKept t u
unfolding adopt
adopt-before me zero i ts j t lt at = (t, at, Kept_refl t)
adopt-before me (suc rounds) i ts j t lt at =
    let (u, to, k) = (adopt_one-Orphaned me i ts).apart j t (omega arith) at in
    let (v, to', k') = adopt-before me rounds (suc i) (adopt_one me i ts) j u (omega arith) to in
    (v, to', Kept_trans k k')

pub adopt-orphaned :
    (me : Task) (rounds i : ℕ) (ts : List (Option Task)) (j : ℕ) (t : Task)
    → i ≤ j
    → j < i + rounds
    → get_elem? ts j ≡ some (some t)
    → (u : Task) × (get_elem? (adopt me rounds i ts) j ≡ some (some u)) × IsKept (orphaned me t) u
unfolding adopt
adopt-orphaned me zero i ts j t le lt at = absurd (omega arith)
adopt-orphaned me (suc rounds) i ts j t le lt at = elim (ℕ_discrete j i) [
  | yes here ↦
      let (u, to, k) = (adopt_one-Orphaned me i ts).here t (ap (get_elem? ts) (sym here) ∙ at) in
      let (v, to', k') = adopt-before me rounds (suc i) (adopt_one me i ts) i u (omega arith) to in
      (v, ap (get_elem? (adopt me rounds (suc i) (adopt_one me i ts))) here ∙ to', Kept_trans k k')
  | no apart ↦
      let (u, to, k) = (adopt_one-Orphaned me i ts).apart j t apart at in
      let (v, to', k') =
        adopt-orphaned me rounds (suc i) (adopt_one me i ts) j u (omega arith) (omega arith) to in
      (v, to', Kept_trans (orphaned-Kept me t u k) k')
]
