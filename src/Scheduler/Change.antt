-- ===== src/Scheduler/Change.antt =====
-- The invariant of the table of tasks where a task comes or goes.
use by_doing.Prelude.{
  ℕ, ◌≤◌, ◌<◌, ◌≡◌, ◌≢◌, ◌⊎◌, sym, ap, ◌∙◌, none, some, List, length, get_elem?, set, arith,
  get_elem?-set, length-set, inl, inr, ℕ_discrete,
}
use by_doing.Scheduler.{Kernel, nr_tasks, long_limit}
use by_doing.Scheduler.Rounds.{IsPriority}
use by_doing.Scheduler.Sound.{Ident, idents, Taken, IsSound, get_elem?-set_over}

-- The entries after one of them has changed.
set-cases :
    (ids : List Ident) (n j : ℕ) (x y : Ident)
    → get_elem? (set ids n x) j ≡ some y
    → ((j ≡ n) × (x ≡ y)) ⊎ ((j ≢ n) × (get_elem? ids j ≡ some y))
set-cases ids n j x y e = elim (ℕ_discrete j n) [
  | yes same ↦ inl (same, ground (arith, e, get_elem?-set ids n x j))
  | no apart ↦ inr (apart, ground (arith, e, get_elem?-set ids n x j))
]

set-apart :
    (ids : List Ident) (n j : ℕ) (x : Ident) → j ≢ n → get_elem? (set ids n x) j ≡ get_elem? ids j
set-apart ids n j x apart = ground (arith, get_elem?-set ids n x j)

module _ (k k' : Kernel) (s : IsSound k) (n : ℕ) where
  abbrev ids : List Ident
  ids = idents k.tasks

  few_after : (x : Ident) → idents k'.tasks ≡ set ids n x → length (idents k'.tasks) ≤ nr_tasks
  few_after x after = omega (arith, ap (length {A = Ident}) after, length-set ids n x, s.few)

  still-Taken :
      (x : Ident) (j : ℕ)
      → idents k'.tasks ≡ set ids n x
      → j ≢ n
      → Taken ids j
      → Taken (idents k'.tasks) j
  still-Taken x j after apart (p, q, e) =
      (p, q, ap (λ l. get_elem? l j) after ∙ set-apart ids n j x apart ∙ e)

  -- A task with a new id comes to a free place.
  pub add-IsSound :
      (p q : ℕ)
      → idents k'.tasks ≡ set ids n (some (p, q))
      → get_elem? ids n ≡ some none
      → ((j r : ℕ) → get_elem? ids j ≢ some (some (p, r)))
      → IsPriority q
      → k'.current ≡ k.current
      → k'.last_pid < long_limit
      → IsSound k'
  add-IsSound p q after free fresh above here small =
      let x : Ident = some (p, q) in
      let other : (j : ℕ) → Taken ids j → j ≢ n =
        λ j (t : Taken ids j) same. absurd (cc (ap (get_elem? ids) same, t.2, free)) in
      let at : (j : ℕ) (y : Ident)
          → get_elem? (idents k'.tasks) j ≡ some y
          → ((j ≡ n) × (x ≡ y)) ⊎ ((j ≢ n) × (get_elem? ids j ≡ some y)) =
        λ j y e. set-cases ids n j x y (ap (λ l. get_elem? l j) (sym after) ∙ e) in
      record {
        few = few_after x after;
        first = still-Taken x 0 after (other 0 s.first) s.first;
        here =
            still-Taken x k'.current after (λ e. other k.current s.here (sym here ∙ e))
              (s.here.0, s.here.1, ap (get_elem? ids) here ∙ s.here.2);
        positive = λ j a b e. elim (at j (some (a, b)) e) [
          | inl (_, same) ↦ (ground (arith, same, above.0), ground (arith, same, above.1))
          | inr (_, old) ↦ s.positive j a b old
        ];
        distinct = λ i j a b c d e. elim (at i (some (a, b)) d) [
          | inl (i_n, new) ↦ elim (at j (some (a, c)) e) [
            | inl (j_n, _) ↦ i_n ∙ sym j_n
            | inr (_, old) ↦ absurd (fresh j c (ground (arith, old, new)))
          ]
          | inr (_, old) ↦ elim (at j (some (a, c)) e) [
            | inl (_, new) ↦ absurd (fresh i b (ground (arith, old, new)))
            | inr (_, old') ↦ s.distinct i j a b c old old'
          ]
        ];
        small = small;
      }

  -- A task that is neither task 0 nor the current one goes.
  pub drop-IsSound :
      idents k'.tasks ≡ set ids n none
      → n ≢ 0
      → k'.current ≡ k.current
      → k.current ≢ n
      → k'.last_pid ≡ k.last_pid
      → IsSound k'
  drop-IsSound after not_first here apart last =
      let at : (j a b : ℕ)
          → get_elem? (idents k'.tasks) j ≡ some (some (a, b))
          → get_elem? ids j ≡ some (some (a, b)) =
        λ j a b e.
          elim (set-cases ids n j none (some (a, b)) (ap (λ l. get_elem? l j) (sym after) ∙ e)) [
            | inl (_, clash) ↦ absurd (cc clash)
            | inr (_, old) ↦ old
          ] in
      record {
        few = few_after none after;
        first = still-Taken none 0 after (λ e. not_first (sym e)) s.first;
        here =
            still-Taken none k'.current after (λ e. apart (sym here ∙ e))
              (s.here.0, s.here.1, ap (get_elem? ids) here ∙ s.here.2);
        positive = λ j a b e. s.positive j a b (at j a b e);
        distinct = λ i j a b c d e. s.distinct i j a b c (at i a b d) (at j a c e);
        small = omega (arith, last, s.small);
      }

  -- The priority of a task changes.
  pub renice-IsSound :
      (p q r : ℕ)
      → idents k'.tasks ≡ set ids n (some (p, r))
      → get_elem? ids n ≡ some (some (p, q))
      → IsPriority r
      → k'.current ≡ k.current
      → k'.last_pid ≡ k.last_pid
      → IsSound k'
  renice-IsSound p q r after at above here last =
      let new : Ident = some (p, r) in
      let was : (j a b : ℕ)
          → get_elem? (idents k'.tasks) j ≡ some (some (a, b))
          → (c : ℕ) × (get_elem? ids j ≡ some (some (a, c))) × (IsPriority c → IsPriority b) =
        λ j a b e.
          elim (set-cases ids n j new (some (a, b)) (ap (λ l. get_elem? l j) (sym after) ∙ e)) [
            | inl (j_n, same) ↦ (
              q,
              ap (get_elem? ids) j_n ∙ at ∙ ground (arith, same),
              λ _. (ground (arith, same, above.0), ground (arith, same, above.1)),
            )
            | inr (_, old) ↦ (b, old, λ h. h)
          ] in
      let still : (j : ℕ) → Taken ids j → Taken (idents k'.tasks) j = λ j t. elim (ℕ_discrete j n) [
        | yes here ↦ (
          p,
          r,
          ap (λ l. get_elem? l j) after
              ∙ ap (get_elem? (set ids n new)) here
              ∙ get_elem?-set_over ids n (some (p, q)) new at,
        )
        | no apart ↦ still-Taken new j after apart t
      ] in
      record {
        few = few_after new after;
        first = still 0 s.first;
        here = still k'.current (s.here.0, s.here.1, ap (get_elem? ids) here ∙ s.here.2);
        positive = λ j a b e. let (c, old, up) = was j a b e in up (s.positive j a c old);
        distinct = λ i j a b c d e.
            let (x, old, _) = was i a b d in
            let (y, old', _) = was j a c e in s.distinct i j a x y old old';
        small = omega (arith, last, s.small);
      }
