-- ===== src/Wait/Search.antt =====
-- The loop of `sys_waitpid` over the tasks.
use by_doing.Prelude.{
  ℕ, zero, suc, ◌+◌, ◌≡◌, ◌≢◌, ◌∙◌, ◌⊎◌, ap, sym, refl, Bool, true, false, ◌&&◌, Option, none, some,
  List, [], ◌∷◌, arith, get_elem?, inl, inr, Bool-cases, ℕ_discrete,
}
use by_doing.Prelude.Int.{ℤ}
use by_doing.Scheduler.{Task, TaskState, running, interruptible, uninterruptible, zombie, stopped}
use by_doing.Wait.{
  Options, wanted, is_child, Scan, seen, found_stopped, found_zombie, scan, scan_at, look_at,
}

-- The task at place `i` is another one, a child of `me`, and one that `pid` asks for.
abbrev pub Waitable : Task → ℕ → ℤ → ℕ → Task → Type 0
Waitable me current pid i t = (i ≢ current) × ((is_child me t && wanted me pid t) ≡ true)

-- A child that the loop passes: it is not dead, and a stopped one is not asked for.
pub record Passed (options : Options) (t : Task) (flag : Bool) : Type 0 where
  pub alive : t.state ≢ zombie
  pub held : t.state ≡ stopped → options.untraced ≡ false
  pub counts : t.state ≢ stopped → flag ≡ true

module _ (me : Task) (current : ℕ) (pid : ℤ) (options : Options) where
  -- What the loop has come to on a list whose first place is `i`.
  abbrev pub Scanned : ℕ → List (Option Task) → Scan → Type 0
  Scanned i ts (seen flag) =
      ((n j : ℕ) (t : Task)
        → n ≡ i + j
        → get_elem? ts j ≡ some (some t)
        → Waitable me current pid n t
        → Passed options t flag)
      × (flag ≡ true
          → (n : ℕ) × (j : ℕ) × (t : Task) × (n ≡ i + j)
            × (get_elem? ts j ≡ some (some t))
            × Waitable me current pid n t)
  Scanned i ts (found_stopped n t) =
      (j : ℕ) × (n ≡ i + j)
      × (get_elem? ts j ≡ some (some t))
      × Waitable me current pid n t
      × (t.state ≡ stopped)
      × (options.untraced ≡ true)
  Scanned i ts (found_zombie n t) =
      (j : ℕ) × (n ≡ i + j)
      × (get_elem? ts j ≡ some (some t))
      × Waitable me current pid n t
      × (t.state ≡ zombie)

  -- An entry in front that is passed.
  Scanned-pass :
      (i : ℕ) (o : Option Task) (ts : List (Option Task)) (b c : Bool)
      → ((t : Task) → o ≡ some t → Waitable me current pid i t → Passed options t c)
      → (c ≡ b) ⊎ ((c ≡ true) × (t : Task) × (o ≡ some t) × Waitable me current pid i t)
      → Scanned (suc i) ts (seen b)
      → Scanned i (o ∷ ts) (seen c)
  Scanned-pass i o ts b c head flag (all, any) = (by_place, by_flag flag)
    where
      raise :
          (t : Task)
          → Passed options t b
          → (c ≡ b) ⊎ ((c ≡ true) × (t : Task) × (o ≡ some t) × Waitable me current pid i t)
          → Passed options t c
      raise t p (inl e) = record { alive = p.alive; held = p.held; counts = λ s. e ∙ p.counts s }
      raise t p (inr (e, _, _, _)) = record { alive = p.alive; held = p.held; counts = λ s. e }

      by_place :
          (n j : ℕ) (t : Task)
          → n ≡ i + j
          → get_elem? (o ∷ ts) j ≡ some (some t)
          → Waitable me current pid n t
          → Passed options t c
      by_place n zero t e at w =
          let same : n ≡ i = omega (arith, e) in head t (ground (arith, at)) (rw same at w)
      by_place n (suc j) t e at w = raise t (all n j t (omega (arith, e)) at w) flag

      by_flag :
          (c ≡ b) ⊎ ((c ≡ true) × (t : Task) × (o ≡ some t) × Waitable me current pid i t)
          → c ≡ true
          → (n : ℕ) × (j : ℕ) × (t : Task) × (n ≡ i + j)
            × (get_elem? (o ∷ ts) j ≡ some (some t))
            × Waitable me current pid n t
      by_flag (inl same) e =
          let (n, j, t, at, here, w) = any (sym same ∙ e) in
          (n, suc j, t, omega (arith, at), here, w)
      by_flag (inr (_, t, here, w)) e = (i, 0, t, omega arith, ap some here, w)

  passes :
      (i : ℕ) (t : Task) (ts : List (Option Task)) (b c : Bool)
      → Passed options t c
      → (c ≡ b) ⊎ (c ≡ true)
      → Waitable me current pid i t
      → Scanned (suc i) ts (seen b)
      → Scanned i (some t ∷ ts) (seen c)
  passes i t ts b c p flag w h =
      Scanned-pass i (some t) ts b c (λ u same _. let e : u ≡ t = ground (arith, same) in rw e p)
        (elim flag [ inl e ↦ inl e | inr e ↦ inr (e, t, refl, w) ]) h

  moves :
      (i : ℕ) (t : Task) (ts : List (Option Task)) (b : Bool)
      → t.state ≢ zombie
      → t.state ≢ stopped
      → look_at options i t b ≡ seen true
      → Waitable me current pid i t
      → Scanned (suc i) ts (seen b)
      → Scanned i (some t ∷ ts) (look_at options i t b)
  moves i t ts b alive going run w h =
      let p : Passed options t true = record {
        alive = alive;
        held = λ d. absurd (going d);
        counts = λ _. refl;
      } in
      rw run (passes i t ts b true p (inr refl) w h)

  -- A task that the loop looks at.
  look_at-Scanned :
      (s : TaskState) (i : ℕ) (t : Task) (ts : List (Option Task)) (b : Bool)
      → t.state ≡ s
      → Waitable me current pid i t
      → Scanned (suc i) ts (seen b)
      → Scanned i (some t ∷ ts) (look_at options i t b)
  look_at-Scanned running i t ts b e w h =
      moves i t ts b (λ d. cc (e, d)) (λ d. cc (e, d)) (ground (arith, e)) w h
  look_at-Scanned interruptible i t ts b e w h =
      moves i t ts b (λ d. cc (e, d)) (λ d. cc (e, d)) (ground (arith, e)) w h
  look_at-Scanned uninterruptible i t ts b e w h =
      moves i t ts b (λ d. cc (e, d)) (λ d. cc (e, d)) (ground (arith, e)) w h
  look_at-Scanned zombie i t ts b e w h =
      let run : look_at options i t b ≡ found_zombie i t = ground (arith, e) in
      rw run (0, omega arith, refl, w, e)
  look_at-Scanned stopped i t ts b e w h = elim (Bool-cases options.untraced) [
    | inl u ↦
        let run : look_at options i t b ≡ found_stopped i t = ground (arith, e, u) in
        rw run (0, omega arith, refl, w, e, u)
    | inr u ↦
        let run : look_at options i t b ≡ seen b = ground (arith, e, u) in
        let p : Passed options t b = record {
          alive = λ d. cc (e, d);
          held = λ _. u;
          counts = λ apart. absurd (apart e);
        } in
        rw run (passes i t ts b b p (inl refl) w h)
  ]

  skips :
      (i : ℕ) (t : Task) (ts : List (Option Task)) (b : Bool)
      → (Waitable me current pid i t → ⊥)
      → Scanned (suc i) ts (seen b)
      → Scanned i (some t ∷ ts) (seen b)
  skips i t ts b not h =
      Scanned-pass i (some t) ts b b
        (λ u same w. let e : u ≡ t = ground (arith, same) in absurd (not (rw e at w))) (inl refl) h

  scan_at-Scanned :
      (i : ℕ) (t : Task) (ts : List (Option Task)) (b : Bool)
      → Scanned (suc i) ts (seen b)
      → Scanned i (some t ∷ ts) (scan_at me current pid options i t b)
  scan_at-Scanned i t ts b h = elim (ℕ_discrete i current) [
    | yes here ↦
        let run : scan_at me current pid options i t b ≡ seen b = ground (arith, here) in
        rw run (skips i t ts b (λ w. w.0 here) h)
    | no apart ↦ elim (Bool-cases (is_child me t && wanted me pid t)) [
      | inl child ↦
          let run : scan_at me current pid options i t b ≡ look_at options i t b =
            ground (arith, apart, child) in
          rw run (look_at-Scanned t.state i t ts b refl (apart, child) h)
      | inr other ↦
          let run : scan_at me current pid options i t b ≡ seen b = ground (arith, apart, other) in
          rw run (skips i t ts b (λ w. absurd (cc (w.1, other))) h)
    ]
  ]

  free_place :
      (i : ℕ) (ts : List (Option Task)) (r : Scan) → Scanned (suc i) ts r → Scanned i (none ∷ ts) r
  free_place i ts (seen b) h = Scanned-pass i none ts b b (λ t e. absurd (cc e)) (inl refl) h
  free_place i ts (found_stopped n u) (j, e, at, w, d, f) = (suc j, omega (arith, e), at, w, d, f)
  free_place i ts (found_zombie n u) (j, e, at, w, d) = (suc j, omega (arith, e), at, w, d)

  -- The loop as a whole.
  pub scan-Scanned :
      (i : ℕ) (ts : List (Option Task)) → Scanned i ts (scan me current pid options i ts)
  unfolding scan
  scan-Scanned i [] = (λ n j t e at. absurd (cc at), λ e. absurd (cc e))
  scan-Scanned i (none ∷ ts) = free_place i ts _ (scan-Scanned (suc i) ts)
  scan-Scanned i (some t ∷ ts) =
      by_later (scan me current pid options (suc i) ts) (scan-Scanned (suc i) ts)
    where
      by_later :
          (r : Scan)
          → Scanned (suc i) ts r
          → Scanned i (some t ∷ ts) (elim r [
            | seen flag ↦ scan_at me current pid options i t flag
            | found_stopped j u ↦ found_stopped j u
            | found_zombie j u ↦ found_zombie j u
          ])
      by_later (seen b) h = scan_at-Scanned i t ts b h
      by_later (found_stopped n u) (j, e, at, w, d, f) = (suc j, omega (arith, e), at, w, d, f)
      by_later (found_zombie n u) (j, e, at, w, d) = (suc j, omega (arith, e), at, w, d)
