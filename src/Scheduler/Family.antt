-- ===== src/Scheduler/Family.antt =====
-- The family of the samples as a sound kernel.
use by_doing.Prelude.{
  ℕ, zero, suc, ◌≡◌, ◌∙◌, sym, refl, some, arith, get_elem?, if◌then◌else◌, ◌==◌,
}
use by_doing.Scheduler.Samples.{family}
use by_doing.Scheduler.Rounds.{IsPriority}
use by_doing.Scheduler.Sound.{idents, IsSound}

abbrev place_of : ℕ → ℕ
place_of p = if p == 2 then 3 else p

family-places :
    (j p q : ℕ)
    → get_elem? (idents family.tasks) j ≡ some (some (p, q))
    → (j ≡ place_of p) × IsPriority q
unfolding idents
family-places zero p q e = (ground (arith, e), (ground (arith, e), ground (arith, e)))
family-places (suc zero) p q e = (ground (arith, e), (ground (arith, e), ground (arith, e)))
family-places (suc (suc zero)) p q e = absurd (cc e)
family-places (suc (suc (suc zero))) p q e =
    (ground (arith, e), (ground (arith, e), ground (arith, e)))
family-places (suc (suc (suc (suc j)))) p q e = absurd (cc e)

pub family-IsSound : IsSound family
unfolding idents
family-IsSound = record {
  few = omega arith;
  first = (0, 15, refl);
  here = (2, 15, refl);
  positive = λ j p q e. (family-places j p q e).1;
  distinct = λ i j p q r d e. (family-places i p q d).0 ∙ sym (family-places j p r e).0;
  small = omega arith;
}
