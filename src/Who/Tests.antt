-- ===== src/Who/Tests.antt =====
-- The calls at concrete values.
use by_doing.Prelude.{ℕ, ◌≡◌, some, List, [], ◌∷◌, arith}
use by_doing.Prelude.Int.{ℤ, pos}
use by_doing.Who.{sys_iam, sys_whoami}
use by_doing.Who.Names.{sys_iam_lem, iam-whoami}

iam_example : sys_iam [] (97 ∷ 98 ∷ 0 ∷ 5 ∷ []) ≡ some (pos 2, 97 ∷ 98 ∷ [])
iam_example = sys_iam_lem [] (97 ∷ 98 ∷ []) (5 ∷ []) (omega arith, (omega arith, tt))

whoami_example :
    (r : ℤ) × (kept : List ℕ) × (sys_iam [] (97 ∷ 98 ∷ 0 ∷ 5 ∷ []) ≡ some (r, kept))
    × (sys_whoami kept 8 ≡ (pos 2, 97 ∷ 98 ∷ []))
whoami_example =
    iam-whoami [] (97 ∷ 98 ∷ []) (5 ∷ []) 8 (omega arith, (omega arith, tt)) (omega arith)
