-- ===== src/Who/Names.antt =====
-- `iam` and `whoami` on names as C strings.
use by_doing.Prelude.{
  ℕ, ◌+◌, ◌<◌, ◌≡◌, ◌≢◌, refl, none, some, List, [], ◌∷◌, ◌++◌, ltb, ◌==◌, if◌then◌else◌, length,
  arith,
}
use by_doing.Prelude.Int.{ℤ, pos}
use by_doing.Who.{str_size, name_size, einval, copy_name, strcpy, sys_iam, sys_whoami}

-- No byte is a terminator.
abbrev pub IsName : List ℕ → Type 0
IsName [] = Unit
IsName (c ∷ cs) = (c ≢ 0) × IsName cs

-- The loop reads a name whose terminator is inside `str`, and else writes out of bounds.
copy_name-string :
    (i : ℕ) (name rest : List ℕ)
    → IsName name
    → copy_name i (name ++ (0 ∷ rest)) ≡ (
        if ltb (i + length name) str_size
        then some (i + length name + 1, name ++ (0 ∷ []))
        else none)
unfolding copy_name
copy_name-string i [] rest n = ground arith
copy_name-string i (c ∷ cs) rest n = ground (arith, n.0, copy_name-string (i + 1) cs rest n.1)

strcpy-string : (name rest : List ℕ) → IsName name → strcpy (name ++ (0 ∷ rest)) ≡ name
strcpy-string [] rest n = refl
strcpy-string (c ∷ cs) rest n = ground (arith, n.0, strcpy-string cs rest n.1)

-- `iam` with a string in the user's memory: a name of at most 23 bytes becomes `myname`, and its length is
-- returned; one of 24 bytes is refused with -EINVAL and changes nothing; a longer one is written behind
-- the end of `str`.
pub sys_iam_lem :
    (myname name rest : List ℕ)
    → IsName name
    → sys_iam myname (name ++ (0 ∷ rest)) ≡ (
        if ltb (length name) name_size
        then some (pos (length name), name)
        else if length name == name_size
        then some (einval, myname)
        else none)
unfolding sys_iam
sys_iam_lem myname name rest n =
    ground (arith, copy_name-string 0 name rest n, strcpy-string name [] n)

-- A name of at most 23 bytes that `iam` was given comes back from `whoami`, with its length, for every
-- size that it fits; for a smaller size nothing is written and -EINVAL is returned.
pub iam-whoami :
    (myname name rest : List ℕ) (size : ℕ)
    → IsName name
    → length name < name_size
    → (r : ℤ) × (kept : List ℕ) × (sys_iam myname (name ++ (0 ∷ rest)) ≡ some (r, kept))
      × (sys_whoami kept size
          ≡ (if ltb size (length name) then (einval, []) else (pos (length name), name)))
unfolding sys_whoami
iam-whoami myname name rest size n small =
    (pos (length name), name, ground (arith, sys_iam_lem myname name rest n, small), refl)
