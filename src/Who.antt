-- ===== src/Who.antt =====
-- OS/syscall/who.c: the system calls `iam` and `whoami`. The user's memory from `name` on is a list of
-- bytes, and a read behind its end a fault; `myname` is the string that the kernel keeps.
pub mod Names
mod Tests
use by_doing.Prelude.{
  ℕ, zero, suc, ◌+◌, ◌-◌, Option, none, some, List, [], ◌∷◌, ltb, leb, ◌==◌, if◌then◌else◌, length,
}
use by_doing.Prelude.Int.{ℤ, pos, negsuc}

-- The sizes of `str` and of `myname`.
abbrev pub str_size : ℕ
str_size = 25

abbrev pub name_size : ℕ
name_size = 24

-- -EINVAL
abbrev pub einval : ℤ
einval = negsuc 21

-- The loop of `sys_iam` from `i` on: the index behind the terminator, and the bytes written. A byte behind
-- the end of `str` is a fault; the loop's own test, `i <= 25`, holds wherever the write was inside.
unfoldable pub copy_name : ℕ → List ℕ → Option (ℕ × List ℕ)
copy_name i [] = none
copy_name i (c ∷ memory) =
    let later = copy_name (i + 1) memory in
    if ltb i str_size
    then (if c == 0
        then some (i + 1, c ∷ [])
        else elim later [ none ↦ none | some (n, str) ↦ some (n, c ∷ str) ])
    else none

-- `strcpy`: the bytes up to the terminator.
abbrev pub strcpy : List ℕ → List ℕ
strcpy [] = []
strcpy (c ∷ cs) = let rest = strcpy cs in if c == 0 then [] else c ∷ rest

-- The value returned, and `myname` afterwards.
unfoldable pub sys_iam : List ℕ → List ℕ → Option (ℤ × List ℕ)
unfolding copy_name
sys_iam myname memory = elim (copy_name 0 memory) [
  | none ↦ none
  | some (i, str) ↦
      if ltb name_size i then some (einval, myname) else some (pos (i - 1), strcpy str)
]

-- The value returned, and the bytes written to the user's memory.
unfoldable pub sys_whoami : List ℕ → ℕ → ℤ × List ℕ
sys_whoami myname size =
    if ltb size (length myname) then (einval, []) else (pos (length myname), myname)
