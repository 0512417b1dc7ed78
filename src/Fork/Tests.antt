-- ===== src/Fork/Tests.antt =====
-- `find_empty_process`, `sys_fork` and `verify_area` at concrete values.
use by_doing.Prelude.{ℕ, ◌≡◌, refl, true, Option, some, arith, drop}
use by_doing.Prelude.Int.{ℤ}
use by_doing.Scheduler.{Kernel}
use by_doing.Scheduler.Sound.{IsSound}
use by_doing.Scheduler.Samples.{family, child}
use by_doing.Scheduler.Family.{family-IsSound}
use by_doing.Fork.{Registers, find_empty_process, place_result, sys_fork}
use by_doing.Fork.Pid.{IsFresh, FirstFree, find_empty_process-IsFresh}
use by_doing.Fork.Child.{Forked, sys_fork-Forked}

abbrev registers : Registers
registers = record {
  ebp = 1;
  edi = 2;
  esi = 3;
  gs = 0x17;
  ebx = 4;
  ecx = 5;
  edx = 6;
  fs = 0x17;
  es = 0x17;
  ds = 0x17;
  eip = 100;
  cs = 0x0f;
  eflags = 0x202;
  esp = 4000;
  ss = 0x17;
}

-- The id after 2 is free.
find_empty_process_example :
    (p : ℕ) × (o : Option ℕ) × (find_empty_process family
      ≡ some (place_result o, record family { last_pid = p }))
    × IsFresh family.tasks p
    × FirstFree 1 (drop 1 family.tasks) o
find_empty_process_example = find_empty_process-IsFresh family (omega arith) (omega arith)

sys_fork_example :
    (e : ℤ) × (k' : Kernel) × (sys_fork registers (some 8192) 0xa0000 0xa0000 true family
      ≡ some (e, k'))
    × Forked family child (some 8192) true e k'
    × IsSound k'
sys_fork_example =
    sys_fork-Forked registers (some 8192) 0xa0000 0xa0000 true family child family-IsSound refl refl
      (omega arith)
