-- ===== src/Scheduler/Samples.antt =====
-- Tasks and a kernel for examples.
use by_doing.Prelude.{replicate, false, true, Option, none, some, List, [], ◌∷◌}
use by_doing.Prelude.Int.{negsuc, pos}
use by_doing.Scheduler.{Tss, Task, Kernel, running, interruptible}

abbrev pub no_tss : Tss
no_tss = record {
  back_link = 0;
  esp0 = 0;
  ss0 = 0;
  eip = 0;
  eflags = 0;
  eax = 0;
  ecx = 0;
  edx = 0;
  ebx = 0;
  esp = 0;
  ebp = 0;
  esi = 0;
  edi = 0;
  es = 0;
  cs = 0;
  ss = 0;
  ds = 0;
  fs = 0;
  gs = 0;
  ldt = 0;
  trace_bitmap = 0;
}

abbrev pub idle : Task
idle = record {
  state = running;
  counter = 0;
  priority = 15;
  signal = false ∷ false ∷ [];
  blocked = false ∷ false ∷ [];
  exit_code = 0;
  pid = 0;
  father = negsuc 0;
  pgrp = 0;
  session = 0;
  leader = false;
  euid = 0;
  alarm = 0;
  utime = 0;
  stime = 0;
  cutime = 0;
  cstime = 0;
  start_time = 0;
  start_code = 0;
  code_base = 0;
  data_base = 0;
  used_math = false;
  tty = negsuc 0;
  pwd = none;
  root = none;
  executable = none;
  filp = [];
  tss = no_tss;
}

-- A task that runs and has no time left, and one that a signal wakes.
abbrev pub spent : Task
spent = record idle { pid = 1 }

abbrev pub sleeper : Task
sleeper = record idle { pid = 2; state = interruptible; counter = 4; signal = false ∷ true ∷ [] }

abbrev pub others : List (Option Task)
others = some spent ∷ none ∷ some sleeper ∷ []

abbrev pub kernel : Kernel
kernel = record {
  tasks = some idle ∷ others;
  current = 1;
  jiffies = 7;
  log = [];
  last_pid = 2;
  last_math = none;
  f_count = λ _. 0;
  i_count = λ _. 0;
  tty_pgrp = λ _. 0;
}

-- A family: task 1, and its child at place 3, which is current and has an open file.
abbrev pub init : Task
init = record idle { pid = 1; signal = replicate 32 false; blocked = replicate 32 false }

abbrev pub child : Task
child = record idle { pid = 2; father = pos 1; filp = some 7 ∷ none ∷ [] }

abbrev pub family : Kernel
family = record kernel { tasks = some idle ∷ some init ∷ none ∷ some child ∷ []; current = 3 }
