-- ===== src/Fork.antt =====
-- OS/process/fork.c: a new process id, a new task, and the check of a range of memory before the kernel
-- writes to it. Pages and page tables are the memory manager's: whether it has a page, and whether it
-- copied the tables, are arguments. The coprocessor's registers are not modelled.
pub mod Pid
pub mod Area
pub mod Child
mod Tests
use by_doing.Prelude.{
  ℕ, zero, suc, ◌+◌, ◌-◌, ◌*◌, ◌%◌, ◌^◌, Bool, true, false, Option, none, some, List, [], ◌∷◌, ◌++◌,
  ltb, ◌==◌, if◌then◌else◌, set, drop, replicate,
}
use by_doing.Prelude.Int.{ℤ, pos, negsuc}
use by_doing.Scheduler.{
  Task, Tss, Kernel, LogLine, running, uninterruptible, became_ready, is_new, task_at, nr_tasks,
  long_limit,
}

-- -EAGAIN and -ENOMEM.
abbrev pub eagain : ℤ
eagain = negsuc 10

abbrev pub enomem : ℤ
enomem = negsuc 11

-- `if ((++last_pid)<0) last_pid=1`: the counter wraps round, and 0 is left out.
abbrev pub next_pid : ℕ → ℕ
next_pid last = if last + 1 == long_limit then 1 else last + 1

unfoldable pub pid_used : ℕ → List (Option Task) → Bool
pid_used p [] = false
pid_used p (none ∷ ts) = pid_used p ts
pid_used p (some t ∷ ts) = let later = pid_used p ts in if t.pid == p then true else later

-- `goto repeat`, with the rounds that are left.
unfoldable pub search_pid : ℕ → ℕ → List (Option Task) → Option ℕ
unfolding pid_used
search_pid zero last ts = none
search_pid (suc rounds) last ts = elim (pid_used (next_pid last) ts) [
  | true ↦ search_pid rounds (next_pid last) ts
  | false ↦ some (next_pid last)
]

-- The first place without a task, from `i` on.
unfoldable pub free_place : ℕ → List (Option Task) → Option ℕ
free_place i [] = none
free_place i (none ∷ ts) = some i
free_place i (some t ∷ ts) = free_place (suc i) ts

abbrev pub place_result : Option ℕ → ℤ
place_result none = eagain
place_result (some i) = pos i

unfoldable pub find_empty_process : Kernel → Option (ℤ × Kernel)
unfolding search_pid free_place
find_empty_process k = elim (search_pid (suc nr_tasks) k.last_pid k.tasks) [
  | none ↦ none
  | some p ↦ some (place_result (free_place 1 (drop 1 k.tasks)), record k { last_pid = p })
]

-- The registers that the system call finds on the stack.
pub record Registers : Type 0 where
  pub ebp : ℕ
  pub edi : ℕ
  pub esi : ℕ
  pub gs : ℕ
  pub ebx : ℕ
  pub ecx : ℕ
  pub edx : ℕ
  pub fs : ℕ
  pub es : ℕ
  pub ds : ℕ
  pub eip : ℕ
  pub cs : ℕ
  pub eflags : ℕ
  pub esp : ℕ
  pub ss : ℕ

-- `& 0xffff`
abbrev pub low_word : ℕ → ℕ
low_word n = n % 2 ^ 16

abbrev pub page_size : ℕ
page_size = 4096

-- The state segment of the new task, in the page `p`; `_LDT(nr)` is `(nr << 4) + (5 << 3)`.
unfoldable pub child_tss : Registers → ℕ → ℕ → Tss
child_tss r p nr = record {
  back_link = 0;
  esp0 = page_size + p;
  ss0 = 0x10;
  eip = r.eip;
  eflags = r.eflags;
  eax = 0;
  ecx = r.ecx;
  edx = r.edx;
  ebx = r.ebx;
  esp = r.esp;
  ebp = r.ebp;
  esi = r.esi;
  edi = r.edi;
  es = low_word r.es;
  cs = low_word r.cs;
  ss = low_word r.ss;
  ds = low_word r.ds;
  fs = low_word r.fs;
  gs = low_word r.gs;
  ldt = nr * 16 + 40;
  trace_bitmap = 0x80000000;
}

-- `copy_mem` for the place `nr`: the value returned, and the new task with its bases. A panic is `none`;
-- `copied` says whether `copy_page_tables` succeeded.
unfoldable pub copy_mem : ℕ → ℕ → Bool → ℕ → Task → Task → Option (ℤ × Task)
copy_mem code_limit data_limit copied nr current p =
    if current.data_base == current.code_base
    then (if ltb data_limit code_limit
        then none
        else some (
          if copied then pos 0 else enomem,
          record p {
            start_code = nr * 0x4000000;
            code_base = nr * 0x4000000;
            data_base = nr * 0x4000000;
          },
        ))
    else none

-- No bit of the 32.
abbrev pub no_signals : List Bool
no_signals = replicate 32 false

-- The task as it is copied, before it may run.
abbrev pub copied_task : Registers → ℕ → ℕ → Kernel → Task → Task
copied_task r p nr k t = record t {
  state = uninterruptible;
  pid = k.last_pid;
  father = pos t.pid;
  counter = t.priority;
  signal = no_signals;
  alarm = 0;
  leader = false;
  utime = 0;
  stime = 0;
  cutime = 0;
  cstime = 0;
  start_time = k.jiffies;
  tss = child_tss r p nr;
}

-- `count++` for what a pointer names, if it is not null.
abbrev pub counted : Option ℕ → (ℕ → ℕ) → ℕ → ℕ
counted none count a = count a
counted (some p) count a = if a == p then count a + 1 else count a

unfoldable pub counted_all : List (Option ℕ) → (ℕ → ℕ) → ℕ → ℕ
counted_all [] count = count
counted_all (f ∷ fs) count = counted_all fs (counted f count)

-- The end of `copy_process`: the counts go up, the task may run, and the log has two lines for it.
abbrev pub let_run : Kernel → ℕ → Task → Kernel
let_run k nr p = record k {
  tasks = set k.tasks nr (some (record p { state = running }));
  f_count = counted_all p.filp k.f_count;
  i_count = counted p.executable (counted p.root (counted p.pwd k.i_count));
  log =
      k.log
      ++ (record { pid = p.pid; kind = is_new; at = k.jiffies }
          ∷ record { pid = p.pid; kind = became_ready; at = k.jiffies }
          ∷ []);
}

-- `copy_process` for the place `nr`. `page` is the address from `get_free_page`, `none` where there is none.
unfoldable pub copy_process : Registers → Option ℕ → ℕ → ℕ → Bool → ℕ → Kernel → Option (ℤ × Kernel)
unfolding child_tss copy_mem counted_all
copy_process r none code_limit data_limit copied nr k = some (eagain, k)
copy_process r (some page) code_limit data_limit copied nr k = elim (task_at k.tasks k.current) [
  | none ↦ none
  | some t ↦ elim (copy_mem code_limit data_limit copied nr t (copied_task r page nr k t)) [
    | none ↦ none
    | some (e, p) ↦ elim e [
      | negsuc _ ↦ some (eagain, record k { tasks = set k.tasks nr none })
      | pos _ ↦ some (pos k.last_pid, let_run k nr p)
    ]
  ]
]

-- The two calls that the system call fork makes in a row: no child where there is no place.
unfoldable pub sys_fork : Registers → Option ℕ → ℕ → ℕ → Bool → Kernel → Option (ℤ × Kernel)
unfolding find_empty_process copy_process
sys_fork r page code_limit data_limit copied k = elim (find_empty_process k) [
  | none ↦ none
  | some (e, k') ↦ elim e [
    | negsuc n ↦ some (negsuc n, k')
    | pos nr ↦ copy_process r page code_limit data_limit copied nr k'
  ]
]

-- The loop of `verify_area`, with the pages that it hands to `write_verify`.
unfoldable pub verify_pages : ℕ → ℕ → ℕ → List ℕ
verify_pages zero start size = []
verify_pages (suc rounds) start size =
    let later = verify_pages rounds ((start + page_size) % 2 ^ 32) (size - page_size) in
    if ltb 0 size then start ∷ later else []

-- `verify_area`, with `size` as the word of the `int`: the loop runs only where the sum with the offset in
-- the page is not negative as an `int`. `base` is the data segment's.
unfoldable pub verify_area : ℕ → ℕ → ℕ → List ℕ
unfolding verify_pages
verify_area base address size =
    let offset = address % page_size in
    let total = (size + offset) % 2 ^ 32 in
    if ltb total (2 ^ 31)
    then verify_pages total ((base + (address - offset)) % 2 ^ 32) total
    else []
