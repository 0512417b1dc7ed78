-- ===== src/Exit/Samples.antt =====
-- A file system for examples, which closes a file and counts nothing.
use by_doing.Prelude.{refl, none, set}
use by_doing.Exit.{FileSystem}

abbrev pub no_counts : FileSystem
no_counts = record {
  sys_close = λ i t c. (record t { filp = set t.filp i none }, c);
  iput = λ o c. c;
  closes = λ i t c. refl;
}
