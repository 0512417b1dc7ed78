-- ===== src/Fork/Area.antt =====
-- `verify_area`: the pages that it hands to `write_verify`.
use by_doing.Prelude.{ℕ, ◌+◌, ◌*◌, ◌%◌, ◌^◌, ◌<◌, Option, none, some, ltb, if◌then◌else◌}
use by_doing.Fork.{page_size}

-- The page for round `i`.
abbrev page : ℕ → ℕ → ℕ → Option ℕ
page start size i = if ltb (i * page_size) size then some (start + i * page_size) else none

module _ (base address size : ℕ) (fits : base + address + size < 2 ^ 32)
    (small : size + address % page_size < 2 ^ 31) where
  abbrev offset : ℕ
  offset = address % page_size
