-- ===== src/Buffer/Plenty.antt =====
-- An allocator for examples that always has memory; its fresh bytes are 0.
use by_doing.Prelude.{
  ℕ, ◌≤◌, ◌≡◌, some, List, ◌++◌, arith, length, take, replicate, length-append, length-replicate,
  length-take, list_ext, get_elem?-take, get_elem?-append, get_elem?-none,
}
use by_doing.Buffer.{Heap}
use by_doing.Buffer.Append.{IsWilling}

abbrev pub resize : List ℕ → ℕ → List ℕ
resize old n = take n (old ++ replicate n 0)

length-resize : (old : List ℕ) (n : ℕ) → length (resize old n) ≡ n
length-resize old n = omega (
  arith,
  length-take n (old ++ replicate n 0),
  length-append old (replicate n 0),
  length-replicate {A = ℕ} n 0,
)

resize-keeps : (old : List ℕ) (n : ℕ) → length old ≤ n → take (length old) (resize old n) ≡ old
resize-keeps old n h = list_ext _ _ λ k. ground (
  arith,
  get_elem?-take (length old) (resize old n) k,
  get_elem?-take n (old ++ replicate n 0) k,
  get_elem?-append old (replicate n 0) k,
  get_elem?-none old k,
)

pub realloc_size :
    (old : List ℕ) (n : ℕ) (block : List ℕ) → some (resize old n) ≡ some block → length block ≡ n
realloc_size old n block e = ground (arith, length-resize old n, e)

pub realloc_keeps :
    (old : List ℕ) (n : ℕ) (block : List ℕ)
    → some (resize old n) ≡ some block
    → length old ≤ n
    → take (length old) block ≡ old
realloc_keeps old n block e h = ground (arith, resize-keeps old n h, e)

pub malloc_size : (n : ℕ) (block : List ℕ) → some (replicate n 0) ≡ some block → length block ≡ n
malloc_size n block e = ground (arith, length-replicate {A = ℕ} n 0, e)

abbrev pub plenty : Heap
plenty = record {
  malloc = λ n. some (replicate n 0);
  realloc = λ old n. some (resize old n);
  malloc_size = malloc_size;
  realloc_size = realloc_size;
  realloc_keeps = realloc_keeps;
}

pub plenty-IsWilling : IsWilling plenty
plenty-IsWilling old n h = λ e. cc
