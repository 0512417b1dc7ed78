-- ===== src/Buffer.antt =====
-- NetWork/lib/buffer.c and buffer.h: the growing byte buffer of a connection.
-- `struct buffer` is a record. The block that `data` points to is the list of its bytes, and an
-- access outside it is a fault, `none`. `malloc` and `realloc` are the parameter `Heap`, `readv`
-- is the argument `received` of `socket_read`.
pub mod Window
pub mod Room
pub mod Append
pub mod Read
pub mod Find
pub mod Queue
pub mod Plenty
mod Tests
use by_doing.Prelude.{
  ℕ, zero, suc, ◌+◌, ◌-◌, ◌*◌, ◌^◌, ◌≤◌, ◌≡◌, Option, none, some, List, [], ◌∷◌, ltb, leb, length,
  get_elem?, set, take, drop, splice, slice, if◌then◌else◌, ◌==◌, ◌&&◌, Bool, true, false,
}
use by_doing.Prelude.Int.{ℤ, pos, negsuc, sub_ℕ, leb_ℤ, ◌+ℤ◌}

abbrev pub init_buffer_size : ℕ
init_buffer_size = 65536

-- One more than the largest `int`.
abbrev pub int_limit : ℕ
int_limit = 2 ^ 31

-- What the code relies on of the C library's allocator: a block of the size that was asked for, or
-- none; a block that has been resized begins with the bytes that it held.
pub record Heap : Type 0 where
  pub malloc : ℕ → Option (List ℕ)
  pub realloc : List ℕ → ℕ → Option (List ℕ)
  pub malloc_size : (n : ℕ) (block : List ℕ) → malloc n ≡ some block → length block ≡ n
  pub realloc_size :
      (old : List ℕ) (n : ℕ) (block : List ℕ) → realloc old n ≡ some block → length block ≡ n
  pub realloc_keeps :
      (old : List ℕ) (n : ℕ) (block : List ℕ)
      → realloc old n ≡ some block
      → length old ≤ n
      → take (length old) block ≡ old

pub record Buffer : Type 0 where
  pub bytes : List ℕ
  pub total_size : ℕ
  pub read_index : ℕ
  pub write_index : ℕ

-- `memcpy(block + at, src, length src)`.
abbrev pub memcpy : List ℕ → ℕ → List ℕ → Option (List ℕ)
memcpy block at src =
    if leb (at + length src) (length block) then some (splice block at src) else none

-- The second `malloc` is not checked: where it fails the buffer has a null block of no bytes.
abbrev pub fresh_block : Option (List ℕ) → Buffer
fresh_block none = record {
  bytes = [];
  total_size = init_buffer_size;
  read_index = 0;
  write_index = 0;
}
fresh_block (some block) = record {
  bytes = block;
  total_size = init_buffer_size;
  read_index = 0;
  write_index = 0;
}

-- `have_struct` says whether the `malloc` of the struct itself succeeds.
unfoldable pub new : Heap → Bool → Option Buffer
new heap have_struct =
    if have_struct then some (fresh_block (heap.malloc init_buffer_size)) else none

abbrev pub writeable_size : Buffer → ℤ
writeable_size b = sub_ℕ b.total_size b.write_index

abbrev pub readable_size : Buffer → ℤ
readable_size b = sub_ℕ b.write_index b.read_index

abbrev pub front_spare_size : Buffer → ℕ
front_spare_size b = b.read_index

-- The copying loop of `make_room`: `n` rounds are left, the next one copies byte `from + i` to `i`.
unfoldable pub move_down : ℕ → ℕ → ℕ → List ℕ → Option (List ℕ)
move_down zero i from block = some block
move_down (suc n) i from block = elim (get_elem? block (from + i)) [
  | none ↦ none
  | some c ↦ move_down n (i + 1) from (set block i c)
]

-- The readable bytes move to the front. With a negative number of readable bytes the loop does
-- nothing and `writeIndex` turns negative, so that every write of the callers is out of bounds:
-- this is counted as a fault here.
unfoldable pub compact : ℤ → Buffer → Option Buffer
unfolding move_down
compact (negsuc _) b = none
compact (pos readable) b = elim (move_down readable 0 b.read_index b.bytes) [
  | none ↦ none
  | some block ↦ some (record b { bytes = block; read_index = 0; write_index = readable })
]

-- The block grows by `size`; a failed `realloc` leaves the buffer as it is. The sum is an `int`, and
-- its overflow is undefined.
unfoldable pub grow : Heap → Buffer → ℕ → Option Buffer
grow heap b size =
    if ltb (b.total_size + size) int_limit
    then elim (heap.realloc b.bytes (b.total_size + size)) [
      | none ↦ some b
      | some block ↦ some (record b { bytes = block; total_size = b.total_size + size })
    ]
    else none

unfoldable pub make_room : Heap → Buffer → ℕ → Option Buffer
unfolding compact grow ◌+ℤ◌
make_room heap b size =
    if leb_ℤ (pos size) (writeable_size b)
    then some b
    else if leb_ℤ (pos size) (pos (front_spare_size b) +ℤ writeable_size b)
    then compact (readable_size b) b
    else grow heap b size

abbrev pub put_bytes : List ℕ → Buffer → Option Buffer
put_bytes src b = elim (memcpy b.bytes b.write_index src) [
  | none ↦ none
  | some block ↦ some (record b { bytes = block; write_index = b.write_index + length src })
]

-- `src` is `none` for a null pointer, for which nothing happens.
unfoldable pub append : Heap → Buffer → Option (List ℕ) → Option Buffer
unfolding make_room
append heap b none = some b
append heap b (some src) = elim (make_room heap b (length src)) [
  | none ↦ none
  | some b' ↦ put_bytes src b'
]

unfoldable pub append_char : Heap → Buffer → ℕ → Option Buffer
unfolding make_room
append_char heap b c = elim (make_room heap b 1) [ none ↦ none | some b' ↦ put_bytes (c ∷ []) b' ]

-- A C string in memory: its bytes up to the first 0.
unfoldable pub c_string : List ℕ → List ℕ
c_string [] = []
c_string (c ∷ cs) = let rest = c_string cs in if c == 0 then [] else c ∷ rest

unfoldable pub append_string : Heap → Buffer → Option (List ℕ) → Option Buffer
unfolding append c_string
append_string heap b none = some b
append_string heap b (some text) = append heap b (some (c_string text))

-- `received` is what `readv` got, `none` if it failed. The first `max_writable` bytes are in the
-- block, the others in `additional_buffer`.
abbrev pub scatter : Heap → Buffer → ℕ → List ℕ → Option (ℤ × Buffer)
scatter heap b max_writable input =
    if leb (length input) max_writable
    then elim (memcpy b.bytes b.write_index input) [
      | none ↦ none
      | some block ↦ some (
        pos (length input),
        record b { bytes = block; write_index = b.write_index + length input },
      )
    ]
    else elim (memcpy b.bytes b.write_index (take max_writable input)) [
      | none ↦ none
      | some block ↦
          elim (append heap (record b { bytes = block; write_index = b.total_size })
            (some (drop max_writable input))) [
              | none ↦ none
              | some b' ↦ some (pos (length input), b')
            ]
    ]

unfoldable pub socket_read : Heap → Buffer → Option (List ℕ) → Option (ℤ × Buffer)
unfolding append
socket_read heap b none = some (negsuc 0, b)
socket_read heap b (some input) = elim (writeable_size b) [
  | pos max_writable ↦ scatter heap b max_writable input
  | negsuc _ ↦ none
]

unfoldable pub read_char : Buffer → Option (ℕ × Buffer)
read_char b = elim (get_elem? b.bytes b.read_index) [
  | none ↦ none
  | some c ↦ some (c, record b { read_index = b.read_index + 1 })
]

-- `memmem(..., "\r\n", 2)`: the distance to the first CRLF in some bytes.
unfoldable pub crlf_distance : List ℕ → Option ℕ
crlf_distance [] = none
crlf_distance (c ∷ []) = none
crlf_distance (c ∷ d ∷ cs) =
    let rest = crlf_distance (d ∷ cs) in
    if c == 13 && d == 10 then some 0 else elim rest [ none ↦ none | some n ↦ some (suc n) ]

-- The pointer is returned as its distance from the first readable byte.
unfoldable pub find_crlf : Buffer → Option ℕ
unfolding crlf_distance
find_crlf b = elim (readable_size b) [
  | pos n ↦ crlf_distance (slice b.bytes b.read_index n)
  | negsuc _ ↦ none
]
