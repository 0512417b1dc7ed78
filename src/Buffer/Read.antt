-- ===== src/Buffer/Read.antt =====
-- `buffer_socket_read` and `buffer_read_char`: the bytes that come in and go out.
use mathlib.Core.List.{append_assoc}
use mathlib.Core.Path.{subst}
use by_doing.Prelude.{
  ℕ, zero, suc, ◌+◌, ◌-◌, ◌<◌, ◌≡◌, refl, sym, ◌∙◌, none, some, List, ◌∷◌, ◌++◌, arith, length,
  get_elem?, take, drop, slice, get_elem?-slice, get_elem?-some, list_ext, dec_lt, ap, length-take,
  length-drop, take-append-drop,
}
use by_doing.Prelude.Int.{pos, negsuc}
use by_doing.Buffer.{Heap, Buffer, int_limit, socket_read, read_char, scatter}
use by_doing.Buffer.Window.{IsValid, contents}
use by_doing.Buffer.Append.{Appended, written, put_bytes_lem, append-Adds, IsWilling, Adds-willing}

-- The first part fills the block, and the call of `buffer_append` adds the rest.
scatter-more :
    (heap : Heap) (b : Buffer) (room : ℕ) (input : List ℕ)
    → IsWilling heap
    → IsValid b
    → b.write_index + room ≡ b.total_size
    → room < length input
    → b.total_size + length input < int_limit
    → (b' : Buffer) × (scatter heap b room input ≡ some (pos (length input), b'))
      × Appended b input b'
scatter-more heap b room input w v full more fits =
    let now = take room input in
    let rest = drop room input in
    let len : length now ≡ room = omega (arith, length-take room input) in
    let left : length rest ≡ length input - room = length-drop room input in
    let (put, valid, same) = put_bytes_lem now v (omega arith) in
    let mid = record (written now b) { write_index = b.total_size } in
    let at_end : written now b ≡ mid = ground (arith, len) in
    let mid_valid = subst IsValid at_end valid in
    let small : b.total_size + length rest < int_limit = omega arith in
    let (b', run, a) = Adds-willing w small (append-Adds heap mid rest mid_valid small) in
    (
      b',
      ground (arith, put, run, len),
      record {
        valid = a.valid;
        same =
            a.same
            ∙ ap (λ x. contents x ++ rest) (sym at_end)
            ∙ ap (λ x. x ++ rest) same
            ∙ append_assoc (contents b) now rest
            ∙ ap (λ x. contents b ++ x) (take-append-drop room input);
        growth = omega (arith, a.growth);
      },
    )

-- With an allocator that does not refuse, on a well-formed buffer and as long as all sizes fit an
-- `int`, `buffer_socket_read` returns the number of bytes that `readv` got, and puts exactly these
-- bytes behind the readable ones, also where they do not fit into the block.
pub socket_read-Appended :
    (heap : Heap) (b : Buffer) (input : List ℕ)
    → IsWilling heap
    → IsValid b
    → b.total_size + length input < int_limit
    → (b' : Buffer) × (socket_read heap b (some input) ≡ some (pos (length input), b'))
      × Appended b input b'
unfolding socket_read
socket_read-Appended heap b input w v fits =
    let room = b.total_size - b.write_index in
    elim (dec_lt room (length input)) [
      | yes more ↦
          let (b', run, a) = scatter-more heap b room input w v (omega arith) more fits in
          (b', ground (arith, run), a)
      | no all ↦
          let (put, valid, same) = put_bytes_lem input v (omega arith) in
          (
            written input b,
            ground (arith, put),
            record { valid = valid; same = same; growth = omega arith },
          )
    ]

slice-suc :
    (xs : List ℕ) (i n : ℕ) {c : ℕ}
    → get_elem? xs i ≡ some c
    → slice xs i (suc n) ≡ c ∷ slice xs (i + 1) n
slice-suc xs i n {c} e = list_ext _ _ (places)
  where
    places : (k : ℕ) → get_elem? (slice xs i (suc n)) k ≡ get_elem? (c ∷ slice xs (i + 1) n) k
    places zero = ground (
      arith,
      get_elem?-slice xs i (suc n) zero,
      ap (get_elem? xs) {x = i + 0} {y = i} (omega arith),
      e,
    )
    places (suc k) = ground (
      arith,
      get_elem?-slice xs i (suc n) (suc k),
      get_elem?-slice xs (i + 1) n k,
      ap (get_elem? xs) {x = i + suc k} {y = i + 1 + k} (omega arith),
    )

-- On a well-formed buffer with something to read, `buffer_read_char` returns the first readable byte
-- and leaves the others.
pub read_char_lem :
    {b : Buffer}
    → IsValid b
    → b.read_index < b.write_index
    → (c : ℕ) × (read_char b ≡ some (c, record b { read_index = b.read_index + 1 }))
      × IsValid (record b { read_index = b.read_index + 1 })
      × (contents b ≡ c ∷ contents (record b { read_index = b.read_index + 1 }))
unfolding read_char
read_char_lem {b} v h =
    let (c, e) = get_elem?-some b.bytes b.read_index (omega arith) in
    let left = b.write_index - (b.read_index + 1) in
    (
      c,
      ground (arith, e),
      omega arith,
      ap (slice b.bytes b.read_index) {x = b.write_index - b.read_index} {y = suc left}
            (omega arith)
          ∙ slice-suc b.bytes b.read_index left e,
    )

pub socket_read-failed : (heap : Heap) (b : Buffer) → socket_read heap b none ≡ some (negsuc 0, b)
unfolding socket_read
socket_read-failed heap b = refl
