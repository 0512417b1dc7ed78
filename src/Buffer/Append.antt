-- ===== src/Buffer/Append.antt =====
-- `buffer_append`, `buffer_append_char` and `buffer_append_string` of NetWork/lib/buffer.c.
use by_doing.Prelude.{
  ℕ, ◌+◌, ◌-◌, ◌≤◌, ◌<◌, ◌≡◌, ◌⊎◌, ◌≢◌, inl, inr, Option, none, some, List, [], ◌∷◌, ◌++◌, arith,
  length, get_elem?, splice, get_elem?-slice, get_elem?-splice, get_elem?-append, get_elem?-none,
  list_ext, length-splice, ap,
}
use by_doing.Buffer.{
  Heap, Buffer, int_limit, make_room, put_bytes, append, append_char, append_string, c_string,
}
use by_doing.Buffer.Window.{IsValid, contents, length-contents}
use by_doing.Buffer.Room.{make_room_lem}

-- A well-formed buffer that holds `src` behind what `b` holds.
pub record Appended (b : Buffer) (src : List ℕ) (b' : Buffer) : Type 0 where
  pub valid : IsValid b'
  pub same : contents b' ≡ contents b ++ src
  pub growth : b'.total_size ≤ b.total_size + length src

abbrev pub written : List ℕ → Buffer → Buffer
written src b = record b {
  bytes = splice b.bytes b.write_index src;
  write_index = b.write_index + length src;
}

pub put_bytes_lem :
    {b : Buffer} (src : List ℕ)
    → IsValid b
    → b.write_index + length src ≤ b.total_size
    → (put_bytes src b ≡ some (written src b))
      × IsValid (written src b)
      × (contents (written src b) ≡ contents b ++ src)
put_bytes_lem {b} src v room = (
  ground arith,
  omega (arith, length-splice b.bytes b.write_index src),
  list_ext _ _ λ k. ground (
    arith,
    get_elem?-slice (splice b.bytes b.write_index src) b.read_index
        (b.write_index + length src - b.read_index) k,
    get_elem?-splice b.bytes b.write_index src (b.read_index + k),
    get_elem?-append (contents b) src k,
    get_elem?-slice b.bytes b.read_index (b.write_index - b.read_index) k,
    length-contents v,
    get_elem?-none src (k - (b.write_index - b.read_index)),
    ap (get_elem? src) {x = b.read_index + k - b.write_index}
        {y = k - (b.write_index - b.read_index)},
  ),
)

-- `realloc` was asked for a larger block and failed, and the bytes do not fit.
pub record Overflows (heap : Heap) (b : Buffer) (size : ℕ) : Type 0 where
  pub refused : heap.realloc b.bytes (b.total_size + size) ≡ none
  pub short : b.total_size + b.read_index < b.write_index + size

put_bytes-overflow :
    (b : Buffer) (src : List ℕ)
    → IsValid b
    → b.total_size < b.write_index + length src
    → put_bytes src b ≡ none
put_bytes-overflow b src v h = ground arith

-- What a call that adds `src` to `b` returns.
abbrev pub Adds : Heap → Buffer → List ℕ → Option Buffer → Type 0
Adds heap b src result =
    ((b' : Buffer) × (result ≡ some b') × Appended b src b')
    ⊎ (Overflows heap b (length src) × (result ≡ none))

-- The two steps that the appending calls share.
make_room_put :
    (heap : Heap) (b : Buffer) (src : List ℕ)
    → IsValid b
    → b.total_size + length src < int_limit
    → Adds heap b src
        (elim (make_room heap b (length src)) [ none ↦ none | some b' ↦ put_bytes src b' ])
make_room_put heap b src v fits =
    let (b', run, r) = make_room_lem heap b (length src) v fits in
    rw run (elim r.room [
      | inl room ↦
          let (put, valid, same) = put_bytes_lem src r.keeps.valid room in
          inl (
            written src b',
            put,
            record { valid = valid; same = rw (← r.keeps.same) same; growth = r.growth },
          )
      | inr m ↦ inr (
        record { refused = m.refused; short = m.short },
        put_bytes-overflow b' src r.keeps.valid (ground (arith, m.unchanged, m.short)),
      )
    ])

-- Appending `src` to a well-formed buffer either adds exactly these bytes behind the readable ones
-- and keeps the buffer well formed, or `realloc` fails with too little room left, and then the
-- `memcpy` is out of bounds.
pub append-Adds :
    (heap : Heap) (b : Buffer) (src : List ℕ)
    → IsValid b
    → b.total_size + length src < int_limit
    → Adds heap b src (append heap b (some src))
unfolding append
append-Adds heap b src v fits = make_room_put heap b src v fits

-- The same of one character.
pub append_char-Adds :
    (heap : Heap) (b : Buffer) (c : ℕ)
    → IsValid b
    → b.total_size + 1 < int_limit
    → Adds heap b (c ∷ []) (append_char heap b c)
unfolding append_char
append_char-Adds heap b c v fits = make_room_put heap b (c ∷ []) v fits

-- `buffer_append_string` adds the bytes of the string before its terminator.
pub append_string-Adds :
    (heap : Heap) (b : Buffer) (text : List ℕ)
    → IsValid b
    → b.total_size + length (c_string text) < int_limit
    → Adds heap b (c_string text) (append_string heap b (some text))
unfolding append_string
append_string-Adds heap b text v fits = append-Adds heap b (c_string text) v fits

-- An allocator that never refuses a block whose size fits an `int`.
abbrev pub IsWilling : Heap → Type 0
IsWilling heap = (old : List ℕ) (n : ℕ) → n < int_limit → heap.realloc old n ≢ none

pub Adds-willing :
    {heap : Heap} {b : Buffer} {src : List ℕ} {result : Option Buffer}
    → IsWilling heap
    → b.total_size + length src < int_limit
    → Adds heap b src result
    → (b' : Buffer) × (result ≡ some b') × Appended b src b'
Adds-willing w fits (inl done) = done
Adds-willing w fits (inr (o, _)) = absurd (w _ _ fits o.refused)
