-- ===== src/Buffer/Room.antt =====
-- `make_room` of NetWork/lib/buffer.c.
use by_doing.Prelude.{
  ℕ, ◌+◌, ◌-◌, ◌≤◌, ◌<◌, ◌≡◌, refl, ◌⊎◌, inl, inr, none, some, List, arith, length, get_elem?, take,
  dec_lt, get_elem?-slice, get_elem?-take, list_ext, Option-cases,
}
use by_doing.Buffer.{Heap, Buffer, int_limit, compact, grow, make_room, readable_size}
use by_doing.Buffer.Window.{IsValid, contents, move_down_lem}

-- A well-formed buffer with the bytes that `b` holds.
pub record Keeps (b b' : Buffer) : Type 0 where
  pub valid : IsValid b'
  pub same : contents b' ≡ contents b

abbrev compacted : Buffer → List ℕ → Buffer
compacted b block = record b {
  bytes = block;
  read_index = 0;
  write_index = b.write_index - b.read_index;
}

compact_lem :
    {b : Buffer}
    → IsValid b
    → (block : List ℕ) × (compact (readable_size b) b ≡ some (compacted b block))
      × Keeps b (compacted b block)
unfolding compact
compact_lem {b} v =
    let n = b.write_index - b.read_index in
    let (block, run, m) = move_down_lem n 0 b.read_index b.bytes (omega arith) in
    (
      block,
      ground (arith, run),
      record {
        valid = omega (arith, m.same_size);
        same = list_ext _ _ λ k. ground (
          arith,
          get_elem?-slice block 0 n k,
          get_elem?-slice b.bytes b.read_index n k,
          m.moved k,
        );
      },
    )

-- A block that begins with the old one holds the same bytes between the indices.
grown-Keeps :
    {b : Buffer} (size : ℕ) (block : List ℕ)
    → IsValid b
    → b.total_size + size < int_limit
    → length block ≡ b.total_size + size
    → take (length b.bytes) block ≡ b.bytes
    → Keeps b (record b { bytes = block; total_size = b.total_size + size })
grown-Keeps {b} size block v fits len same = record {
  valid = omega arith;
  same =
      let n = b.write_index - b.read_index in
      list_ext _ _ λ k. ground (
        arith,
        get_elem?-slice block b.read_index n k,
        get_elem?-slice b.bytes b.read_index n k,
        get_elem?-take (length b.bytes) block (b.read_index + k),
        ap_get same (b.read_index + k),
      );
}
  where
    ap_get : {xs ys : List ℕ} → xs ≡ ys → (k : ℕ) → get_elem? xs k ≡ get_elem? ys k
    ap_get p k = cc

-- `realloc` was asked, and failed; nothing has changed and the room does not suffice.
pub record NoMemory (heap : Heap) (b : Buffer) (size : ℕ) (b' : Buffer) : Type 0 where
  pub refused : heap.realloc b.bytes (b.total_size + size) ≡ none
  pub unchanged : b' ≡ b
  pub short : b.total_size + b.read_index < b.write_index + size

-- What `make_room` leaves.
pub record Roomy (heap : Heap) (b : Buffer) (size : ℕ) (b' : Buffer) : Type 0 where
  pub keeps : Keeps b b'
  pub growth : b'.total_size ≤ b.total_size + size
  pub room : (b'.write_index + size ≤ b'.total_size) ⊎ NoMemory heap b size b'

grow_lem :
    (heap : Heap) (b : Buffer) (size : ℕ)
    → IsValid b
    → b.total_size + size < int_limit
    → b.total_size + b.read_index < b.write_index + size
    → (b' : Buffer) × (grow heap b size ≡ some b') × Roomy heap b size b'
unfolding grow
grow_lem heap b size v fits short =
    elim (Option-cases (heap.realloc b.bytes (b.total_size + size))) [
      | inl e ↦ (
        b,
        ground (arith, e),
        record {
          keeps = record { valid = v; same = refl };
          growth = omega arith;
          room = inr (record { refused = e; unchanged = refl; short = short });
        },
      )
      | inr (block, e) ↦ (
        record b { bytes = block; total_size = b.total_size + size },
        ground (arith, e),
        record {
          keeps =
              grown-Keeps size block v fits (heap.realloc_size b.bytes _ block e)
                (heap.realloc_keeps b.bytes _ block e (omega arith));
          growth = omega arith;
          room = inl (omega arith);
        },
      )
    ]

-- On a well-formed buffer, and as long as the new size fits an `int`, `make_room` ends without a
-- fault, leaves the readable bytes as they are in a well-formed buffer, and leaves room for `size`
-- bytes; only where `realloc` fails is the buffer unchanged and the room too small.
pub make_room_lem :
    (heap : Heap) (b : Buffer) (size : ℕ)
    → IsValid b
    → b.total_size + size < int_limit
    → (b' : Buffer) × (make_room heap b size ≡ some b') × Roomy heap b size b'
unfolding make_room
make_room_lem heap b size v fits = elim (dec_lt (b.total_size) (b.write_index + size)) [
  | no enough ↦ (
    b,
    ground arith,
    record {
      keeps = record { valid = v; same = refl };
      growth = omega arith;
      room = inl (omega arith);
    },
  )
  | yes tight ↦ elim (dec_lt (b.total_size + b.read_index) (b.write_index + size)) [
    | no spare ↦
        let (block, run, k) = compact_lem v in
        (
          compacted b block,
          ground (arith, run),
          record { keeps = k; growth = omega arith; room = inl (omega arith) },
        )
    | yes short ↦
        let (b', run, r) = grow_lem heap b size v fits short in (b', ground (arith, run), r)
  ]
]
