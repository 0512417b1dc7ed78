-- ===== src/Buffer/Window.antt =====
-- What a buffer holds, when it is well formed, and what the copying loop of `make_room` does.
use by_doing.Prelude.{
  ℕ, zero, suc, ◌+◌, ◌-◌, ◌≤◌, ◌<◌, ◌≡◌, refl, some, List, arith, ltb, leb, length, get_elem?, set,
  slice, if◌then◌else◌, ◌&&◌, get_elem?-set, get_elem?-some, length-set, length-slice,
}
use by_doing.Buffer.{Buffer, int_limit, move_down}

-- The indices are in order and inside the block, and the size fits an `int`.
pub record IsValid (b : Buffer) : Type 0 where
  pub block : length b.bytes ≡ b.total_size
  pub ordered : b.read_index ≤ b.write_index
  pub inside : b.write_index ≤ b.total_size
  pub fits : b.total_size < int_limit

-- The readable bytes.
abbrev pub contents : Buffer → List ℕ
contents b = slice b.bytes b.read_index (b.write_index - b.read_index)

pub length-contents : {b : Buffer} → IsValid b → length (contents b) ≡ b.write_index - b.read_index
length-contents {b} v =
    length-slice b.bytes b.read_index (b.write_index - b.read_index) (omega arith)

-- The loop with `n` rounds left at `i` has run: the places from `i` on hold the bytes `from` places
-- further on, all others are as before.
pub record Moved (n i from : ℕ) (old new : List ℕ) : Type 0 where
  pub same_size : length new ≡ length old
  pub moved :
      (k : ℕ)
      → get_elem? new k
        ≡ (if leb i k && ltb k (i + n) then get_elem? old (from + k) else get_elem? old k)

pub move_down_lem :
    (n i from : ℕ) (old : List ℕ)
    → from + i + n ≤ length old
    → (new : List ℕ) × (move_down n i from old ≡ some new) × Moved n i from old new
unfolding move_down
move_down_lem zero i from old h =
    (old, refl, record { same_size = refl; moved = λ k. ground arith })
move_down_lem (suc n) i from old h =
    let (c, e) = get_elem?-some old (from + i) (omega arith) in
    let (new, run, m) =
      move_down_lem n (i + 1) from (set old i c) (omega (arith, length-set old i c)) in
    (
      new,
      ground (arith, run, e),
      record {
        same_size = omega (arith, length-set old i c, m.same_size);
        moved = λ k.
            ground (arith, m.moved k, e, get_elem?-set old i c k, get_elem?-set old i c (from + k));
      },
    )
