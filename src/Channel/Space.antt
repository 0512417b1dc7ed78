-- ===== src/Channel/Space.antt =====
-- `map_make_space` of NetWork/lib/channel_map.c.
use by_doing.Prelude.{
  ℕ, zero, suc, ◌+◌, ◌-◌, ◌*◌, ◌^◌, ◌≤◌, ◌<◌, ◌≡◌, refl, ◌⊎◌, inl, inr, Bool, false, Option, none,
  some, List, ◌++◌, arith, length, get_elem?, replicate, dec_lt, Bool-cases, length-append,
  length-replicate, ◌==◌, if◌then◌else◌, get_elem?-append, get_elem?-none,
}
use by_doing.Prelude.Int.{ℤ, pos, negsuc}
use by_doing.Buffer.{int_limit}
use by_doing.Channel.{ChannelMap, double_until, make_space, resized}

-- The channel of a descriptor, `none` also beyond the table.
abbrev pub entry_of : List (Option ℕ) → ℕ → Option ℕ
entry_of es k = elim (get_elem? es k) [ none ↦ none | some o ↦ o ]

abbrev pub IsWellFormed : ChannelMap → Type 0
IsWellFormed m = length m.entries ≡ m.nentries

-- The loop ends, at the first doubling above `slot`.
pub double_until_lem :
    (fuel n slot : ℕ)
    → 0 < n
    → slot + 1 < n + fuel
    → 0 < fuel
    → slot * 2 < int_limit
    → (d : ℕ) × (double_until fuel n slot ≡ some d)
      × (slot < d)
      × (n ≤ d)
      × ((d ≡ n) ⊎ (d ≤ slot * 2))
unfolding double_until
double_until_lem zero n slot p h f s = absurd (omega arith)
double_until_lem (suc fuel) n slot p h f s = elim (dec_lt slot n) [
  | yes done ↦ (n, ground arith, done, omega arith, inl refl)
  | no more ↦
      let (d, run, above, grown, small) =
        double_until_lem fuel (n * 2) slot (omega arith) (omega arith) (omega arith) s in
      (d, ground (arith, run), above, omega arith, inr (omega arith))
]

get_elem?-replicate : (n : ℕ) (k : ℕ) → entry_of (replicate n none) k ≡ none
get_elem?-replicate zero k = refl
get_elem?-replicate (suc n) zero = refl
get_elem?-replicate (suc n) (suc k) = get_elem?-replicate n k

entry_of-append :
    (es : List (Option ℕ)) (n k : ℕ) → entry_of (es ++ replicate n none) k ≡ entry_of es k
entry_of-append es n k = ground (
  arith,
  get_elem?-append es (replicate n none) k,
  get_elem?-replicate n (k - length es),
  get_elem?-none es k,
)

-- What a call for `slot` leaves.
pub record HasSpace (available : ℕ → Bool) (m : ChannelMap) (slot : ℕ) (r : ℤ) (m' : ChannelMap)
    : Type 0 where
  pub well_formed : IsWellFormed m'
  pub same : (k : ℕ) → entry_of m'.entries k ≡ entry_of m.entries k
  pub grown : m.nentries ≤ m'.nentries
  pub small : (m'.nentries ≡ m.nentries) ⊎ (m'.nentries < 2 ^ 28)
  pub outcome :
      ((r ≡ pos 0) × (slot < m'.nentries))
      ⊎ ((r ≡ negsuc 0) × (m' ≡ m) × (bytes : ℕ) × (available bytes ≡ false))

resized_lem :
    (available : ℕ → Bool) (m : ChannelMap) (n slot : ℕ)
    → IsWellFormed m
    → m.nentries ≤ n
    → slot < n
    → n < 2 ^ 28
    → (r : ℤ) × (m' : ChannelMap) × (resized available m n 8 ≡ some (r, m'))
      × HasSpace available m slot r m'
resized_lem available m n slot w ge room small = elim (Bool-cases (available (n * 8))) [
  | inl got ↦
      let rest = replicate {A = Option ℕ} (n - m.nentries) none in
      (
        pos 0,
        record { entries = m.entries ++ rest; nentries = n },
        ground (arith, got),
        record {
          well_formed = omega (
            arith,
            length-append m.entries rest,
            length-replicate {A = Option ℕ} (n - m.nentries) none,
          );
          same = entry_of-append m.entries (n - m.nentries);
          grown = ge;
          small = inr small;
          outcome = inl (refl, room);
        },
      )
  | inr failed ↦ (
    negsuc 0,
    m,
    ground (arith, failed),
    record {
      well_formed = w;
      same = λ k. refl;
      grown = omega arith;
      small = inl refl;
      outcome = inr (refl, refl, n * 8, failed);
    },
  )
]

-- For a descriptor below 2 ^ 27 and pointers of 8 bytes `map_make_space` does not overflow. It keeps the
-- channel of every descriptor, and on 0 the descriptor is inside the table, which is not smaller than
-- before; on -1, which only a failed `realloc` gives, nothing has changed.
pub make_space_lem :
    (available : ℕ → Bool) (m : ChannelMap) (slot : ℕ)
    → IsWellFormed m
    → slot < 2 ^ 27
    → (r : ℤ) × (m' : ChannelMap) × (make_space available m slot 8 ≡ some (r, m'))
      × HasSpace available m slot r m'
unfolding make_space
make_space_lem available m slot w h = elim (dec_lt slot m.nentries) [
  | yes inside ↦ (
    pos 0,
    m,
    ground arith,
    record {
      well_formed = w;
      same = λ k. refl;
      grown = omega arith;
      small = inl refl;
      outcome = inl (refl, inside);
    },
  )
  | no outside ↦
      let start : ℕ = if m.nentries == 0 then 32 else m.nentries in
      let (d, run, above, more, size) =
        double_until_lem (suc slot) start slot (ground arith) (ground arith) (omega arith)
          (omega arith) in
      let (r, m', go, s) =
        resized_lem available m d slot w (ground (arith, more)) above (ground (arith, size)) in
      (r, m', ground (arith, run, go), s)
]
