-- ===== src/Read/Buffered.antt =====
-- `readline` of NetWork/lib/read.c, which receives up to 512 bytes at a time into a static buffer.
use by_doing.Prelude.{
  ℕ, zero, suc, ◌+◌, ◌-◌, ◌<◌, ◌≤◌, ◌≡◌, ◌∙◌, ap, refl, Option, none, some, List, [], ◌∷◌, ◌++◌,
  ◌==◌, if◌then◌else◌, length, take, drop, arith,
}
use by_doing.Prelude.Int.{ℤ, pos, negsuc}
use by_doing.Read.{Event, deliver, interrupted, failed, Received, gives_up, stops, min_ℕ}
use by_doing.Read.Line.{IsPlain, HasRead}

abbrev pub buffer_size : ℕ
buffer_size = 512

-- `*buffer++ = c`: the count grows where a line is returned, and a result of 0 or -1 stays.
abbrev pub count_char : ℤ → ℤ
count_char (negsuc n) = negsuc n
count_char (pos zero) = pos zero
count_char (pos (suc n)) = pos (suc (suc n))

abbrev pub put_char : ℕ → Received → Received
put_char c r = record r { result = count_char r.result; bytes = c ∷ r.bytes }

-- The loop with `n` rounds to go: `chunk` is what is left in the static buffer. The count of it, `nleft`, is
-- not static, so a call begins with none, and what a call leaves in the buffer is lost.
unfoldable pub read_chunks : List Event → List ℕ → List ℕ → ℕ → Option Received
read_chunks es chunk s zero = some (gives_up es s)
read_chunks es (c ∷ cs) s (suc n) =
    let later = read_chunks es cs s n in
    if c == 10
    then some (record { result = pos 1; bytes = 10 ∷ 0 ∷ []; events = es; stream = s })
    else elim later [ none ↦ none | some r ↦ some (put_char c r) ]
read_chunks [] [] s (suc n) = none
read_chunks (failed ∷ es) [] s (suc n) = some (gives_up es s)
read_chunks (interrupted ∷ es) [] s (suc n) = read_chunks es [] s (suc n)
read_chunks (deliver k ∷ es) [] [] (suc n) = some (stops es [])
read_chunks (deliver k ∷ es) [] (c ∷ s) (suc n) =
    let size = min_ℕ k (buffer_size - 1) in
    let later = read_chunks es (take size s) (drop size s) n in
    if c == 10
    then some (record { result = pos 1; bytes = 10 ∷ 0 ∷ []; events = es; stream = drop size s })
    else elim later [ none ↦ none | some r ↦ some (put_char c r) ]

-- `readline` for a `length` above 0.
unfoldable pub readline : List Event → List ℕ → ℕ → Option Received
unfolding read_chunks
readline es s length = read_chunks es [] s (length - 1)

put_char-HasRead :
    {line rest : List ℕ} {r : Received} (c : ℕ)
    → HasRead line rest r
    → HasRead (c ∷ line) rest (put_char c r)
put_char-HasRead c h = record {
  result = ground (arith, h.result);
  bytes = ground (arith, h.bytes);
  stream = h.stream;
}

read_chunks-HasRead :
    (es : List Event) (line rest s : List ℕ) (n : ℕ)
    → IsPlain line
    → length line < n
    → (r : Received) × (read_chunks es (line ++ (10 ∷ rest)) s n ≡ some r) × HasRead line s r
unfolding read_chunks
read_chunks-HasRead es line rest s zero plain room = absurd (omega arith)
read_chunks-HasRead es [] rest s (suc n) plain room = (
  record { result = pos 1; bytes = 10 ∷ 0 ∷ []; events = es; stream = s },
  refl,
  record { result = refl; bytes = refl; stream = refl },
)
read_chunks-HasRead es (c ∷ cs) rest s (suc n) plain room =
    let (r, run, h) = read_chunks-HasRead es cs rest s n plain.2 (omega arith) in
    (put_char c r, ground (arith, run, plain.0), put_char-HasRead c h)

take-line :
    (line rest : List ℕ) (size : ℕ)
    → length line < size
    → take size (line ++ (10 ∷ rest)) ≡ line ++ (10 ∷ take (size - suc (length line)) rest)
take-line line rest zero h = absurd (omega arith)
take-line [] rest (suc size) h =
    ap (λ n. 10 ∷ take n rest) {x = size} {y = suc size - 1} (omega arith)
take-line (c ∷ cs) rest (suc size) h =
    ap (λ l. c ∷ l) (take-line cs rest size (omega arith))
    ∙ ap (λ n. c ∷ (cs ++ (10 ∷ take n rest))) {x = size - suc (length cs)}
        {y = suc size - suc (suc (length cs))} (omega arith)

-- How much the first call receives.
abbrev received : ℕ → ℕ
received k = min_ℕ k (buffer_size - 1)

first_chunk-HasRead :
    (es : List Event) (k n : ℕ) (line rest : List ℕ)
    → IsPlain line
    → length line < suc n
    → length line ≤ received k
    → (r : Received) × (read_chunks (deliver k ∷ es) [] (line ++ (10 ∷ rest)) (suc n) ≡ some r)
      × HasRead line (drop (suc (received k)) (line ++ (10 ∷ rest))) r
unfolding read_chunks
first_chunk-HasRead es k n [] rest plain room fits = (
  record { result = pos 1; bytes = 10 ∷ 0 ∷ []; events = es; stream = drop (received k) rest },
  refl,
  record { result = refl; bytes = refl; stream = refl },
)
first_chunk-HasRead es k n (c ∷ cs) rest plain room fits =
    let size = received k in
    let tail = cs ++ (10 ∷ rest) in
    let (r, run, h) =
      read_chunks-HasRead es cs (take (size - suc (length cs)) rest) (drop size tail) n plain.2
        (omega arith) in
    let later : read_chunks es (take size tail) (drop size tail) n ≡ some r =
      ap (λ l. read_chunks es l (drop size tail) n) (take-line cs rest size (omega arith)) ∙ run in
    (put_char c r, ground (arith, later, plain.0), put_char-HasRead c h)

-- Where the first call receives a whole line, `readline` with room for it returns that line; what came with
-- it behind the line feed is gone, and no later call gets it.
pub readline-drops :
    (es : List Event) (k size : ℕ) (line rest : List ℕ)
    → IsPlain line
    → length line + 1 < size
    → length line ≤ received k
    → (r : Received) × (readline (deliver k ∷ es) (line ++ (10 ∷ rest)) size ≡ some r)
      × HasRead line (drop (suc (received k)) (line ++ (10 ∷ rest))) r
unfolding readline
readline-drops es k size line rest plain room fits =
    let (r, run, h) = first_chunk-HasRead es k (size - 2) line rest plain (omega arith) fits in
    (
      r,
      ap (read_chunks (deliver k ∷ es) [] (line ++ (10 ∷ rest))) {x = size - 1} {y = suc (size - 2)}
            (omega arith)
          ∙ run,
      h,
    )
