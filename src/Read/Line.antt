-- ===== src/Read/Line.antt =====
-- `readline_2` and `read_line`: one line from the socket.
use by_doing.Prelude.{
  ℕ, zero, suc, ◌+◌, ◌≤◌, ◌<◌, ◌≡◌, ◌≢◌, refl, some, List, [], ◌∷◌, ◌++◌, length, arith,
}
use by_doing.Prelude.Int.{pos}
use by_doing.Read.{
  Event, deliver, interrupted, failed, Received, put_before, after_return, readline_2, read_line,
}

-- A schedule of at least `n` calls that each find a byte.
unfoldable pub Delivers : ℕ → List Event → Type 0
Delivers zero es = Unit
Delivers (suc n) [] = 1 ≤ 0
Delivers (suc n) (deliver k ∷ es) = Delivers n es
Delivers (suc n) (interrupted ∷ es) = 1 ≤ 0
Delivers (suc n) (failed ∷ es) = 1 ≤ 0

-- No byte of the line ends a line.
abbrev pub IsPlain : List ℕ → Type 0
IsPlain [] = Unit
IsPlain (c ∷ cs) = (c ≢ 10) × (c ≢ 13) × IsPlain cs

-- The line, a line feed and the terminator have been written, and `rest` is left.
pub record HasRead (line rest : List ℕ) (r : Received) : Type 0 where
  pub result : r.result ≡ pos (length line + 1)
  pub bytes : r.bytes ≡ line ++ (10 ∷ 0 ∷ [])
  pub stream : r.stream ≡ rest

put_before-HasRead :
    {line rest : List ℕ} {r : Received} (c : ℕ)
    → HasRead line rest r
    → HasRead (c ∷ line) rest (put_before (c ∷ []) r)
put_before-HasRead c h = record {
  result = ground (arith, h.result);
  bytes = ground (arith, h.bytes);
  stream = h.stream;
}

-- From a socket that delivers, `readline_2` with room for the line and its line feed reads exactly the
-- line. It writes one byte more than that, which is one more than `size` where the line just fits.
pub readline_2_lem :
    (es : List Event) (line rest : List ℕ) (size : ℕ)
    → Delivers (suc (length line)) es
    → IsPlain line
    → length line < size
    → (r : Received) × (readline_2 es (line ++ (10 ∷ rest)) size ≡ some r) × HasRead line rest r
unfolding readline_2 Delivers
readline_2_lem es line rest zero d plain room = absurd (omega arith)
readline_2_lem [] [] rest (suc size) d plain room = absurd (omega arith)
readline_2_lem (deliver k ∷ es) [] rest (suc size) d plain room = (
  record { result = pos 1; bytes = 10 ∷ 0 ∷ []; events = es; stream = rest },
  refl,
  record { result = refl; bytes = refl; stream = refl },
)
readline_2_lem (interrupted ∷ es) [] rest (suc size) d plain room = absurd (omega arith)
readline_2_lem (failed ∷ es) [] rest (suc size) d plain room = absurd (omega arith)
readline_2_lem (deliver k ∷ es) (c ∷ cs) rest (suc size) d plain room =
    let (r, run, h) = readline_2_lem es cs rest size d plain.2 (omega arith) in
    (put_before (c ∷ []) r, ground (arith, run, plain.0), put_before-HasRead c h)
readline_2_lem [] (c ∷ cs) rest (suc size) d plain room = absurd (omega arith)
readline_2_lem (interrupted ∷ es) (c ∷ cs) rest (suc size) d plain room = absurd (omega arith)
readline_2_lem (failed ∷ es) (c ∷ cs) rest (suc size) d plain room = absurd (omega arith)

-- How a line may end.
pub data Ending : Type 0 where
  line_feed carriage_return_line_feed : Ending

abbrev pub ending_bytes : Ending → List ℕ
ending_bytes line_feed = 10 ∷ []
ending_bytes carriage_return_line_feed = 13 ∷ 10 ∷ []

after_return_lem :
    (es : List Event) (rest : List ℕ)
    → Delivers 2 es
    → (r : Received) × (after_return es (10 ∷ rest) ≡ some r) × HasRead [] rest r
unfolding Delivers
after_return_lem (deliver j ∷ deliver i ∷ es) rest d = (
  record { result = pos 1; bytes = 10 ∷ 0 ∷ []; events = es; stream = rest },
  refl,
  record { result = refl; bytes = refl; stream = refl },
)
after_return_lem [] rest d = elim d [ ]
after_return_lem (deliver j ∷ []) rest d = elim d [ ]
after_return_lem (deliver j ∷ interrupted ∷ es) rest d = elim d [ ]
after_return_lem (deliver j ∷ failed ∷ es) rest d = elim d [ ]
after_return_lem (interrupted ∷ es) rest d = elim d [ ]
after_return_lem (failed ∷ es) rest d = elim d [ ]

-- From a socket that delivers, `read_line` with room for the line, a line feed and the terminator reads
-- the line up to either ending, and has one line feed for both.
pub read_line_lem :
    (end : Ending) (es : List Event) (line rest : List ℕ) (room : ℕ)
    → Delivers (suc (suc (suc (length line)))) es
    → IsPlain line
    → length line < room
    → (r : Received) × (read_line es (line ++ (ending_bytes end ++ rest)) room ≡ some r)
      × HasRead line rest r
unfolding read_line Delivers
read_line_lem end es line rest zero d plain room = absurd (omega arith)
read_line_lem line_feed (deliver k ∷ es) [] rest (suc size) d plain room = (
  record { result = pos 1; bytes = 10 ∷ 0 ∷ []; events = es; stream = rest },
  refl,
  record { result = refl; bytes = refl; stream = refl },
)
read_line_lem carriage_return_line_feed (deliver k ∷ es) [] rest (suc size) d plain room =
    after_return_lem es rest d
read_line_lem end (deliver k ∷ es) (c ∷ cs) rest (suc size) d plain room =
    let (r, run, h) = read_line_lem end es cs rest size d plain.2 (omega arith) in
    (put_before (c ∷ []) r, ground (arith, run, plain.0, plain.1), put_before-HasRead c h)
read_line_lem end [] line rest (suc size) d plain room = absurd (omega arith)
read_line_lem end (interrupted ∷ es) line rest (suc size) d plain room = absurd (omega arith)
read_line_lem end (failed ∷ es) line rest (suc size) d plain room = absurd (omega arith)
