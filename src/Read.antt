-- ===== src/Read.antt =====
-- NetWork/lib/read.c: reading records and lines from a socket. What the socket does is given by the
-- bytes that arrive and by a schedule: for each call whether it fails, is interrupted, or how many bytes
-- it finds. Where the schedule is over the call blocks, `none`.
pub mod Collect
pub mod Line
pub mod Buffered
mod Tests
use by_doing.Prelude.{
  ℕ, zero, suc, ◌+◌, ◌-◌, ◌*◌, ◌%◌, ◌^◌, Bool, true, false, Option, none, some, List, [], ◌∷◌, ◌++◌,
  ltb, ◌==◌, if◌then◌else◌, length, take, drop,
}
use by_doing.Prelude.Int.{ℤ, pos, negsuc}

-- One call of `read` or `recv`: `deliver k` finds at most `k + 1` bytes. With no byte left in the stream
-- the other side has closed it, and the call returns 0.
pub data Event : Type 0 where
  deliver : ℕ → Event
  interrupted : Event
  failed : Event

-- The value returned, the bytes written to the caller's buffer, and what is left of schedule and stream.
pub record Received : Type 0 where
  pub result : ℤ
  pub bytes : List ℕ
  pub events : List Event
  pub stream : List ℕ

-- -1, with nothing more written.
abbrev pub gives_up : List Event → List ℕ → Received
gives_up es s = record { result = negsuc 0; bytes = []; events = es; stream = s }

abbrev pub stops : List Event → List ℕ → Received
stops es s = record { result = pos 0; bytes = []; events = es; stream = s }

abbrev pub min_ℕ : ℕ → ℕ → ℕ
min_ℕ a b = if ltb a b then a else b

abbrev pub add_count : ℕ → ℤ → ℤ
add_count k (negsuc n) = negsuc n
add_count k (pos n) = pos (k + n)

-- The bytes of this round come before those of the later ones; -1 stays the result.
abbrev pub put_before : List ℕ → Received → Received
put_before part r = record r { result = add_count (length part) r.result; bytes = part ++ r.bytes }

-- The loop of `readn`, with `length` bytes to go.
unfoldable pub read_left : List Event → List ℕ → ℕ → Option Received
read_left es s zero = some (stops es s)
read_left [] s (suc n) = none
read_left (failed ∷ es) s (suc n) = some (gives_up es s)
read_left (interrupted ∷ es) s (suc n) = read_left es s (suc n)
read_left (deliver k ∷ es) s (suc n) =
    let part = take (min_ℕ (suc k) (suc n)) s in
    let later = read_left es (drop (length part) s) (suc n - length part) in
    elim part [
      | [] ↦ some (stops es s)
      | c ∷ cs ↦ elim later [ none ↦ none | some r ↦ some (put_before (c ∷ cs) r) ]
    ]

-- `readn`: `length` is an `int` and `size` a `size_t` of 64 bits. Where `length` is negative
-- nothing is read, and the value returned is its distance from `size`.
unfoldable pub readn : List Event → List ℕ → ℕ → Option Received
unfolding read_left
readn es s size =
    let low = size % 2 ^ 32 in
    if ltb low (2 ^ 31)
    then elim (read_left es s low) [
      | none ↦ none
      | some r ↦ some (record r { result = add_count (size - low) r.result })
    ]
    else some (record (stops es s) { result = pos ((size - low + 2 ^ 32) % 2 ^ 64) })

-- `readline_2`: one byte a call, until a line feed, behind which a terminator is written. Everything but a
-- byte ends the loop.
unfoldable pub readline_2 : List Event → List ℕ → ℕ → Option Received
readline_2 es s zero = some (gives_up es s)
readline_2 [] s (suc n) = none
readline_2 (failed ∷ es) s (suc n) = some (gives_up es s)
readline_2 (interrupted ∷ es) s (suc n) = some (gives_up es s)
readline_2 (deliver k ∷ es) [] (suc n) = some (gives_up es [])
readline_2 (deliver k ∷ es) (c ∷ s) (suc n) =
    let later = readline_2 es s n in
    if c == 10
    then some (record { result = pos 1; bytes = 10 ∷ 0 ∷ []; events = es; stream = s })
    else elim later [ none ↦ none | some r ↦ some (put_before (c ∷ []) r) ]

-- Four bytes in network order, as `ntohl` reads them.
abbrev pub ntohl : List ℕ → ℕ
ntohl (a ∷ b ∷ c ∷ d ∷ _) = a * 2 ^ 24 + b * 2 ^ 16 + c * 2 ^ 8 + d
ntohl _ = 0

-- `rc < 0 ? -1 : 0`
abbrev pub short_count : ℤ → ℤ
short_count (negsuc _) = negsuc 0
short_count (pos _) = pos 0

abbrev pub has_count : ℕ → Received → Bool
has_count n r = elim r.result [ pos m ↦ m == n | negsuc _ ↦ false ]

-- A number before the record: `readn` must return its size, or `read_message` ends. It goes to a variable
-- and not to the caller's buffer.
abbrev pub read_number : List Event → List ℕ → (Received → Option Received) → Option Received
read_number es s continue = elim (readn es s 4) [
  | none ↦ none
  | some r ↦
      if has_count 4 r
      then continue r
      else some (record r { result = short_count r.result; bytes = [] })
]

abbrev pub read_record : List Event → List ℕ → ℕ → Option Received
read_record es s size = elim (readn es s size) [
  | none ↦ none
  | some r ↦ some (if has_count size r then r else record r { result = short_count r.result })
]

abbrev pub read_body : ℕ → ℕ → Received → Option Received
read_body size room r =
    if ltb room size then some (gives_up r.events r.stream) else read_record r.events r.stream size

-- `read_message` into a buffer of `room` bytes: a length, a type that is dropped, and the record.
unfoldable pub read_message : List Event → List ℕ → ℕ → Option Received
unfolding readn
read_message es s room =
    read_number es s
      λ len. read_number len.events len.stream λ type. read_body (ntohl len.bytes) room type

-- `recv` of one byte, or a look at it: the byte if there is one.
abbrev pub recv_byte : List Event → List ℕ → Option (Option ℕ × List Event × List ℕ)
recv_byte [] s = none
recv_byte (deliver k ∷ es) [] = some (none, es, [])
recv_byte (deliver k ∷ es) (c ∷ s) = some (some c, es, s)
recv_byte (interrupted ∷ es) s = some (none, es, s)
recv_byte (failed ∷ es) s = some (none, es, s)

-- The line that ends here, with the terminator.
abbrev pub line_end : List Event → List ℕ → Received
line_end es s = record { result = pos 1; bytes = 10 ∷ 0 ∷ []; events = es; stream = s }

-- After a carriage return: a line feed that follows is taken, and the line ends in either case.
abbrev pub after_return : List Event → List ℕ → Option Received
after_return es s = elim (recv_byte es s) [
  | none ↦ none
  | some (peeked, es', _) ↦ elim peeked [
    | none ↦ some (line_end es' s)
    | some d ↦
        if d == 10
        then elim (recv_byte es' s) [ none ↦ none | some (_, es'', s') ↦ some (line_end es'' s') ]
        else some (line_end es' s)
  ]
]

-- `read_line` with room for `n` more bytes besides the terminator.
unfoldable pub read_line : List Event → List ℕ → ℕ → Option Received
read_line es s zero = some (record { result = pos 0; bytes = 0 ∷ []; events = es; stream = s })
read_line es s (suc n) = elim (recv_byte es s) [
  | none ↦ none
  | some (byte, es', s') ↦
      let later = read_line es' s' n in
      elim byte [
        | none ↦ some (record { result = pos 0; bytes = 0 ∷ []; events = es'; stream = s' })
        | some c ↦
            if c == 13
            then after_return es' s'
            else if c == 10
            then some (line_end es' s')
            else elim later [ none ↦ none | some r ↦ some (put_before (c ∷ []) r) ]
      ]
]
