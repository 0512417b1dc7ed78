-- ===== src/Buffer/Queue.antt =====
-- The calls of NetWork/lib/buffer.c in sequence, and a queue of bytes as what they stand for.
use by_doing.Prelude.{
  ℕ, ◌+◌, ◌≤◌, ◌<◌, ◌≡◌, ◌∙◌, inl, inr, Option-cases, Option, none, some, List, [], ◌∷◌, ◌++◌,
  arith, length, dec_lt,
}
use by_doing.Buffer.{
  Heap, Buffer, int_limit, append, append_char, append_string, socket_read, read_char, c_string,
}
use by_doing.Buffer.Window.{IsValid, contents, length-contents}
use by_doing.Buffer.Append.{
  Appended, append-Adds, append_char-Adds, append_string-Adds, IsWilling, Adds-willing,
}
use by_doing.Buffer.Read.{socket_read-Appended, read_char_lem}

-- The calls of a client; `receive` is `buffer_socket_read` with what `readv` gets.
pub data Call : Type 0 where
  put : List ℕ → Call
  put_char : ℕ → Call
  put_string : List ℕ → Call
  receive : List ℕ → Call
  take_char : Call

-- The bytes that a call adds.
unfoldable pub added : Call → List ℕ
added (put src) = src
added (put_char c) = c ∷ []
added (put_string text) = c_string text
added (receive input) = input
added take_char = []

-- One call on the code's buffer, with the character that it takes out.
unfoldable pub call : Heap → Buffer → Call → Option (Option ℕ × Buffer)
unfolding append append_char append_string socket_read read_char
call heap b (put src) = elim (append heap b (some src)) [ none ↦ none | some b' ↦ some (none, b') ]
call heap b (put_char c) = elim (append_char heap b c) [ none ↦ none | some b' ↦ some (none, b') ]
call heap b (put_string text) = elim (append_string heap b (some text)) [
  | none ↦ none
  | some b' ↦ some (none, b')
]
call heap b (receive input) = elim (socket_read heap b (some input)) [
  | none ↦ none
  | some (n, b') ↦ some (none, b')
]
call heap b take_char = elim (read_char b) [ none ↦ none | some (c, b') ↦ some (some c, b') ]

unfoldable pub run : Heap → Buffer → List Call → Option (List (Option ℕ) × Buffer)
unfolding call
run heap b [] = some ([], b)
run heap b (c ∷ cs) = elim (call heap b c) [
  | none ↦ none
  | some (out, b') ↦ elim (run heap b' cs) [
    | none ↦ none
    | some (outs, b'') ↦ some (out ∷ outs, b'')
  ]
]

-- The same on a queue of bytes. A character cannot be taken from an empty queue.
abbrev queue_take : List ℕ → Option (Option ℕ × List ℕ)
queue_take [] = none
queue_take (x ∷ q) = some (some x, q)

unfoldable pub queue_call : List ℕ → Call → Option (Option ℕ × List ℕ)
queue_call q (put src) = some (none, q ++ src)
queue_call q (put_char c) = some (none, q ++ (c ∷ []))
queue_call q (put_string text) = some (none, q ++ c_string text)
queue_call q (receive input) = some (none, q ++ input)
queue_call q take_char = queue_take q

unfoldable pub queue_run : List ℕ → List Call → Option (List (Option ℕ) × List ℕ)
unfolding queue_call
queue_run q [] = some ([], q)
queue_run q (c ∷ cs) = elim (queue_call q c) [
  | none ↦ none
  | some (out, q') ↦ elim (queue_run q' cs) [
    | none ↦ none
    | some (outs, q'') ↦ some (out ∷ outs, q'')
  ]
]

unfoldable pub total_added : List Call → ℕ
unfolding added
total_added [] = 0
total_added (c ∷ cs) = length (added c) + total_added cs

-- The buffer after a call that the queue answers with `out` and `q`.
record Agrees (heap : Heap) (b : Buffer) (c : Call) (out : Option ℕ) (q : List ℕ) (b' : Buffer)
    : Type 0 where
  done : call heap b c ≡ some (out, b')
  valid : IsValid b'
  same : contents b' ≡ q
  growth : b'.total_size ≤ b.total_size + length (added c)

-- An appending call agrees with the queue, once it is known to append.
append-Agrees :
    (heap : Heap) (b : Buffer) (c : Call) {out : Option ℕ} {q : List ℕ} {b' : Buffer}
    → Appended b (added c) b'
    → call heap b c ≡ some (none, b')
    → ◌≡◌ {A = Option (Option ℕ × List ℕ)} (some (none, contents b ++ added c)) (some (out, q))
    → Agrees heap b c out q b'
append-Agrees heap b c a done e = record {
  done = cc;
  valid = a.valid;
  same = a.same ∙ cc;
  growth = a.growth;
}

take_char-Agrees :
    (heap : Heap) (b : Buffer) {out : Option ℕ} {q : List ℕ}
    → IsValid b
    → queue_take (contents b) ≡ some (out, q)
    → (b' : Buffer) × Agrees heap b take_char out q b'
unfolding call added
take_char-Agrees heap b v e = elim (dec_lt b.read_index b.write_index) [
  | yes some_left ↦
      let (c, run, valid, same) = read_char_lem v some_left in
      (
        record b { read_index = b.read_index + 1 },
        record {
          done = ground (arith, run, same, e);
          valid = valid;
          same = ground (arith, same, e);
          growth = omega arith;
        },
      )
  | no empty ↦ absurd (ground (arith, length-contents v, e))
]

call-Agrees :
    (heap : Heap) (b : Buffer) (c : Call) {out : Option ℕ} {q : List ℕ}
    → IsWilling heap
    → IsValid b
    → b.total_size + length (added c) < int_limit
    → queue_call (contents b) c ≡ some (out, q)
    → (b' : Buffer) × Agrees heap b c out q b'
unfolding call added queue_call
call-Agrees heap b (put src) w v fits e =
    let (b', run, a) = Adds-willing w fits (append-Adds heap b src v fits) in
    (b', append-Agrees heap b (put src) a (ground (arith, run)) e)
call-Agrees heap b (put_char c) w v fits e =
    let (b', run, a) = Adds-willing w fits (append_char-Adds heap b c v fits) in
    (b', append-Agrees heap b (put_char c) a (ground (arith, run)) e)
call-Agrees heap b (put_string text) w v fits e =
    let (b', run, a) = Adds-willing w fits (append_string-Adds heap b text v fits) in
    (b', append-Agrees heap b (put_string text) a (ground (arith, run)) e)
call-Agrees heap b (receive input) w v fits e =
    let (b', run, a) = socket_read-Appended heap b input w v fits in
    (b', append-Agrees heap b (receive input) a (ground (arith, run)) e)
call-Agrees heap b take_char w v fits e = take_char-Agrees heap b v e

-- With an allocator that does not refuse, and as long as all sizes fit an `int`, every sequence of
-- calls that a queue of bytes can answer runs without a fault on a well-formed buffer that holds the
-- queue's bytes, takes out the same characters in the same order, and ends in a well-formed buffer
-- that holds what is left in the queue.
pub run_refines :
    (heap : Heap) (b : Buffer) (calls : List Call) (outs : List (Option ℕ)) (q : List ℕ)
    → IsWilling heap
    → IsValid b
    → b.total_size + total_added calls < int_limit
    → queue_run (contents b) calls ≡ some (outs, q)
    → (b' : Buffer) × (run heap b calls ≡ some (outs, b')) × IsValid b' × (contents b' ≡ q)
unfolding run queue_run total_added
run_refines heap b [] outs q w v fits e = (b, cc, v, cc)
run_refines heap b (c ∷ cs) outs q w v fits e = elim (Option-cases (queue_call (contents b) c)) [
  | inl stuck ↦ absurd (ground (arith, stuck, e))
  | inr ((out, q'), first) ↦
      let (b', a) = call-Agrees heap b c w v (omega arith) first in
      elim (Option-cases (queue_run q' cs)) [
        | inl stuck ↦ absurd (ground (arith, first, stuck, e))
        | inr ((outs', q''), rest) ↦
            let (b'', go, valid, same) =
              run_refines heap b' cs outs' q'' w a.valid (omega (arith, a.growth))
                (rw a.same rest) in
            (
              b'',
              ground (arith, a.done, go, first, rest, e),
              valid,
              ground (arith, same, first, rest, e),
            )
      ]
]
