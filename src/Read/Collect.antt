-- ===== src/Read/Collect.antt =====
-- `readn` and `read_message` of NetWork/lib/read.c.
use by_doing.Prelude.{
  ℕ, zero, suc, ◌+◌, ◌-◌, ◌^◌, ◌≤◌, ◌<◌, ◌≡◌, refl, ◌∙◌, ap, Option, Option-cases, inl, inr, none,
  some, List, [], ◌∷◌, ◌++◌, ◌/◌, ◌%◌, length-append, length, take, drop, arith,
}
use by_doing.Prelude.Int.{ℤ, pos, negsuc}
use by_doing.Read.{
  Event, deliver, interrupted, failed, Received, min_ℕ, read_left, readn, add_count, put_before,
  read_number, read_body, read_record, read_message, ntohl,
}

-- The calls of a schedule that find bytes.
unfoldable pub delivers : List Event → ℕ
delivers [] = 0
delivers (deliver k ∷ es) = suc (delivers es)
delivers (interrupted ∷ es) = delivers es
delivers (failed ∷ es) = delivers es

unfoldable pub NoFailure : List Event → Type 0
NoFailure [] = Unit
NoFailure (deliver k ∷ es) = NoFailure es
NoFailure (interrupted ∷ es) = NoFailure es
NoFailure (failed ∷ es) = 1 ≤ 0

-- The first `n` bytes of the stream have been taken, with at most one call for each.
pub record Got (es : List Event) (s : List ℕ) (n : ℕ) (r : Received) : Type 0 where
  pub result : r.result ≡ pos n
  pub bytes : r.bytes ≡ take n s
  pub stream : r.stream ≡ drop n s
  pub calls : delivers es ≤ delivers r.events + n
  pub no_failure : NoFailure r.events

take-split :
    (a b : ℕ) (xs : List ℕ) → a ≤ length xs → take a xs ++ take b (drop a xs) ≡ take (a + b) xs
take-split zero b xs h = ap (λ n. take n xs) {x = b} {y = 0 + b} (omega arith)
take-split (suc a) b [] h = absurd (omega arith)
take-split (suc a) b (x ∷ xs) h =
    ap (λ l. x ∷ l) (take-split a b xs (omega arith))
    ∙ ap (λ n. take n (x ∷ xs)) {x = suc (a + b)} {y = suc a + b} (omega arith)

drop-split : (a b : ℕ) (xs : List ℕ) → a ≤ length xs → drop b (drop a xs) ≡ drop (a + b) xs
drop-split zero b xs h = ap (λ n. drop n xs) {x = b} {y = 0 + b} (omega arith)
drop-split (suc a) b [] h = absurd (omega arith)
drop-split (suc a) b (x ∷ xs) h =
    drop-split a b xs (omega arith)
    ∙ ap (λ n. drop n (x ∷ xs)) {x = suc (a + b)} {y = suc a + b} (omega arith)

length-take-all : (a : ℕ) (xs : List ℕ) → a ≤ length xs → length (take a xs) ≡ a
length-take-all zero xs h = refl
length-take-all (suc a) [] h = absurd (omega arith)
length-take-all (suc a) (x ∷ xs) h = omega (arith, length-take-all a xs (omega arith))

length-drop-all : (a : ℕ) (xs : List ℕ) → a ≤ length xs → length (drop a xs) + a ≡ length xs
length-drop-all zero xs h = omega arith
length-drop-all (suc a) [] h = absurd (omega arith)
length-drop-all (suc a) (x ∷ xs) h = omega (arith, length-drop-all a xs (omega arith))

min_suc : (a b : ℕ) → min_ℕ (suc a) (suc b) ≡ suc (min_ℕ a b)
min_suc a b = ground arith

min_below : (a b : ℕ) → min_ℕ a b ≤ b
min_below a b = ground arith

-- What one round does, with `part` the bytes that it finds.
more :
    {es : List Event} {s : List ℕ} {n m : ℕ} {r : Received} (k c : ℕ)
    → m ≤ n
    → suc n ≤ length (c ∷ s)
    → Got es (drop m s) (n - m) r
    → Got (deliver k ∷ es) (c ∷ s) (suc n) (put_before (c ∷ take m s) r)
unfolding delivers NoFailure
more {s = s} {n = n} {m = m} {r = r} k c small enough g =
    let size = length-take-all m s (omega arith) in
    record {
      result = ground (arith, g.result, size);
      bytes =
          ap (λ x. c ∷ (take m s ++ x)) g.bytes
          ∙ ap (λ x. c ∷ x) (take-split m (n - m) s (omega arith))
          ∙ ap (λ x. c ∷ take x s) {x = m + (n - m)} {y = n} (omega arith);
      stream =
          g.stream
          ∙ drop-split m (n - m) s (omega arith)
          ∙ ap (λ x. drop x s) {x = m + (n - m)} {y = n} (omega arith);
      calls = omega (arith, g.calls);
      no_failure = g.no_failure;
    }

-- A call that finds bytes, and the rest of the loop.
read_left-deliver :
    (k c n : ℕ) (es : List Event) (s : List ℕ) {r : Received}
    → suc n ≤ length (c ∷ s)
    → read_left es (drop (min_ℕ k n) s) (n - min_ℕ k n) ≡ some r
    → read_left (deliver k ∷ es) (c ∷ s) (suc n) ≡ some (put_before (c ∷ take (min_ℕ k n) s) r)
unfolding read_left
read_left-deliver k c n es s {r = r} enough later =
    let m = min_ℕ k n in
    let size = length-take-all m s (omega (arith, min_below k n)) in
    ap
      (λ x. elim (take x (c ∷ s)) [
        | [] ↦ some (record { result = pos 0; bytes = []; events = es; stream = c ∷ s })
        | d ∷ ds ↦
            after
              (read_left es (drop (length (take x (c ∷ s))) (c ∷ s))
                (suc n - length (take x (c ∷ s))))
              d ds
      ])
      (min_suc k n)
    ∙ ap (λ x. after (read_left es (drop x s) (suc n - suc x)) c (take m s)) size
    ∙ ap (λ x. after (read_left es (drop m s) x) c (take m s)) {x = suc n - suc m} {y = n - m}
        (omega arith)
    ∙ ap (λ x. after x c (take m s)) later
  where
    after : Option Received → ℕ → List ℕ → Option Received
    after o d ds = elim o [ none ↦ none | some q ↦ some (put_before (d ∷ ds) q) ]

-- If no call fails, there are as many bytes in the stream as asked for, and as many calls that find some,
-- then `read_left` returns their number and has taken exactly these bytes, however they were cut.
pub read_left_lem :
    (es : List Event) (s : List ℕ) (n : ℕ)
    → NoFailure es
    → n ≤ delivers es
    → n ≤ length s
    → (r : Received) × (read_left es s n ≡ some r) × Got es s n r
unfolding read_left delivers NoFailure
read_left_lem es s zero ok calls enough = (
  record { result = pos 0; bytes = []; events = es; stream = s },
  refl,
  record { result = refl; bytes = refl; stream = refl; calls = omega arith; no_failure = ok },
)
read_left_lem [] s (suc n) ok calls enough = absurd (omega arith)
read_left_lem (failed ∷ es) s (suc n) ok calls enough = absurd (omega arith)
read_left_lem (interrupted ∷ es) s (suc n) ok calls enough =
    let (r, run, g) = read_left_lem es s (suc n) ok calls enough in
    (
      r,
      run,
      record {
        result = g.result;
        bytes = g.bytes;
        stream = g.stream;
        calls = g.calls;
        no_failure = g.no_failure;
      },
    )
read_left_lem (deliver k ∷ es) [] (suc n) ok calls enough = absurd (omega arith)
read_left_lem (deliver k ∷ es) (c ∷ s) (suc n) ok calls enough =
    let m = min_ℕ k n in
    let below = min_below k n in
    let size = length-take-all m s (omega arith) in
    let (r, run, g) =
      read_left_lem es (drop m s) (n - m) ok (omega arith)
        (omega (arith, length-drop-all m s (omega arith))) in
    (put_before (c ∷ take m s) r, read_left-deliver k c n es s enough run, more k c below enough g)

add_count-zero : (n : ℤ) → add_count 0 n ≡ n
add_count-zero (negsuc n) = refl
add_count-zero (pos n) = ap pos {x = 0 + n} {y = n} (omega arith)

-- For a size that an `int` can hold, `readn` is its loop.
readn-read_left :
    (es : List Event) (s : List ℕ) (n : ℕ) → n < 2 ^ 31 → readn es s n ≡ read_left es s n
unfolding readn
readn-read_left es s n small =
    let low : n % 2 ^ 32 ≡ n = omega (arith, small) in
    elim (Option-cases (read_left es s n)) [
      | inl blocked ↦ ground (arith, low, blocked)
      | inr (r, run) ↦ ground (arith, low, run, add_count-zero r.result)
    ]

-- If no call fails, there are as many bytes in the stream as asked for, fewer than 2 ^ 31, and as many calls
-- that find some, then `readn` returns their number and has taken exactly these bytes, however they were cut.
pub readn_lem :
    (es : List Event) (s : List ℕ) (n : ℕ)
    → NoFailure es
    → n ≤ delivers es
    → n ≤ length s
    → n < 2 ^ 31
    → (r : Received) × (readn es s n ≡ some r) × Got es s n r
readn_lem es s n ok calls enough small =
    let (r, run, g) = read_left_lem es s n ok calls enough in
    (r, readn-read_left es s n small ∙ run, g)

-- A number of four bytes in network order.
abbrev pub htonl : ℕ → List ℕ
htonl n = n / 2 ^ 24 % 256 ∷ n / 2 ^ 16 % 256 ∷ n / 2 ^ 8 % 256 ∷ n % 256 ∷ []

ntohl-htonl : (n : ℕ) → n < 2 ^ 32 → ntohl (htonl n) ≡ n
ntohl-htonl n h = omega arith

-- A record as it is sent: its length, four bytes for its type, and its bytes.
abbrev pub message : ℕ → ℕ → ℕ → ℕ → List ℕ → List ℕ
message t u v w body = htonl (length body) ++ (t ∷ u ∷ v ∷ w ∷ body)

-- What `read_message` leaves when it has read a record.
pub record HasMessage (body rest : List ℕ) (r : Received) : Type 0 where
  pub result : r.result ≡ pos (length body)
  pub bytes : r.bytes ≡ body
  pub stream : r.stream ≡ rest

take-append-all : (xs ys : List ℕ) → take (length xs) (xs ++ ys) ≡ xs
take-append-all [] ys = refl
take-append-all (x ∷ xs) ys = ap (λ l. x ∷ l) (take-append-all xs ys)

drop-append-all : (xs ys : List ℕ) → drop (length xs) (xs ++ ys) ≡ ys
drop-append-all [] ys = refl
drop-append-all (x ∷ xs) ys = drop-append-all xs ys

read_number_lem :
    (es : List Event) (s : List ℕ) (continue : Received → Option Received) {r : Received}
    → readn es s 4 ≡ some r
    → r.result ≡ pos 4
    → read_number es s continue ≡ continue r
read_number_lem es s continue run four = ground (arith, run, four)

read_record_lem :
    (es : List Event) (s : List ℕ) (n : ℕ) {r : Received}
    → readn es s n ≡ some r
    → r.result ≡ pos n
    → read_record es s n ≡ some r
read_record_lem es s n run all = ground (arith, run, all)

read_body_lem :
    (n room : ℕ) (r : Received) → n ≤ room → read_body n room r ≡ read_record r.events r.stream n
read_body_lem n room r fits = ground arith

-- If no call fails and there are enough calls, `read_message` reads a record that was sent back, where it is
-- shorter than 2 ^ 31 and not longer than the caller's buffer, and leaves what follows in the stream.
pub read_message-round_trip :
    (es : List Event) (t u v w : ℕ) (body rest : List ℕ) (room : ℕ)
    → NoFailure es
    → length body + 8 ≤ delivers es
    → length body ≤ room
    → length body < 2 ^ 31
    → (r : Received) × (read_message es (message t u v w body ++ rest) room ≡ some r)
      × HasMessage body rest r
unfolding read_message
read_message-round_trip es t u v w body rest room ok calls fits small =
    let n = length body in
    let (len, run_len, a) =
      readn_lem es (message t u v w body ++ rest) 4 ok (omega arith) (omega arith) (omega arith) in
    let (type, run_type, b) =
      readn_lem len.events (t ∷ u ∷ v ∷ w ∷ (body ++ rest)) 4 a.no_failure (omega (arith, a.calls))
        (omega arith) (omega arith) in
    let (r, run, g) =
      readn_lem type.events (body ++ rest) n b.no_failure (omega (arith, a.calls, b.calls))
        (omega (arith, length-append body rest)) (omega arith) in
    (
      r,
      read_number_lem es (message t u v w body ++ rest) _ run_len a.result
          ∙ read_number_lem len.events len.stream _
              (ap (λ x. readn len.events x 4) a.stream ∙ run_type) b.result
          ∙ ap (λ x. read_body (ntohl x) room type) a.bytes
          ∙ ap (λ x. read_body x room type) (ntohl-htonl n (omega arith))
          ∙ read_body_lem n room type fits
          ∙ ap (λ x. read_record type.events x n) b.stream
          ∙ read_record_lem type.events (body ++ rest) n run g.result,
      record {
        result = g.result;
        bytes = g.bytes ∙ take-append-all body rest;
        stream = g.stream ∙ drop-append-all body rest;
      },
    )
