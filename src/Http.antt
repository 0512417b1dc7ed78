-- ===== src/Http.antt =====
-- NetWork/lib/http_request.c and the parser of http_server.c: reading a request from the input buffer.
-- A C string is the list of its bytes before the terminator; a null pointer is `none`. The state of an
-- allocator's fresh bytes is the parameter `Fresh`.
pub mod StatusLine
pub mod Line
pub mod Parse
mod Tests
use by_doing.Prelude.{
  ℕ, zero, suc, ◌+◌, ◌-◌, ◌<◌, ◌≤◌, ◌≡◌, Bool, true, false, ◌&&◌, Option, none, some, List, [], ◌∷◌,
  ◌++◌, ltb, leb, ◌==◌, if◌then◌else◌, length, take, drop, slice, splice, set, get_elem?, replicate,
}
use by_doing.Prelude.Int.{ℤ, pos, negsuc}
use by_doing.Buffer.{Buffer, c_string, find_crlf}

-- `struct request_header`: a key and a value.
abbrev pub Header : Type 0
Header = List ℕ × List ℕ

pub data RequestState : Type 0 where
  request_status request_headers request_body request_done : RequestState

-- `struct http_request`. The headers in use are the first `request_headers_number` ones.
pub record HttpRequest : Type 0 where
  pub version : Option (List ℕ)
  pub method : Option (List ℕ)
  pub url : Option (List ℕ)
  pub current_state : RequestState
  pub headers : List Header

-- The number of headers for which `http_request_new` makes room: it asks for 128 times the size of a
-- request, 48 bytes with 8-byte pointers, and a header takes 16.
abbrev pub header_room : ℕ
header_room = 384

unfoldable pub http_request_new : HttpRequest
http_request_new = record {
  version = none;
  method = none;
  url = none;
  current_state = request_status;
  headers = [];
}

-- The strings are not freed, and the block of headers is used again.
unfoldable pub http_request_reset : HttpRequest → HttpRequest
http_request_reset r = record {
  version = none;
  method = none;
  url = none;
  current_state = request_status;
  headers = [];
}

-- There is no test against the room: a header beyond it is written out of bounds.
unfoldable pub add_header : HttpRequest → List ℕ → List ℕ → Option HttpRequest
add_header r key value =
    if ltb (length r.headers) header_room
    then some (record r { headers = r.headers ++ ((key, value) ∷ []) })
    else none

-- `strncmp(s, t, strlen(t)) == 0`: `t` is a prefix of `s`.
unfoldable pub begins_with : List ℕ → List ℕ → Bool
begins_with [] s = true
begins_with (c ∷ cs) [] = false
begins_with (c ∷ cs) (d ∷ ds) = c == d && begins_with cs ds

abbrev pub first_header : List ℕ → List Header → Option (List ℕ)
first_header key [] = none
first_header key ((k, v) ∷ hs) =
    let rest = first_header key hs in if begins_with key k then some v else rest

unfoldable pub get_header : HttpRequest → List ℕ → Option (List ℕ)
unfolding begins_with
get_header r key = first_header key r.headers

abbrev pub connection_key : List ℕ
connection_key = b'C' ∷ b'o' ∷ b'n' ∷ b'n' ∷ b'e' ∷ b'c' ∷ b't' ∷ b'i' ∷ b'o' ∷ b'n' ∷ []

abbrev pub close_value : List ℕ
close_value = b'c' ∷ b'l' ∷ b'o' ∷ b's' ∷ b'e' ∷ []

abbrev pub keep_alive : List ℕ
keep_alive = b'K' ∷ b'e' ∷ b'e' ∷ b'p' ∷ b'-' ∷ b'A' ∷ b'l' ∷ b'i' ∷ b'v' ∷ b'e' ∷ []

abbrev pub http10 : List ℕ
http10 = b'H' ∷ b'T' ∷ b'T' ∷ b'P' ∷ b'/' ∷ b'1' ∷ b'.' ∷ b'0' ∷ []

abbrev pub says_close : Option (List ℕ) → Bool
says_close none = false
says_close (some v) = begins_with close_value v

abbrev pub is_http10 : Option (List ℕ) → Bool
is_http10 none = false
is_http10 (some v) = begins_with http10 v

-- `http_request_close_connection`. `compare` is `strncmp` with the length of its second argument; on a
-- null pointer it has no defined behaviour.
unfoldable pub close_connection : (List ℕ → List ℕ → ℤ) → HttpRequest → Option Bool
unfolding get_header
close_connection compare r =
    let connection = get_header r connection_key in
    if says_close connection
    then some true
    else if is_http10 r.version
    then elim connection [
      | none ↦ none
      | some v ↦ elim (compare v keep_alive) [ pos n ↦ some (n == 1) | negsuc _ ↦ some false ]
    ]
    else some false

-- `malloc` of a string's block: the bytes that it may be written at, at least as many as asked for.
pub record Fresh : Type 0 where
  pub block : ℕ → List ℕ
  pub enough : (n : ℕ) → n ≤ length (block n)

-- `memmem(..., " ", 1)` and `memmem(..., ": ", 2)`: the distance to the first place.
unfoldable pub space_distance : List ℕ → Option ℕ
space_distance [] = none
space_distance (c ∷ cs) =
    let rest = space_distance cs in
    if c == 32 then some 0 else elim rest [ none ↦ none | some n ↦ some (suc n) ]

unfoldable pub colon_distance : List ℕ → Option ℕ
colon_distance [] = none
colon_distance (c ∷ []) = none
colon_distance (c ∷ d ∷ cs) =
    let rest = colon_distance (d ∷ cs) in
    if c == 58 && d == 32 then some 0 else elim rest [ none ↦ none | some n ↦ some (suc n) ]

-- The bytes that `strncpy(dst, src, n)` writes, for the `n` bytes of `src`: up to a terminator, then zeros.
unfoldable pub strncpy : List ℕ → List ℕ
strncpy [] = []
strncpy (c ∷ cs) =
    let rest = strncpy cs in if c == 0 then replicate (suc (length cs)) 0 else c ∷ rest

infixl 5 ◌>>=◌ ◌>>◌
abbrev pub ◌>>=◌ : {A B : Type 0} → Option A → (A → Option B) → Option B
none >>= f = none
some a >>= f = f a

abbrev pub ◌>>◌ : {A B : Type 0} → Option A → Option B → Option B
m >> k = m >>= λ _. k

-- A part of the request line: a block for one byte more is filled, and the terminator is written two
-- places behind the last byte. The string that results runs to the first zero.
unfoldable pub copy_part : Fresh → List ℕ → Option (List ℕ)
unfolding strncpy c_string
copy_part fresh part =
    let n = length part in
    let block = fresh.block (n + 1) in
    if ltb (n + 1) (length block)
    then some (c_string (set (splice block 0 (strncpy part)) (n + 1) 0))
    else none

-- `process_status_line` on the bytes from `start` to `end`. The assertions on the two spaces fail with `none`.
unfoldable pub process_status_line : Fresh → List ℕ → HttpRequest → Option (ℕ × HttpRequest)
unfolding space_distance copy_part
process_status_line fresh line r = do
  m ← space_distance line
  method ← copy_part fresh (take m line)
  let rest = drop (m + 1) line
  u ← space_distance rest
  url ← copy_part fresh (take u rest)
  version ← copy_part fresh (drop (u + 1) rest)
  some (length line, record r { method = some method; url = some url; version = some version })

-- A header's key or value: the terminator is inside the block.
abbrev pub copy_string : List ℕ → List ℕ
copy_string part = c_string (strncpy part)

-- The status line, once its bytes are known.
abbrev pub status_result : Fresh → Buffer → HttpRequest → List ℕ → Option (Buffer × HttpRequest)
status_result fresh b r line = elim (process_status_line fresh line r) [
  | none ↦ none
  | some (size, r') ↦ some (
      if ltb 0 size
      then (
        record b { read_index = b.read_index + size + 2 },
        record r' { current_state = request_headers },
      )
      else (b, r'))
]

-- One round of the loop in `parse_http_request`.
unfoldable pub parse_status : Fresh → Buffer → HttpRequest → Option (Buffer × HttpRequest)
parse_status fresh b r = elim (find_crlf b) [
  | none ↦ some (b, r)
  | some n ↦ status_result fresh b r (slice b.bytes b.read_index n)
]

abbrev pub parse_header_line : Buffer → HttpRequest → List ℕ → Option (Buffer × HttpRequest)
parse_header_line b r line = elim (colon_distance line) [
  | none ↦
      some (record b { read_index = b.read_index + 2 }, record r { current_state = request_done })
  | some k ↦ elim (add_header r (copy_string (take k line)) (copy_string (drop (k + 2) line))) [
    | none ↦ none
    | some r' ↦ some (record b { read_index = b.read_index + length line + 2 }, r')
  ]
]

unfoldable pub parse_header : Buffer → HttpRequest → Option (Buffer × HttpRequest)
parse_header b r = elim (find_crlf b) [
  | none ↦ some (b, r)
  | some n ↦ parse_header_line b r (slice b.bytes b.read_index n)
]

-- The loop on fuel: it is done, has undefined behaviour, or is still running when the fuel is gone.
pub data Parsed : Type 0 where
  finished : Buffer → HttpRequest → Parsed
  undefined : Parsed
  running : Buffer → HttpRequest → Parsed

abbrev pub parse_round : Fresh → RequestState → Buffer → HttpRequest → Option (Buffer × HttpRequest)
parse_round fresh request_status b r = parse_status fresh b r
parse_round fresh request_headers b r = parse_header b r
parse_round fresh request_body b r = some (b, r)
parse_round fresh request_done b r = some (b, r)

abbrev pub is_done : RequestState → Bool
is_done request_done = true
is_done _ = false

unfoldable pub parse_http_request : Fresh → ℕ → Buffer → HttpRequest → Parsed
unfolding parse_status parse_header
parse_http_request fresh zero b r = if is_done r.current_state then finished b r else running b r
parse_http_request fresh (suc fuel) b r = elim (is_done r.current_state) [
  | true ↦ finished b r
  | false ↦ elim (parse_round fresh r.current_state b r) [
    | none ↦ undefined
    | some (b', r') ↦ parse_http_request fresh fuel b' r'
  ]
]
