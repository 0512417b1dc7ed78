-- ===== src/Response.antt =====
-- NetWork/lib/http_response.c: a response, and its encoding into a buffer. A C string is the list of its
-- bytes before the terminator; a null pointer is `none`.
pub mod Pieces
pub mod Text
mod Tests
use by_doing.Prelude.{
  ℕ, Bool, true, false, Option, none, some, List, [], ◌∷◌, ◌++◌, if◌then◌else◌, length, take,
}
use by_doing.Buffer.{Heap, Buffer, append_string}

pub record HttpResponse : Type 0 where
  pub status_code : ℕ
  pub status_message : Option (List ℕ)
  pub body : Option (List ℕ)
  pub headers : List (List ℕ × List ℕ)
  pub keep_connected : Bool

-- `Unknown` is 0.
unfoldable pub http_response_new : HttpResponse
http_response_new = record {
  status_code = 0;
  status_message = none;
  body = none;
  headers = [];
  keep_connected = false;
}

-- "HTTP/1.1 ", "\r\n", ": ", "Connection: close\r\n", "Content-Length: " and "Connection: Keep-Alive\r\n".
abbrev pub http11 : List ℕ
http11 = b'H' ∷ b'T' ∷ b'T' ∷ b'P' ∷ b'/' ∷ b'1' ∷ b'.' ∷ b'1' ∷ b' ' ∷ []

abbrev pub crlf : List ℕ
crlf = 13 ∷ 10 ∷ []

abbrev pub colon : List ℕ
colon = b':' ∷ b' ' ∷ []

abbrev pub connection_close : List ℕ
connection_close =
    b'C' ∷ b'o' ∷ b'n' ∷ b'n' ∷ b'e' ∷ b'c' ∷ b't' ∷ b'i' ∷ b'o' ∷ b'n' ∷ b':' ∷ b' ' ∷ b'c' ∷ b'l'
    ∷ b'o' ∷ b's' ∷ b'e' ∷ 13 ∷ 10 ∷ []

abbrev pub content_length : List ℕ
content_length =
    b'C' ∷ b'o' ∷ b'n' ∷ b't' ∷ b'e' ∷ b'n' ∷ b't' ∷ b'-' ∷ b'L' ∷ b'e' ∷ b'n' ∷ b'g' ∷ b't' ∷ b'h'
    ∷ b':' ∷ b' ' ∷ []

abbrev pub connection_keep_alive : List ℕ
connection_keep_alive =
    b'C' ∷ b'o' ∷ b'n' ∷ b'n' ∷ b'e' ∷ b'c' ∷ b't' ∷ b'i' ∷ b'o' ∷ b'n' ∷ b':' ∷ b' ' ∷ b'K' ∷ b'e'
    ∷ b'e' ∷ b'p' ∷ b'-' ∷ b'A' ∷ b'l' ∷ b'i' ∷ b'v' ∷ b'e' ∷ 13 ∷ 10 ∷ []

-- `snprintf(buf, sizeof buf, ...)` keeps 31 bytes.
abbrev pub in_buf : List ℕ → List ℕ
in_buf text = take 31 text

-- The arguments of `buffer_append_string` for the headers, in the order of the calls.
unfoldable pub header_pieces : List (List ℕ × List ℕ) → List (Option (List ℕ))
header_pieces [] = []
header_pieces ((key, value) ∷ hs) =
    some key ∷ some colon ∷ some value ∷ some crlf ∷ header_pieces hs

-- The choice between the two kinds of connection; `strlen` of a null body is undefined, `none`. `decimal` is
-- what `%d` and `%zd` print for a number.
unfoldable pub connection_pieces : (ℕ → List ℕ) → HttpResponse → Option (List (Option (List ℕ)))
connection_pieces decimal r =
    if r.keep_connected then some (some connection_close ∷ []) else elim r.body [
      | none ↦ none
      | some body ↦ some (
          some (in_buf (content_length ++ (decimal (length body) ++ crlf)))
          ∷ some connection_keep_alive
          ∷ [])
    ]

unfoldable pub pieces : (ℕ → List ℕ) → HttpResponse → Option (List (Option (List ℕ)))
unfolding connection_pieces header_pieces
pieces decimal r = elim (connection_pieces decimal r) [
  | none ↦ none
  | some connection ↦ some (
      some (in_buf (http11 ++ (decimal r.status_code ++ (b' ' ∷ []))))
      ∷ r.status_message
      ∷ some crlf
      ∷ (connection ++ (header_pieces r.headers ++ (some crlf ∷ r.body ∷ []))))
]

-- `buffer_append_string` once for each piece.
unfoldable pub append_strings : Heap → Buffer → List (Option (List ℕ)) → Option Buffer
append_strings heap b [] = some b
append_strings heap b (p ∷ ps) = elim (append_string heap b p) [
  | none ↦ none
  | some b' ↦ append_strings heap b' ps
]

-- `http_response_encode_buffer`
unfoldable pub encode_buffer : Heap → (ℕ → List ℕ) → HttpResponse → Buffer → Option Buffer
unfolding pieces append_strings
encode_buffer heap decimal r b = elim (pieces decimal r) [
  | none ↦ none
  | some ps ↦ append_strings heap b ps
]
