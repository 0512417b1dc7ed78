-- ===== src/Http/Parse.antt =====
-- `parse_http_request` of NetWork/lib/http_server.c, and the text of headers.
use by_doing.Prelude.{ℕ, zero, suc, ◌≡◌, ◌⊎◌, none, List, [], ◌∷◌, ◌++◌, arith, inl, inr}
use by_doing.Buffer.{Buffer, find_crlf}
use by_doing.Http.{
  HttpRequest, Fresh, request_status, request_headers, finished, running, parse_http_request,
  parse_status, parse_header,
}
use by_doing.Http.{Header}
use by_doing.Http.StatusLine.{Without}
use by_doing.Buffer.Window.{IsValid, contents}

-- While the input holds no line end, the loop never ends: with any fuel it is still running, and has
-- changed nothing.
pub parse_http_request-spins :
    (fresh : Fresh) (fuel : ℕ) (b : Buffer) (r : HttpRequest)
    → find_crlf b ≡ none
    → (r.current_state ≡ request_status) ⊎ (r.current_state ≡ request_headers)
    → parse_http_request fresh fuel b r ≡ running b r
unfolding parse_http_request parse_status parse_header
parse_http_request-spins fresh zero b r dry (inl s) = ground (arith, s)
parse_http_request-spins fresh zero b r dry (inr s) = ground (arith, s)
parse_http_request-spins fresh (suc fuel) b r dry (inl s) =
    ground (arith, s, dry, parse_http_request-spins fresh fuel b r dry (inl s))
parse_http_request-spins fresh (suc fuel) b r dry (inr s) =
    ground (arith, s, dry, parse_http_request-spins fresh fuel b r dry (inr s))

-- A header that the format can carry: no line end in it, no colon in the key.
pub record IsHeader (h : Header) : Type 0 where
  pub key_line : Without 13 h.0
  pub key_colon : Without 58 h.0
  pub key_zero : Without 0 h.0
  pub value_line : Without 13 h.1
  pub value_zero : Without 0 h.1

abbrev pub AllHeaders : List Header → Type 0
AllHeaders [] = Unit
AllHeaders (h ∷ hs) = IsHeader h × AllHeaders hs

abbrev pub header_line : Header → List ℕ
header_line (key, value) = key ++ (58 ∷ 32 ∷ value)

-- The headers of a request, the empty line, and what follows.
abbrev pub header_lines : List Header → List ℕ → List ℕ
header_lines [] rest = 13 ∷ 10 ∷ rest
header_lines (h ∷ hs) rest = header_line h ++ (13 ∷ 10 ∷ header_lines hs rest)

-- What is left when a request has been read.
pub record Leaves (fresh : Fresh) (fuel : ℕ) (b : Buffer) (r : HttpRequest) (r' : HttpRequest)
    (rest : List ℕ) : Type 0 where
  pub after : Buffer
  pub parsed : parse_http_request fresh fuel b r ≡ finished after r'
  pub valid : IsValid after
  pub remains : contents after ≡ rest
