-- ===== src/Http/Tests.antt =====
-- Runs of the parser, and its theorems at concrete values.
use by_doing.Prelude.{
  ℕ, zero, suc, ◌≡◌, refl, arith, none, some, List, [], ◌∷◌, length, replicate, inl,
}
use by_doing.Buffer.{Buffer, find_crlf}
use by_doing.Http.{
  Header, Fresh, http_request_new, process_status_line, parse_http_request, running,
  request_headers, HttpRequest,
}
use by_doing.Http.StatusLine.{IsExact, status_line, process_status_line-exact}
use by_doing.Http.Parse.{header_lines, parse_http_request-spins}

length-zeros : (n : ℕ) → length {A = ℕ} (replicate n 0) ≡ n
length-zeros zero = refl
length-zeros (suc n) = omega (arith, length-zeros n)

-- An allocator whose blocks are exactly as large as asked for.
abbrev exact : Fresh
exact = record { block = λ n. replicate n 0; enough = λ n. omega (arith, length-zeros n) }

exact-IsExact : IsExact exact
exact-IsExact = length-zeros

-- The header "A: b", the empty line and two more bytes.
abbrev header : Header
header = (65 ∷ [], 98 ∷ [])

abbrev text : List ℕ
text = header_lines (header ∷ []) (7 ∷ 8 ∷ [])

abbrev input : Buffer
input = record { bytes = text; total_size = length text; read_index = 0; write_index = length text }

abbrev partial_input : Buffer
partial_input = record {
  bytes = 71 ∷ 32 ∷ 47 ∷ [];
  total_size = 3;
  read_index = 0;
  write_index = 3;
}

line_result :
    process_status_line exact (status_line (71 ∷ []) (47 ∷ []) (72 ∷ [])) http_request_new ≡ none
line_result =
    process_status_line-exact exact (status_line (71 ∷ []) (47 ∷ []) (72 ∷ [])) http_request_new
      exact-IsExact

spins_example :
    parse_http_request exact 100 partial_input http_request_new
    ≡ running partial_input http_request_new
unfolding http_request_new find_crlf
spins_example = parse_http_request-spins exact 100 partial_input http_request_new refl (inl refl)

abbrev begun : HttpRequest
begun = record {
  version = some (72 ∷ []);
  method = some (71 ∷ []);
  url = some (47 ∷ []);
  current_state = request_headers;
  headers = [];
}
