-- ===== src/Response/Tests.antt =====
-- A response at concrete values.
use by_doing.Prelude.{ℕ, ◌≡◌, refl, arith, true, none, some, List, [], ◌∷◌, ◌++◌}
use by_doing.Buffer.{Buffer}
use by_doing.Buffer.Plenty.{plenty, plenty-IsWilling}
use by_doing.Response.{HttpResponse, http11, connection_close, encode_buffer}
use by_doing.Response.Pieces.{IsPrintable, header_text, response_text}
use by_doing.Response.Text.{Encoded, encode_buffer-Encoded}

abbrev not_found : HttpResponse
not_found = record {
  status_code = 404;
  status_message = some (78 ∷ 111 ∷ []);
  body = none;
  headers = (65 ∷ [], 98 ∷ []) ∷ [];
  keep_connected = true;
}

abbrev digits : ℕ → List ℕ
digits n = 52 ∷ 48 ∷ 52 ∷ []

abbrev output : Buffer
output = record { bytes = 0 ∷ 0 ∷ []; total_size = 2; read_index = 0; write_index = 0 }

not_found-IsPrintable : IsPrintable digits not_found
not_found-IsPrintable = record {
  digits = λ n. (omega arith, (omega arith, (omega arith, tt)));
  status_fits = omega arith;
  length_fits = omega arith;
  message = (omega arith, (omega arith, tt));
  body = tt;
  headers = ((omega arith, tt), ((omega arith, tt), tt));
  has_body = λ h. absurd (cc h);
}

-- "HTTP/1.1 404 No", "Connection: close", "A: b" and the empty line.
not_found_text :
    response_text digits not_found
    ≡ http11
      ++ (52
          ∷ 48
          ∷ 52
          ∷ 32
          ∷ 78
          ∷ 111
          ∷ 13
          ∷ 10
          ∷ (connection_close ++ (65 ∷ 58 ∷ 32 ∷ 98 ∷ 13 ∷ 10 ∷ 13 ∷ 10 ∷ [])))
unfolding header_text
not_found_text = refl

encode_example :
    (b : Buffer) × (encode_buffer plenty digits not_found output ≡ some b)
    × Encoded output (response_text digits not_found) b
unfolding header_text
encode_example =
    encode_buffer-Encoded plenty digits not_found output not_found-IsPrintable plenty-IsWilling
      (omega arith) (omega arith)
