-- ===== src/Response/Pieces.antt =====
-- The text of a response, and the bytes of the strings that `http_response_encode_buffer` prints.
use by_doing.Prelude.{
  ℕ, ◌≤◌, ◌≡◌, ◌≢◌, false, if◌then◌else◌, refl, sym, ap, ◌∙◌, Option, none, some, List, [], ◌∷◌,
  ◌++◌, length, length-append, arith, list_ext, Bool-cases, Option-cases, inl, inr, get_elem?-take,
  get_elem?-none,
}
use mathlib.Core.List.{append-nil, append_assoc}
use by_doing.Buffer.{c_string}
use by_doing.Response.{
  HttpResponse, pieces, header_pieces, connection_pieces, http11, crlf, colon, connection_close,
  content_length, connection_keep_alive, in_buf,
}
use by_doing.Http.StatusLine.{Without, c_string-Without}
use by_doing.Http.Line.{Without-append}

-- The bytes of the pieces; a null piece has none.
unfoldable pub flat : List (Option (List ℕ)) → List ℕ
unfolding c_string
flat [] = []
flat (none ∷ ps) = flat ps
flat (some text ∷ ps) = c_string text ++ flat ps

-- The bytes of a C string, none for a null pointer.
abbrev or_empty : Option (List ℕ) → List ℕ
or_empty none = []
or_empty (some text) = text

-- One line for each header: key, colon, space and value.
unfoldable pub header_text : List (List ℕ × List ℕ) → List ℕ
header_text [] = []
header_text ((key, value) ∷ hs) = key ++ (58 ∷ 32 ∷ (value ++ (13 ∷ 10 ∷ header_text hs)))

abbrev length_text : (ℕ → List ℕ) → List ℕ → List ℕ
length_text decimal body =
    content_length ++ (decimal (length body) ++ (13 ∷ 10 ∷ connection_keep_alive))

-- The text of a response: the status line, the line or the two lines on the connection, the headers, an empty
-- line and the body.
abbrev pub response_text : (ℕ → List ℕ) → HttpResponse → List ℕ
response_text decimal r =
    http11
    ++ (decimal r.status_code
        ++ (32
            ∷ (or_empty r.status_message
                ++ (13
                    ∷ 10
                    ∷ ((if r.keep_connected
                          then connection_close
                          else length_text decimal (or_empty r.body))
                        ++ (header_text r.headers ++ (13 ∷ 10 ∷ or_empty r.body)))))))

abbrev NoZeros : List (List ℕ × List ℕ) → Type 0
NoZeros [] = Unit
NoZeros ((key, value) ∷ hs) = Without 0 key × (Without 0 value × NoZeros hs)

-- A response that can be printed: strings without a zero byte, numbers that fit `buf`, and a body where its
-- length is sent.
pub record IsPrintable (decimal : ℕ → List ℕ) (r : HttpResponse) : Type 0 where
  pub digits : (n : ℕ) → Without 0 (decimal n)
  pub status_fits : length (decimal r.status_code) ≤ 21
  pub length_fits : length (decimal (length (or_empty r.body))) ≤ 13
  pub message : Without 0 (or_empty r.status_message)
  pub body : Without 0 (or_empty r.body)
  pub headers : NoZeros r.headers
  pub has_body : r.keep_connected ≡ false → r.body ≢ none

flat-some :
    (text : List ℕ) (ps : List (Option (List ℕ)))
    → Without 0 text
    → flat (some text ∷ ps) ≡ text ++ flat ps
unfolding flat
flat-some text ps w = ap (λ x. x ++ flat ps) (c_string-Without text w)

flat-option :
    (p : Option (List ℕ)) (ps : List (Option (List ℕ)))
    → Without 0 (or_empty p)
    → flat (p ∷ ps) ≡ or_empty p ++ flat ps
unfolding flat
flat-option none ps w = refl
flat-option (some text) ps w = flat-some text ps w

flat-header_pieces :
    (hs : List (List ℕ × List ℕ)) (ps : List (Option (List ℕ)))
    → NoZeros hs
    → flat (header_pieces hs ++ ps) ≡ header_text hs ++ flat ps
unfolding header_pieces header_text
flat-header_pieces [] ps w = refl
flat-header_pieces ((key, value) ∷ hs) ps (wk, (wv, w)) =
    let more = header_pieces hs ++ ps in
    flat-some key (some colon ∷ some value ∷ some crlf ∷ more) wk
    ∙ ap (λ x. key ++ x)
        (flat-some colon (some value ∷ some crlf ∷ more) (omega arith)
          ∙ ap (λ x. colon ++ x)
              (flat-some value (some crlf ∷ more) wv
                ∙ ap (λ x. value ++ x)
                    (flat-some crlf more (omega arith)
                      ∙ ap (λ x. crlf ++ x) (flat-header_pieces hs ps w))))
    ∙ ap (λ x. key ++ (58 ∷ 32 ∷ x)) (sym (append_assoc value (13 ∷ 10 ∷ header_text hs) (flat ps)))
    ∙ sym (append_assoc key (58 ∷ 32 ∷ (value ++ (13 ∷ 10 ∷ header_text hs))) (flat ps))

-- What `snprintf` keeps of a text that fits.
in_buf-fits : (text : List ℕ) → length text ≤ 31 → in_buf text ≡ text
in_buf-fits text h =
    list_ext _ _ λ k. ground (arith, get_elem?-take 31 text k, get_elem?-none text k)

status_printed :
    (decimal : ℕ → List ℕ) (r : HttpResponse) (ps : List (Option (List ℕ)))
    → IsPrintable decimal r
    → flat (some (in_buf (http11 ++ (decimal r.status_code ++ (b' ' ∷ [])))) ∷ ps)
      ≡ http11 ++ (decimal r.status_code ++ (32 ∷ flat ps))
status_printed decimal r ps g =
    let digits = decimal r.status_code in
    ap (λ x. flat (some x ∷ ps))
      (in_buf-fits (http11 ++ (digits ++ (32 ∷ []))) (
        omega (
          arith,
          g.status_fits,
          length-append digits (32 ∷ []),
          length-append http11 (digits ++ (32 ∷ [])),
        )))
    ∙ flat-some (http11 ++ (digits ++ (32 ∷ []))) ps (
        Without-append 0 http11 (digits ++ (32 ∷ [])) (omega arith)
          (Without-append 0 digits (32 ∷ []) (g.digits r.status_code) (omega arith)))
    ∙ append_assoc http11 (digits ++ (32 ∷ [])) (flat ps)
    ∙ ap (λ x. http11 ++ x) (append_assoc digits (32 ∷ []) (flat ps))

length_printed :
    (decimal : ℕ → List ℕ) (n : ℕ) (ps : List (Option (List ℕ)))
    → Without 0 (decimal n)
    → length (decimal n) ≤ 13
    → flat (some (in_buf (content_length ++ (decimal n ++ crlf))) ∷ some connection_keep_alive ∷ ps)
      ≡ (content_length ++ (decimal n ++ (13 ∷ 10 ∷ connection_keep_alive))) ++ flat ps
length_printed decimal n ps zeros fits =
    let digits = decimal n in
    let line = content_length ++ (digits ++ crlf) in
    ap (λ x. flat (some x ∷ some connection_keep_alive ∷ ps))
      (in_buf-fits line (
        omega
          (arith, fits, length-append digits crlf, length-append content_length (digits ++ crlf))))
    ∙ flat-some line (some connection_keep_alive ∷ ps) (
        Without-append 0 content_length (digits ++ crlf) (omega arith)
          (Without-append 0 digits crlf zeros (omega arith)))
    ∙ ap (λ x. line ++ x) (flat-some connection_keep_alive ps (omega arith))
    ∙ sym (append_assoc line connection_keep_alive (flat ps))
    ∙ ap (λ x. x ++ flat ps)
        (append_assoc content_length (digits ++ crlf) connection_keep_alive
          ∙ ap (λ x. content_length ++ x) (append_assoc digits crlf connection_keep_alive))

-- The connection lines, where they are defined, and their bytes.
connection_printed :
    (decimal : ℕ → List ℕ) (r : HttpResponse) (ps : List (Option (List ℕ)))
    → IsPrintable decimal r
    → (qs : List (Option (List ℕ))) × (connection_pieces decimal r ≡ some qs)
      × (flat (qs ++ ps)
          ≡ (if r.keep_connected then connection_close else length_text decimal (or_empty r.body))
            ++ flat ps)
unfolding connection_pieces
connection_printed decimal r ps g = elim (Bool-cases r.keep_connected) [
  | inl kept ↦ (
    some connection_close ∷ [],
    rw kept refl,
    flat-some connection_close ps (omega arith) ∙ rw kept refl,
  )
  | inr stays ↦ elim (Option-cases r.body) [
    | inl missing ↦ absurd (g.has_body stays missing)
    | inr (body, present) ↦ (
      some (in_buf (content_length ++ (decimal (length body) ++ crlf)))
          ∷ some connection_keep_alive
          ∷ [],
      ground (arith, stays, present),
      length_printed decimal (length body) ps (g.digits (length body))
            (ground (arith, present, g.length_fits))
          ∙ ground (arith, stays, present),
    )
  ]
]

pub pieces_printed :
    (decimal : ℕ → List ℕ) (r : HttpResponse)
    → IsPrintable decimal r
    → (ps : List (Option (List ℕ))) × (pieces decimal r ≡ some ps)
      × (flat ps ≡ response_text decimal r)
unfolding pieces flat
pieces_printed decimal r g =
    let last = some crlf ∷ r.body ∷ [] in
    let tail = header_pieces r.headers ++ last in
    let (qs, defined, printed) = connection_printed decimal r tail g in
    let ending : flat last ≡ 13 ∷ 10 ∷ or_empty r.body =
      flat-some crlf (r.body ∷ []) (omega arith)
      ∙ ap (λ x. crlf ++ x) (flat-option r.body [] g.body ∙ append-nil (or_empty r.body)) in
    (
      some (in_buf (http11 ++ (decimal r.status_code ++ (b' ' ∷ []))))
          ∷ r.status_message
          ∷ some crlf
          ∷ (qs ++ tail),
      ground (arith, defined),
      status_printed decimal r (r.status_message ∷ some crlf ∷ (qs ++ tail)) g
          ∙ ap (λ x. http11 ++ (decimal r.status_code ++ (32 ∷ x)))
              (flat-option r.status_message (some crlf ∷ (qs ++ tail)) g.message
                ∙ ap (λ x. or_empty r.status_message ++ x)
                    (flat-some crlf (qs ++ tail) (omega arith)
                      ∙ ap (λ x. crlf ++ x)
                          (printed
                            ∙ ap
                                (λ x.
                                  (if r.keep_connected
                                    then connection_close
                                    else length_text decimal (or_empty r.body))
                                  ++ x)
                                (flat-header_pieces r.headers last g.headers
                                  ∙ ap (λ x. header_text r.headers ++ x) ending)))),
    )
