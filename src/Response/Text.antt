-- ===== src/Response/Text.antt =====
-- The bytes of an encoded response.
use by_doing.Prelude.{
  ℕ, ◌+◌, ◌<◌, ◌≡◌, refl, sym, ap, ◌∙◌, Option, none, some, List, [], ◌∷◌, ◌++◌, length,
  length-append, arith,
}
use mathlib.Core.List.{append-nil, append_assoc}
use by_doing.Buffer.{Heap, Buffer, int_limit, append_string, c_string}
use by_doing.Buffer.Window.{IsValid, contents}
use by_doing.Buffer.Append.{IsWilling, Adds-willing, append_string-Adds}
use by_doing.Response.{HttpResponse, append_strings, encode_buffer}
use by_doing.Response.Pieces.{flat, IsPrintable, response_text, pieces_printed}

-- A buffer with the bytes added.
pub record Encoded (b : Buffer) (text : List ℕ) (b' : Buffer) : Type 0 where
  pub valid : IsValid b'
  pub same : contents b' ≡ contents b ++ text

append_string-null : (heap : Heap) (b : Buffer) → append_string heap b none ≡ some b
unfolding append_string
append_string-null heap b = refl

append_strings-Encoded :
    (heap : Heap) (ps : List (Option (List ℕ))) (b : Buffer)
    → IsWilling heap
    → IsValid b
    → b.total_size + length (flat ps) < int_limit
    → (b' : Buffer) × (append_strings heap b ps ≡ some b') × Encoded b (flat ps) b'
unfolding append_strings flat
append_strings-Encoded heap [] b w v fits =
    (b, refl, record { valid = v; same = sym (append-nil (contents b)) })
append_strings-Encoded heap (none ∷ ps) b w v fits =
    let (b', run, e) = append_strings-Encoded heap ps b w v fits in
    (b', ground (arith, append_string-null heap b, run), record { valid = e.valid; same = e.same })
append_strings-Encoded heap (some text ∷ ps) b w v fits =
    let sizes = length-append (c_string text) (flat ps) in
    let (b1, one, a) =
      Adds-willing w (omega (arith, sizes))
        (append_string-Adds heap b text v (omega (arith, sizes))) in
    let (b', run, e) =
      append_strings-Encoded heap ps b1 w a.valid (omega (arith, sizes, a.growth)) in
    (
      b',
      ground (arith, one, run),
      record {
        valid = e.valid;
        same =
            e.same
            ∙ ap (λ x. x ++ flat ps) a.same
            ∙ append_assoc (contents b) (c_string text) (flat ps);
      },
    )

-- With an allocator that does not refuse, and as long as all sizes fit an `int`: a response whose
-- strings hold no zero byte, whose numbers fit the 32 bytes of `buf`, and that has a body where
-- its length is sent, is encoded without a fault. The buffer stays well formed, and behind what it
-- held stand exactly the status line, the lines on the connection, one line `key: value` for each
-- header in order, an empty line and the body.
pub encode_buffer-Encoded :
    (heap : Heap) (decimal : ℕ → List ℕ) (r : HttpResponse) (b : Buffer)
    → IsPrintable decimal r
    → IsWilling heap
    → IsValid b
    → b.total_size + length (response_text decimal r) < int_limit
    → (b' : Buffer) × (encode_buffer heap decimal r b ≡ some b')
      × Encoded b (response_text decimal r) b'
unfolding encode_buffer
encode_buffer-Encoded heap decimal r b g w v fits =
    let (ps, defined, text) = pieces_printed decimal r g in
    let (b', run, h) =
      append_strings-Encoded heap ps b w v (omega (arith, fits, ap (length {A = ℕ}) text)) in
    (
      b',
      ground (arith, defined, run),
      record { valid = h.valid; same = h.same ∙ ap (λ x. contents b ++ x) text },
    )
