-- ===== src/Http/Line.antt =====
-- One line of a request in the input buffer, and the parts of a header line.
use by_doing.Prelude.{
  ℕ, suc, ◌+◌, ◌-◌, ◌≡◌, refl, ap, ◌∙◌, some, List, [], ◌∷◌, ◌++◌, arith, length, slice, get_elem?,
  get_elem?-slice, get_elem?-append, get_elem?-none, list_ext, length-append,
}
use by_doing.Buffer.{Buffer, find_crlf, crlf_distance}
use by_doing.Buffer.Window.{IsValid, contents, length-contents}
use by_doing.Http.{colon_distance}
use by_doing.Http.StatusLine.{Without}

crlf_distance-append :
    (line rest : List ℕ)
    → Without 13 line
    → crlf_distance (line ++ (13 ∷ 10 ∷ rest)) ≡ some (length line)
unfolding crlf_distance
crlf_distance-append [] rest w = refl
crlf_distance-append (c ∷ []) rest w = ground (arith, w.0)
crlf_distance-append (c ∷ d ∷ cs) rest w =
    ground (arith, w.0, crlf_distance-append (d ∷ cs) rest w.1)

pub colon_distance-append :
    (key value : List ℕ)
    → Without 58 key
    → colon_distance (key ++ (58 ∷ 32 ∷ value)) ≡ some (length key)
unfolding colon_distance
colon_distance-append [] value w = refl
colon_distance-append (c ∷ []) value w = ground (arith, w.0)
colon_distance-append (c ∷ d ∷ cs) value w =
    ground (arith, w.0, colon_distance-append (d ∷ cs) value w.1)

pub Without-append : (b : ℕ) (xs ys : List ℕ) → Without b xs → Without b ys → Without b (xs ++ ys)
Without-append b [] ys wx wy = wy
Without-append b (x ∷ xs) ys wx wy = (wx.0, Without-append b xs ys wx.1 wy)

abbrev pub passed : Buffer → ℕ → Buffer
passed b n = record b { read_index = b.read_index + n + 2 }

-- The first line of a well-formed buffer, and the buffer behind its line end.
pub record HasLine (b : Buffer) (line rest : List ℕ) : Type 0 where
  pub found : find_crlf b ≡ some (length line)
  pub text : slice b.bytes b.read_index (length line) ≡ line
  pub valid : IsValid (passed b (length line))
  pub next : contents (passed b (length line)) ≡ rest

pub HasLine_lem :
    (b : Buffer) (line rest : List ℕ)
    → IsValid b
    → Without 13 line
    → contents b ≡ line ++ (13 ∷ 10 ∷ rest)
    → HasLine b line rest
unfolding find_crlf
HasLine_lem b line rest v w e =
    let n = length line in
    let whole = b.write_index - b.read_index in
    let ends = 13 ∷ 10 ∷ rest in
    let size : whole ≡ n + suc (suc (length rest)) =
      omega (arith, length-contents v, ap length e, length-append line ends) in
    record {
      found =
          let readable : find_crlf b ≡ crlf_distance (contents b) = ground arith in
          readable ∙ ap crlf_distance e ∙ crlf_distance-append line rest w;
      text = list_ext _ _ λ k. ground (
        arith,
        get_elem?-slice b.bytes b.read_index n k,
        get_elem?-slice b.bytes b.read_index whole k,
        ap (λ x. get_elem? x k) e,
        get_elem?-append line ends k,
        get_elem?-none line k,
        size,
      );
      valid = omega arith;
      next = list_ext _ _ λ k. ground (
        arith,
        get_elem?-slice b.bytes (b.read_index + n + 2) (b.write_index - (b.read_index + n + 2)) k,
        get_elem?-slice b.bytes b.read_index whole (n + suc (suc k)),
        ap (λ x. get_elem? x (n + suc (suc k))) e,
        get_elem?-append line ends (n + suc (suc k)),
        ap (get_elem? ends) {x = n + suc (suc k) - n} {y = suc (suc k)},
        ap (get_elem? b.bytes) {x = b.read_index + n + 2 + k}
            {y = b.read_index + (n + suc (suc k))},
        get_elem?-none rest k,
        size,
      );
    }
