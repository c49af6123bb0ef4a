-- ===== src/Web/HttpSession/BlankLine.antt =====
-- Where the empty line behind a header is found (src/network/web/http_server_impl.h).
use barbacoa_server_lib.Prelude.{
  ℕ, ◌+◌, ◌-◌, ◌≤◌, ◌≡◌, ◌∙◌, ap, refl, false, List, [], ◌∷◌, ◌++◌, some, length, length-append,
  arith, append_assoc,
}
use barbacoa_server_lib.Web.QueryString.{Field}
use barbacoa_server_lib.Web.TextStream.{Avoids, Avoids-append}
use barbacoa_server_lib.Web.HttpHeader.RoundTrip.{AreHeaders, header_text}
use barbacoa_server_lib.Web.HttpSession.Asio.{starts, find_text}
use barbacoa_server_lib.Web.HttpSession.Reading.{crlf, blank_line}

-- The last line before the empty one.
last_line :
    (line rest : List ℕ)
    → Avoids 10 line
    → find_text blank_line (line ++ (13 ∷ 10 ∷ 13 ∷ 10 ∷ rest)) ≡ some (length line)
unfolding find_text
last_line [] rest h = refl
last_line (c ∷ []) rest h = ground arith
last_line (c ∷ d ∷ line) rest h = rw (last_line (d ∷ line) rest h.1) (ground arith)

-- A line, and no empty one behind it.
earlier_line :
    (line rest : List ℕ) (i : ℕ)
    → Avoids 10 line
    → starts crlf rest ≡ false
    → find_text blank_line rest ≡ some i
    → find_text blank_line (line ++ (13 ∷ 10 ∷ rest)) ≡ some (length line + 2 + i)
unfolding find_text
earlier_line [] rest i h k e = rw (k, e) (ap some (omega arith))
earlier_line (c ∷ []) rest i h k e = rw (k, e) (ground arith)
earlier_line (c ∷ d ∷ line) rest i h k e =
    rw (earlier_line (d ∷ line) rest i h.1 k e) (ground arith)

-- A field's line is not empty.
starts-name : (name rest : List ℕ) → Avoids 10 name → starts crlf (name ++ (b':' ∷ rest)) ≡ false
starts-name [] rest h = refl
starts-name (c ∷ []) rest h = ground arith
starts-name (c ∷ d ∷ name) rest h = ground arith

pub header_text-length : (fields : List Field) → 2 + length fields ≤ length (header_text fields)
header_text-length [] = omega arith
header_text-length ((name, value) ∷ fields) = omega (
  arith,
  header_text-length fields,
  length-append {0} (name ++ (b':' ∷ b' ' ∷ (value ++ 13 ∷ []))) (10 ∷ header_text fields),
)

-- The empty line ends the header that write_header writes.
pub header_text-blank_line :
    (line : List ℕ) (fields : List Field) (rest : List ℕ)
    → Avoids 10 line
    → AreHeaders fields
    → find_text blank_line (line ++ (13 ∷ 10 ∷ (header_text fields ++ rest)))
      ≡ some (length line + length (header_text fields) - 2)
header_text-blank_line line [] rest h k = last_line line rest h ∙ ap some (omega arith)
header_text-blank_line line ((name, value) ∷ fields) rest h k =
    let inner = name ++ (b':' ∷ b' ' ∷ value) in
    let behind = 13 ∷ 10 ∷ (header_text fields ++ rest) in
    let split : header_text ((name, value) ∷ fields) ++ rest ≡ inner ++ behind =
      simp append_assoc in
    let part : inner ++ behind ≡ name ++ (b':' ∷ (b' ' ∷ (value ++ behind))) =
      append_assoc name (b':' ∷ b' ' ∷ value) behind in
    let not_empty : starts crlf (inner ++ behind) ≡ false =
      ap (starts crlf) part ∙ starts-name name (b' ' ∷ (value ++ behind)) k.1 in
    let later =
      header_text-blank_line inner fields rest
        (Avoids-append 10 name (b':' ∷ b' ' ∷ value) k.1 (refl, (refl, k.2))) k.4 in
    ap (λ t. find_text blank_line (line ++ (13 ∷ 10 ∷ t))) split
    ∙ earlier_line line (inner ++ behind) _ h not_empty later
    ∙ ap some (
        omega (
          arith,
          header_text-length fields,
          length-append {0} (name ++ (b':' ∷ b' ' ∷ (value ++ 13 ∷ []))) (10 ∷ header_text fields),
          length-append {0} name (b':' ∷ b' ' ∷ (value ++ 13 ∷ [])),
          length-append {0} name (b':' ∷ b' ' ∷ value),
          length-append {0} value (13 ∷ []),
        ))
