-- ===== src/Web/HttpHeader/RoundTrip.antt =====
-- The header that write_header writes is parsed; and a line without an end makes the loop spin.
use barbacoa_server_lib.Prelude.{
  ℕ, zero, suc, ◌+◌, ◌<◌, ◌≡◌, ◌∙◌, ap, refl, true, false, List, [], ◌∷◌, ◌++◌, none, some, ◌==◌,
  length, drop, take_prefix, arith, append_assoc, append-nil,
}
use barbacoa_server_lib.Web.QueryString.{Field}
use barbacoa_server_lib.Web.TextStream.{
  TextStream, getline, find_char, Avoids, Avoids-append, find_char-first, find_char-none,
  getline-line, getline-unended,
}
use barbacoa_server_lib.Web.HttpHeader.{
  skip_blanks, drop_last, add_field, read_field, parse_lines, parse,
}

-- A value does not begin with a blank.
abbrev pub NoBlank : List ℕ → Type 0
NoBlank [] = Unit {0}
NoBlank (c ∷ cs) = (c == b' ') ≡ false

abbrev pub AreHeaders : List Field → Type 0
AreHeaders [] = Unit {0}
AreHeaders ((name, value) ∷ fields) =
    Avoids b':' name × Avoids 10 name × Avoids 10 value × NoBlank value × AreHeaders fields

-- A field without its line end's '\n'.
abbrev pub field_line : List ℕ → List ℕ → List ℕ
field_line name value = name ++ (b':' ∷ b' ' ∷ (value ++ 13 ∷ []))

-- The fields on lines, and the empty line.
abbrev pub header_text : List Field → List ℕ
header_text [] = 13 ∷ 10 ∷ []
header_text ((name, value) ∷ fields) = field_line name value ++ (10 ∷ header_text fields)

pub drop_last-snoc : (xs : List ℕ) (c : ℕ) → drop_last (xs ++ c ∷ []) ≡ xs
unfolding drop_last
drop_last-snoc [] c = refl
drop_last-snoc (x ∷ []) c = refl
drop_last-snoc (x ∷ y ∷ xs) c = ap (◌∷◌ x) (drop_last-snoc (y ∷ xs) c)

skip_blanks-value :
    (value : List ℕ) → NoBlank value → skip_blanks (b' ' ∷ (value ++ 13 ∷ [])) ≡ value ++ 13 ∷ []
unfolding skip_blanks
skip_blanks-value [] h = refl
skip_blanks-value (c ∷ []) h = rw h refl
skip_blanks-value (c ∷ d ∷ value) h = rw h refl

add_field-snoc :
    (fields : List Field) (name value : List ℕ)
    → add_field fields name (value ++ 13 ∷ []) ≡ fields ++ ((name, value) ∷ [])
unfolding add_field
add_field-snoc fields name [] = refl
add_field-snoc fields name (c ∷ value) =
    ap (λ v. fields ++ ((name, v) ∷ [])) (drop_last-snoc (c ∷ value) 13)

pub drop_past : (xs : List ℕ) (c : ℕ) (ys : List ℕ) → drop (length xs + 1) (xs ++ c ∷ ys) ≡ ys
drop_past [] c ys = refl
drop_past (x ∷ xs) c ys = ap (λ k. drop k (x ∷ (xs ++ c ∷ ys))) (shape xs) ∙ drop_past xs c ys
  where
    shape : (xs : List ℕ) → suc (length xs) + 1 ≡ suc (length xs + 1)
    shape xs = omega arith

read_field-line :
    (fields : List Field) (name value : List ℕ)
    → NoBlank value
    → read_field fields (field_line name value) (length name) ≡ fields ++ ((name, value) ∷ [])
unfolding read_field
read_field-line fields name value h =
    rw
      (
        take_prefix name (b':' ∷ b' ' ∷ (value ++ 13 ∷ [])),
        drop_past name b':' (b' ' ∷ (value ++ 13 ∷ [])),
        skip_blanks-value value h,
      )
      (add_field-snoc fields name value)

field_line-Avoids :
    (name value : List ℕ) → Avoids 10 name → Avoids 10 value → Avoids 10 (field_line name value)
field_line-Avoids name value h k =
    Avoids-append 10 name (b':' ∷ b' ' ∷ (value ++ 13 ∷ [])) h
      (refl, (refl, Avoids-append 10 value (13 ∷ []) k (refl, tt)))

abbrev pub text : List ℕ → TextStream
text bytes = record { rest = bytes; eof = false }

lines :
    (fields : List Field) (f : ℕ) (acc : List Field) (old body : List ℕ)
    → AreHeaders fields
    → length fields < f
    → parse_lines f acc (getline (text (header_text fields ++ body)) old)
      ≡ some (acc ++ fields, text body)
unfolding parse_lines
lines fields zero acc old body h k = absurd (omega arith)
lines [] (suc f) acc old body h k =
    ap (parse_lines (suc f) acc) (getline-line (13 ∷ []) body old (refl, tt))
    ∙ rw (find_char-none b':' (13 ∷ []) (refl, tt), append-nil acc) refl
lines ((name, value) ∷ fields) (suc f) acc old body h k =
    ap (λ s. parse_lines (suc f) acc (getline (text s) old))
      (append_assoc (field_line name value) (10 ∷ header_text fields) body)
    ∙ ap (parse_lines (suc f) acc) (
        getline-line (field_line name value) (header_text fields ++ body) old
          (field_line-Avoids name value h.1 h.2))
    ∙ step
    ∙ lines fields f (acc ++ ((name, value) ∷ [])) (field_line name value) body h.4 (omega arith)
    ∙ ap (λ fs. some (fs, text body)) (append_assoc acc ((name, value) ∷ []) fields)
  where
    step :
        parse_lines (suc f) acc (field_line name value, text (header_text fields ++ body))
        ≡ parse_lines f
            (acc ++ ((name, value) ∷ []))
            (getline (text (header_text fields ++ body)) (field_line name value))
    step =
        rw
          (
            find_char-first b':' name (b' ' ∷ (value ++ 13 ∷ [])) h.0,
            read_field-line acc name value h.3,
          )
          refl

-- Fields whose names have no colon and no line end and whose values have no line end and no blank at the
-- front, written on lines as write_header does, and the empty line behind them, are parsed into these
-- fields, with more fuel than fields; the stream is left at the body.
pub parse-header_text :
    (fields : List Field) (f : ℕ) (body : List ℕ)
    → AreHeaders fields
    → length fields < f
    → parse f (text (header_text fields ++ body)) ≡ some (fields, text body)
unfolding parse
parse-header_text fields f body h k = lines fields f [] [] body h k

spin :
    (f : ℕ) (acc : List Field) (line : List ℕ) (i : ℕ)
    → find_char b':' line ≡ some i
    → parse_lines f acc (line, record { rest = []; eof = true }) ≡ none
unfolding parse_lines getline
spin zero acc line i h = refl
spin (suc f) acc line i h = rw h (spin f (read_field acc line i) line i h)

-- A line that has a colon and no end, the last of its stream, is read again and again: the loop does not end on
-- any fuel.
pub unended_line_spins :
    (f : ℕ) (line : List ℕ) (i : ℕ)
    → Avoids 10 line
    → find_char b':' line ≡ some i
    → parse f (text line) ≡ none
unfolding parse
unended_line_spins f line i h k =
    ap (parse_lines f []) (getline-unended line [] h) ∙ spin f [] line i k
