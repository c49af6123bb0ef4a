-- ===== src/Web/HttpHeader.antt =====
-- http_header::parse (include/server_lib/network/web/web_entities.h).
pub mod RoundTrip
use barbacoa_server_lib.Prelude.{
  ℕ, zero, suc, ◌+◌, ◌-◌, List, [], ◌∷◌, ◌++◌, Option, none, some, ◌==◌, if◌then◌else◌, length,
  take, drop, Bool, true, false,
}
use barbacoa_server_lib.Web.QueryString.{Field}
use barbacoa_server_lib.Web.TextStream.{TextStream, getline, find_char}

-- `value_start` past the blanks, as the rest of the line from there; the last character stays.
unfoldable pub skip_blanks : List ℕ → List ℕ
skip_blanks [] = []
skip_blanks (c ∷ []) = c ∷ []
skip_blanks (c ∷ d ∷ rest) = if c == b' ' then skip_blanks (d ∷ rest) else c ∷ d ∷ rest

unfoldable pub drop_last : List ℕ → List ℕ
drop_last [] = []
drop_last (c ∷ []) = []
drop_last (c ∷ d ∷ rest) = c ∷ drop_last (d ∷ rest)

-- `emplace`, if a value is there; its last character is the '\r'.
unfoldable pub add_field : List Field → List ℕ → List ℕ → List Field
unfolding drop_last
add_field fields name [] = fields
add_field fields name (c ∷ value) = fields ++ ((name, drop_last (c ∷ value)) ∷ [])

-- A line with its colon at `param_end`.
unfoldable pub read_field : List Field → List ℕ → ℕ → List Field
unfolding skip_blanks add_field
read_field fields line param_end =
    add_field fields (take param_end line) (skip_blanks (drop (param_end + 1) line))

abbrev pub on_colon :
    (ℕ → Option (List Field × TextStream))
    → List Field × TextStream
    → Option ℕ
    → Option (List Field × TextStream)
on_colon go done none = some done
on_colon go done (some param_end) = go param_end

-- The `while`, with fuel; `none` is a loop that has not ended.
unfoldable pub parse_lines : ℕ → List Field → List ℕ × TextStream → Option (List Field × TextStream)
unfolding read_field
parse_lines zero fields (line, s) = none
parse_lines (suc fuel) fields (line, s) =
    on_colon (λ param_end. parse_lines fuel (read_field fields line param_end) (getline s line))
      (fields, s) (find_char b':' line)

unfoldable pub parse : ℕ → TextStream → Option (List Field × TextStream)
unfolding parse_lines
parse fuel s = parse_lines fuel [] (getline s [])
