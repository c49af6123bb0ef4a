-- ===== src/Web/Request.antt =====
-- __http_request_message::parse (src/network/web/http_utility.h): the request line, and the header
-- behind it.
pub mod RoundTrip
use barbacoa_server_lib.Prelude.{
  ℕ, zero, suc, ◌+◌, ◌-◌, Bool, true, false, List, [], ◌∷◌, ◌++◌, Option, none, some, length, ltb,
  ◌==◌, ◌&&◌, if◌then◌else◌, substr, substr_end, drop, bytes_eq, codes,
}
use barbacoa_server_lib.Web.QueryString.{Field}
use barbacoa_server_lib.Web.TextStream.{TextStream, getline, find_char}
use barbacoa_server_lib.Web.HttpHeader

-- What `parse` writes to; the result says whether it returned true, and what is left of the stream.
pub record Request : Type 0 where
  pub method : List ℕ
  pub path : List ℕ
  pub query_string : List ℕ
  pub version : List ℕ
  pub header : List Field

abbrev pub Parsed : Type 0
Parsed = Bool × Request × TextStream

-- The loop over `i`: `query_start` and `path_and_query_string_end`. The list is the line from `i` on.
unfoldable pub scan_path : ℕ → List ℕ → ℕ → Option ℕ → Option ℕ × Option ℕ
scan_path size [] i query_start = (query_start, none)
scan_path size (c ∷ rest) i query_start =
    let later =
      scan_path size rest (i + 1)
        (if c == b'?' && ltb (i + 1) size then some (i + 1) else query_start) in
    if c == b' ' then (query_start, some i) else later

-- `line.find(c, pos)`
abbrev pub from_position : ℕ → Option ℕ → Option ℕ
from_position pos none = none
from_position pos (some i) = some (pos + i)

unfoldable pub find_from : ℕ → List ℕ → ℕ → Option ℕ
unfolding find_char
find_from c line pos = from_position pos (find_char c (drop pos line))

abbrev pub set_path : List ℕ → ℕ → Option ℕ → ℕ → Request → Request
set_path line method_end none end r = record r {
  path = substr line (method_end + 1) (end - method_end - 1);
}
set_path line method_end (some query_start) end r = record r {
  path = substr line (method_end + 1) (query_start - method_end - 2);
  query_string = substr line query_start (end - query_start);
}

abbrev pub with_header : Request → Option (List Field × TextStream) → Option Parsed
with_header r none = none
with_header r (some (fields, s)) = some (true, record r { header = fields }, s)

-- From `protocol_end` on.
abbrev pub read_version : ℕ → List ℕ → ℕ → Option ℕ → Request → TextStream → Option Parsed
read_version fuel line end none r s = some (false, r, s)
read_version fuel line end (some protocol_end) r s =
    let go =
      with_header
        (record r { version = substr line (protocol_end + 1) (length line - protocol_end - 2) })
        (HttpHeader.parse fuel s) in
    if bytes_eq (substr line (end + 1) (protocol_end - end - 1)) (codes "HTTP")
    then go
    else some (false, r, s)

abbrev pub read_target : ℕ → List ℕ → ℕ → Option ℕ × Option ℕ → Request → TextStream → Option Parsed
read_target fuel line method_end (query_start, none) r s = some (false, r, s)
read_target fuel line method_end (query_start, some end) r s =
    read_version fuel line end (find_from b'/' line (end + 1))
      (set_path line method_end query_start end r) s

abbrev pub read_method : ℕ → List ℕ → Option ℕ → Request → TextStream → Option Parsed
read_method fuel line none r s = some (false, r, s)
read_method fuel line (some method_end) r s =
    read_target fuel line method_end
      (scan_path (length line) (drop (method_end + 1) line) (method_end + 1) none)
      (record r { method = substr line 0 method_end }) s

abbrev pub read_line : ℕ → Request → List ℕ × TextStream → Option Parsed
read_line fuel r (line, s) = read_method fuel line (find_char b' ' line) r s

-- `parse` into the fields of `r`; the fuel is for the loop over the header.
unfoldable pub parse : ℕ → TextStream → Request → Option Parsed
unfolding getline find_char scan_path find_from HttpHeader.parse
parse fuel s r = read_line fuel (record r { header = [] }) (getline s [])
