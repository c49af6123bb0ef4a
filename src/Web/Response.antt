-- ===== src/Web/Response.antt =====
-- __http_response_message::parse (src/network/web/http_utility.h): the status line, and the header
-- behind it.
pub mod StatusLine
use barbacoa_server_lib.Prelude.{
  ℕ, ◌+◌, ◌-◌, ◌%◌, ◌^◌, Bool, true, false, List, [], ◌∷◌, Option, none, some, length, ltb,
  if◌then◌else◌, substr,
}
use barbacoa_server_lib.Web.QueryString.{Field}
use barbacoa_server_lib.Web.TextStream.{TextStream, getline, find_char}
use barbacoa_server_lib.Web.HttpHeader

-- What `parse` writes to; the result says whether it returned true, and what is left of the stream.
pub record Response : Type 0 where
  pub version : List ℕ
  pub status_code : List ℕ
  pub header : List Field

abbrev pub Parsed : Type 0
Parsed = Bool × Response × TextStream

-- `version_end - 5` on size_t.
unfoldable pub version_size : ℕ → ℕ
version_size version_end = (version_end + 2 ^ 64 - 5) % 2 ^ 64

abbrev pub with_header : Response → Option (List Field × TextStream) → Option Parsed
with_header r none = none
with_header r (some (fields, s)) = some (true, record r { header = fields }, s)

unfoldable pub read_status : ℕ → List ℕ → ℕ → Response → TextStream → Option Parsed
unfolding HttpHeader.parse
read_status fuel line version_end r s =
    let go =
      with_header
        (record r {
          status_code = substr line (version_end + 1) (length line - (version_end + 1) - 1);
        })
        (HttpHeader.parse fuel s) in
    if ltb (version_end + 1) (length line) then go else some (false, r, s)

unfoldable pub read_version : ℕ → List ℕ → Option ℕ → Response → TextStream → Option Parsed
unfolding read_status version_size
read_version fuel line none r s = some (false, r, s)
read_version fuel line (some version_end) r s =
    let go =
      read_status fuel line version_end
        (record r { version = substr line 5 (version_size version_end) }) s in
    if ltb 5 (length line) then go else some (false, r, s)

abbrev pub read_line : ℕ → Response → List ℕ × TextStream → Option Parsed
read_line fuel r (line, s) = read_version fuel line (find_char b' ' line) r s

-- `parse` into the fields of `r`; the fuel is for the loop over the header.
unfoldable pub parse : ℕ → TextStream → Response → Option Parsed
unfolding getline find_char read_version
parse fuel s r = read_line fuel (record r { header = [] }) (getline s [])
