-- ===== src/Web/HttpClient/RequestText.antt =====
-- parse_host_port, create_request_header and the content that request writes
-- (src/network/web/http_client_impl.h).
use barbacoa_server_lib.Prelude.{
  ℕ, ◌+◌, ◌%◌, ◌^◌, Bool, true, false, ◌&&◌, not, List, [], ◌∷◌, ◌++◌, Option, none, some, length,
  is_empty, take, drop, ◌==◌, if◌then◌else◌, codes, to_string, bytes_eq,
}
use barbacoa_server_lib.Web.QueryString.{Field}
use barbacoa_server_lib.Web.TextStream.{find_char}
use barbacoa_server_lib.Web.Fields.{find, Pick}
use barbacoa_server_lib.Web.Numbers.{stoull}

-- What the client knows of its server; `is_plain` is
-- `std::is_same<socket_type, asio::ip::tcp::socket>::value`.
pub record Server : Type 0 where
  pub host : List ℕ
  pub port : ℕ
  pub default_port : ℕ
  pub proxy_server : List ℕ
  pub is_plain : Bool

abbrev pub with_port : List ℕ → Option ℕ → Option (List ℕ × ℕ)
with_port host none = none
with_port host (some port) = some (host, port % 2 ^ 16)

abbrev pub split_at : List ℕ → ℕ → Option ℕ → Option (List ℕ × ℕ)
split_at host_port default_port none = some (host_port, default_port)
split_at host_port default_port (some host_end) =
    with_port (take host_end host_port) (stoull (drop (host_end + 1) host_port))

-- `none` is the throw of stoul; the port is cast to an unsigned short.
unfoldable pub parse_host_port : List ℕ → ℕ → Option (List ℕ × ℕ)
unfolding find_char stoull
parse_host_port host_port default_port = split_at host_port default_port (find_char b':' host_port)

abbrev pub crlf : List ℕ
crlf = 13 ∷ 10 ∷ []

unfoldable pub corrected_path : Server → List ℕ → List ℕ
corrected_path server path =
    let whole = if is_empty path then codes "/" else path in
    if not (is_empty server.proxy_server) && server.is_plain
    then codes "http://" ++ (server.host ++ (b':' ∷ (to_string server.port ++ whole)))
    else whole

unfoldable pub host_text : Server → List ℕ
host_text server =
    if server.port == server.default_port
    then server.host
    else server.host ++ (b':' ∷ to_string server.port)

-- The loop over the fields.
unfoldable pub field_text : List Field → List ℕ
field_text [] = []
field_text ((name, value) ∷ fields) = name ++ (b':' ∷ b' ' ∷ (value ++ (crlf ++ field_text fields)))

unfoldable pub create_request_header : Server → List ℕ → List ℕ → List Field → List ℕ
unfolding corrected_path host_text field_text
create_request_header server method path header =
    method
    ++ (b' '
        ∷ (corrected_path server path
            ++ (codes " HTTP/1.1"
                ++ (crlf
                    ++ (codes "Host: " ++ (host_text server ++ (crlf ++ field_text header)))))))

abbrev pub is_chunked : Option (List ℕ) → Bool
is_chunked none = false
is_chunked (some value) = bytes_eq value (codes "chunked")

abbrev pub has_length : Option (List ℕ) → Bool
has_length none = false
has_length (some value) = true

abbrev pub length_text : Bool → Bool → ℕ → List ℕ
length_text true chunked size = []
length_text false true size = []
length_text false false size = codes "Content-Length: " ++ (to_string size ++ crlf)

-- What `request` writes behind the fields.
unfoldable pub content_text : Pick → List Field → List ℕ → List ℕ
unfolding find
content_text pick header content =
    let sized =
      length_text (has_length (find pick (codes "Content-Length") header))
        (is_chunked (find pick (codes "Transfer-Encoding") header)) (length content) in
    (if is_empty content then [] else sized) ++ (crlf ++ content)

-- `request`, with a content that is a text or the bytes of a stream: what goes out.
unfoldable pub request_text : Pick → Server → List ℕ → List ℕ → List ℕ → List Field → List ℕ
unfolding create_request_header content_text
request_text pick server method path content header =
    create_request_header server method path header ++ content_text pick header content
