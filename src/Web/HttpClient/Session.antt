-- ===== src/Web/HttpClient/Session.antt =====
-- The handler of the client's read (src/network/web/http_client_impl.h): a response's header, and how its
-- content is read.
use barbacoa_server_lib.Prelude.{
  ℕ, Bool, true, false, ◌&&◌, ◌||◌, not, List, [], Option, none, some, length, if◌then◌else◌, codes,
  bytes_eq,
}
use barbacoa_server_lib.Web.Response
use barbacoa_server_lib.Web.Response.{Response}
use barbacoa_server_lib.Web.Fields.{find, Pick}
use barbacoa_server_lib.Web.Numbers.{stoull}
use barbacoa_server_lib.Web.HttpServer.KeepAlive.{string_ge}
use barbacoa_server_lib.Web.HttpSession.Session as Common
use barbacoa_server_lib.Web.HttpSession.Chunks
use barbacoa_server_lib.Web.HttpSession.Asio.{Ec}
use barbacoa_server_lib.Web.HttpSession.Session.{
  Session, Wait, End, Next, minus_64, too_large, bad_protocol, is_full, success_or_not_found,
  if_success, fuel, read_body,
}

-- `__http_session(max_response_streambuf_size, connection, request_streambuf)`: its response, on the connection
-- with this id.
unfoldable pub new_session : ℕ → Session Response
new_session connection = record {
  id = connection;
  content = record { rest = []; eof = false };
  head = record { version = []; status_code = []; header = [] };
}

-- `stoull` is not caught in the handler.
abbrev pub read_length : ℕ → Session Response → Option ℕ → Next Response
read_length num_additional_bytes s none = Next.done End.thrown
read_length num_additional_bytes s (some content_length) =
    read_body num_additional_bytes content_length s

abbrev pub is_value : Option (List ℕ) → List ℕ → Bool
is_value none word = false
is_value (some value) word = bytes_eq value word

-- Without a Content-Length.
abbrev pub read_unsized : Session Response → Option (List ℕ) → Option (List ℕ) → Next Response
read_unsized s encoding session =
    if is_value encoding (codes "chunked")
    then Next.wait (Wait.chunk_line []) s
    else (if not (string_ge s.head.version (codes "1.1")) || is_value session (codes "close")
        then Next.wait Wait.until_eof s
        else Next.done (End.found s))

abbrev pub on_length_field :
    ℕ → Session Response → Option (List ℕ) → Option (List ℕ) → Option (List ℕ) → Next Response
on_length_field num_additional_bytes s none encoding session = read_unsized s encoding session
on_length_field num_additional_bytes s (some value) encoding session =
    read_length num_additional_bytes s (stoull value)

-- Behind a header that was parsed.
unfoldable pub read_content : Pick → ℕ → Session Response → Next Response
unfolding find stoull string_ge
read_content pick num_additional_bytes s =
    on_length_field num_additional_bytes s (find pick (codes "Content-Length") s.head.header)
      (find pick (codes "Transfer-Encoding") s.head.header)
      (find pick (codes "Session") s.head.header)

abbrev pub on_parsed : Pick → ℕ → Session Response → Option Response.Parsed → Next Response
on_parsed pick num_additional_bytes s none = Next.done End.hung
on_parsed pick num_additional_bytes s (some (false, r, t)) =
    bad_protocol (record s { content = t; head = r })
on_parsed pick num_additional_bytes s (some (true, r, t)) =
    read_content pick num_additional_bytes (record s { content = t; head = r })

-- The handler of `read`; what a failed read of the header does to the connections is in Pool.
unfoldable pub on_header : Pick → ℕ → Ec → ℕ → Session Response → Next Response
unfolding Response.parse minus_64 read_content
on_header pick max ec bytes_transferred s =
    if success_or_not_found ec && is_full max s
    then too_large s
    else if_success ec s (
        on_parsed pick (minus_64 (length s.content.rest) bytes_transferred) s
          (Response.parse (fuel s) s.content s.head))

-- The handlers of the content's reads are written as the server's are: of a content of known size,
unfoldable pub on_body : ℕ → Ec → Session Response → Next Response
unfolding Common.on_body
on_body max ec s = Common.on_body max ec s

-- of a chunk's line,
unfoldable pub on_chunk_line : ℕ → List ℕ → Ec → ℕ → Session Response → Next Response
unfolding Chunks.on_chunk_line
on_chunk_line max chunks ec bytes_transferred s =
    Chunks.on_chunk_line max chunks ec bytes_transferred s

-- and of a chunk's data.
unfoldable pub read_chunk : ℕ → List ℕ → ℕ → Session Response → Next Response
unfolding Chunks.read_chunk
read_chunk max chunks size s = Chunks.read_chunk max chunks size s
