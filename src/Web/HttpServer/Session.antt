-- ===== src/Web/HttpServer/Session.antt =====
-- The handler of the server's read (src/network/web/http_server_impl.h): a request's header, and how its
-- content is read; and what is answered to a request that is refused.
use barbacoa_server_lib.Prelude.{
  ℕ, suc, true, false, ◌&&◌, List, [], Option, none, some, length, if◌then◌else◌, codes, bytes_eq,
}
use barbacoa_server_lib.Web.StatusCode.{HttpStatusCode}
use barbacoa_server_lib.Web.Request
use barbacoa_server_lib.Web.Request.{Request}
use barbacoa_server_lib.Web.Fields.{find, Pick}
use barbacoa_server_lib.Web.Numbers.{stoull}
use barbacoa_server_lib.Web.HttpSession.Asio.{Ec}
use barbacoa_server_lib.Web.HttpSession.Session.{
  Session, Wait, Errc, End, Next, minus_64, too_large, bad_protocol, is_full, success_or_not_found,
  if_success, fuel, read_body,
}

-- `__http_session(max_request_streambuf_size, connection, next_request_id)`, and the id that is next.
unfoldable pub new_session : ℕ → Session Request × ℕ
new_session next_request_id = (
  record {
    id = next_request_id;
    content = record { rest = []; eof = false };
    head = record { method = []; path = []; query_string = []; version = []; header = [] };
  },
  suc next_request_id,
)

-- The response that is posted before on_error is told.
unfoldable pub reply_to : Errc → Option HttpStatusCode
reply_to Errc.message_size = some HttpStatusCode.client_error_payload_too_large
reply_to Errc.protocol_error = none
reply_to Errc.operation_canceled = none
reply_to (Errc.code ec) = none

abbrev pub read_length : ℕ → Session Request → Option ℕ → Next Request
read_length num_additional_bytes s none = bad_protocol s
read_length num_additional_bytes s (some content_length) =
    read_body num_additional_bytes content_length s

abbrev pub read_encoding : Session Request → Option (List ℕ) → Next Request
read_encoding s none = Next.done (End.found s)
read_encoding s (some value) =
    if bytes_eq value (codes "chunked")
    then Next.wait (Wait.chunk_line []) s
    else Next.done (End.found s)

abbrev pub on_length_field : ℕ → Session Request → Option (List ℕ) → Option (List ℕ) → Next Request
on_length_field num_additional_bytes s none encoding = read_encoding s encoding
on_length_field num_additional_bytes s (some value) encoding =
    read_length num_additional_bytes s (stoull value)

-- Behind a header that was parsed.
unfoldable pub read_content : Pick → ℕ → Session Request → Next Request
unfolding find stoull
read_content pick num_additional_bytes s =
    on_length_field num_additional_bytes s (find pick (codes "Content-Length") s.head.header)
      (find pick (codes "Transfer-Encoding") s.head.header)

abbrev pub on_parsed : Pick → ℕ → Session Request → Option Request.Parsed → Next Request
on_parsed pick num_additional_bytes s none = Next.done End.hung
on_parsed pick num_additional_bytes s (some (false, r, t)) =
    bad_protocol (record s { content = t; head = r })
on_parsed pick num_additional_bytes s (some (true, r, t)) =
    read_content pick num_additional_bytes (record s { content = t; head = r })

-- The handler of `read`.
unfoldable pub on_header : Pick → ℕ → Ec → ℕ → Session Request → Next Request
unfolding Request.parse minus_64 read_content
on_header pick max ec bytes_transferred s =
    if success_or_not_found ec && is_full max s
    then too_large s
    else if_success ec s (
        on_parsed pick (minus_64 (length s.content.rest) bytes_transferred) s
          (Request.parse (fuel s) s.content s.head))
