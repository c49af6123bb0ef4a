-- ===== src/Web/HttpServer/Response.antt =====
-- server_base_impl::__http_response (src/network/web/http_server_impl.h): what `post` writes into the
-- stream buffer. Contents that come as a stream are the bytes of that stream.
pub mod Posted
use barbacoa_server_lib.Prelude.{
  ℕ, Bool, true, false, ◌&&◌, not, List, [], ◌∷◌, ◌++◌, length, is_empty, if◌then◌else◌, codes,
  to_string, ◌==◌,
}
use barbacoa_server_lib.Web.QueryString.{Field}
use barbacoa_server_lib.Web.Fields.{case_insensitive_equal}
use barbacoa_server_lib.Web.StatusCode.{HttpStatusCode}
use barbacoa_server_lib.Web.StatusCode.Lookup.{text_of_status}

pub record Response : Type 0 where
  pub streambuf : List ℕ
  pub close_connection_after_response : Bool

-- `__http_response(session, timeout_content)`
unfoldable pub new_response : Response
new_response = record { streambuf = []; close_connection_after_response = false }

-- `*this << bytes`
abbrev pub put : List ℕ → Response → Response
put bytes r = record r { streambuf = r.streambuf ++ bytes }

abbrev pub crlf : List ℕ
crlf = 13 ∷ 10 ∷ []

abbrev pub put_field : Field → Response → Response
put_field (name, value) r = put (name ++ (b':' ∷ b' ' ∷ (value ++ crlf))) r

-- The flags of the loop behind a field: `content_length_written` and `chunked_transfer_encoding`.
unfoldable pub seen : Bool × Bool → Field → Bool × Bool
unfolding case_insensitive_equal
seen (content_length, chunked) (name, value) =
    if not content_length && case_insensitive_equal name (codes "content-length")
    then (true, chunked)
    else (if not chunked
          && case_insensitive_equal name (codes "transfer-encoding")
          && case_insensitive_equal value (codes "chunked")
        then (content_length, true)
        else (content_length, chunked))

-- The end of `write_header`, behind the loop.
unfoldable pub end_header : Bool × Bool → ℕ → Response → Response
end_header (content_length, chunked) size r =
    if not content_length && not chunked && not r.close_connection_after_response
    then put (codes "Content-Length: " ++ (to_string size ++ (crlf ++ crlf))) r
    else put crlf r

unfoldable pub write_fields : Bool × Bool → List Field → ℕ → Response → Response
unfolding seen end_header
write_fields flags [] size r = end_header flags size r
write_fields flags (field ∷ fields) size r =
    write_fields (seen flags field) fields size (put_field field r)

unfoldable pub write_header : List Field → ℕ → Response → Response
unfolding write_fields
write_header header size r = write_fields (false, false) header size r

abbrev pub put_status : HttpStatusCode → Response → Response
put_status status r = put (codes "HTTP/1.1 " ++ (text_of_status status ++ crlf)) r

-- `post(status_code, header)`
unfoldable pub post_status : HttpStatusCode → List Field → Response → Response
unfolding write_header text_of_status
post_status status header r = write_header header 0 (put_status status r)

abbrev pub put_content : List ℕ → Response → Response
put_content content r = if is_empty content then r else put content r

-- `post(status_code, content, header)`
unfoldable pub post_content : HttpStatusCode → List ℕ → List Field → Response → Response
unfolding write_header text_of_status
post_content status content header r =
    put_content content (write_header header (length content) (put_status status r))

-- `post(status_code, std::istream& content, header)`
unfoldable pub post_stream : HttpStatusCode → List ℕ → List Field → Response → Response
unfolding write_header text_of_status
post_stream status content header r =
    let written = write_header header (length content) (put_status status r) in
    if length content == 0 then written else put content written

-- `post(content, header)`
unfoldable pub post_ok : List ℕ → List Field → Response → Response
unfolding post_content
post_ok content header r = post_content HttpStatusCode.success_ok content header r

-- `post(std::istream& content, header)`
unfoldable pub post_ok_stream : List ℕ → List Field → Response → Response
unfolding post_stream
post_ok_stream content header r = post_stream HttpStatusCode.success_ok content header r

-- `post(header)`
unfoldable pub post_ok_header : List Field → Response → Response
unfolding post_content
post_ok_header header r = post_content HttpStatusCode.success_ok [] header r

unfoldable pub close_connection_after_response : Response → Response
close_connection_after_response r = record r { close_connection_after_response = true }

unfoldable pub content_size : Response → ℕ
content_size r = length r.streambuf
