-- ===== src/Tests/Web.antt =====
-- Concrete HTTP texts.
use barbacoa_server_lib.Prelude.{
  ◌≡◌, ◌≢◌, refl, true, List, [], ◌∷◌, ◌++◌, none, some, codes, arith,
}
use barbacoa_server_lib.Web.Percent.{encode, decode}
use barbacoa_server_lib.Web.Percent.RoundTrip.{decode-encode}
use barbacoa_server_lib.Web.QueryString
use barbacoa_server_lib.Web.QueryString.{Field, create}
use barbacoa_server_lib.Web.QueryString.RoundTrip.{parse-create}
use barbacoa_server_lib.Web.TextStream.{find_char}
use barbacoa_server_lib.Web.HttpHeader
use barbacoa_server_lib.Web.HttpHeader.RoundTrip.{
  text, header_text, parse-header_text, unended_line_spins,
}
use barbacoa_server_lib.Web.Request
use barbacoa_server_lib.Web.Request.{Request}
use barbacoa_server_lib.Web.Request.RoundTrip.{request_line, parse-request_line}
use barbacoa_server_lib.Web.Response
use barbacoa_server_lib.Web.Response.{Response}
use barbacoa_server_lib.Web.Response.StatusLine.{status_line, parse-status_line}
use barbacoa_server_lib.Web.StatusCode.{HttpStatusCode}
use barbacoa_server_lib.Web.StatusCode.Lookup.{
  status_of_text, text_of_status, status_of_text-text_of_status,
}

decode-encode_example : decode (encode (codes "a b&c")) ≡ codes "a b&c"
decode-encode_example =
    decode-encode (codes "a b&c")
      (omega arith, (omega arith, (omega arith, (omega arith, (omega arith, tt)))))

abbrev one_field : List Field
one_field = (codes "k", codes "=&") ∷ []

parse-create_example : QueryString.parse (create one_field) ≡ one_field
parse-create_example =
    parse-create one_field (refl, (refl, refl, tt), (omega arith, (omega arith, tt)), tt)

abbrev host_field : List Field
host_field = (codes "Host", codes "a") ∷ []

parse-header_text_example :
    HttpHeader.parse 2 (text (header_text host_field ++ codes "body"))
    ≡ some (host_field, text (codes "body"))
parse-header_text_example =
    parse-header_text host_field 2 (codes "body")
      ((refl, (refl, (refl, (refl, tt)))), (refl, (refl, (refl, (refl, tt)))), (refl, tt), refl, tt)
      (omega arith)

colon_at : find_char b':' (codes "a:b") ≡ some 1
unfolding find_char
colon_at = refl

unended_line_spins_example : HttpHeader.parse 100 (text (codes "a:b")) ≡ none
unended_line_spins_example =
    unended_line_spins 100 (codes "a:b") 1 (refl, (refl, (refl, tt))) colon_at

abbrev new_request : Request
new_request = record { method = []; path = []; query_string = []; version = []; header = [] }

parse-request_line_example :
    Request.parse 2
      (text (
        request_line (codes "GET") (codes "/a") (codes "k=v") (codes "1.1")
        ++ (10 ∷ (header_text host_field ++ codes "body"))))
      new_request
    ≡ some (
      true,
      record {
        method = codes "GET";
        path = codes "/a";
        query_string = codes "k=v";
        version = codes "1.1";
        header = host_field;
      },
      text (codes "body"),
    )
parse-request_line_example =
    parse-request_line (codes "GET") (codes "/a") (codes "k=v") (codes "1.1") host_field
      (codes "body") 2 new_request (refl, (refl, (refl, tt))) (refl, (refl, (refl, tt)))
      (record {
        no_blank = (refl, (refl, tt));
        no_mark = (refl, (refl, tt));
        no_end = (refl, (refl, tt));
      })
      (record {
        no_blank = (refl, (refl, (refl, tt)));
        no_mark = (refl, (refl, (refl, tt)));
        no_end = (refl, (refl, (refl, tt)));
      })
      (refl, (refl, (refl, tt)))
      ((refl, (refl, (refl, (refl, tt)))), (refl, (refl, (refl, (refl, tt)))), (refl, tt), refl, tt)
      (omega arith)

status_of_text-text_of_status_example :
    status_of_text (text_of_status HttpStatusCode.client_error_not_found)
    ≡ HttpStatusCode.client_error_not_found
status_of_text-text_of_status_example =
    status_of_text-text_of_status HttpStatusCode.client_error_not_found

ok_is_known : HttpStatusCode.success_ok ≢ HttpStatusCode.unknown
ok_is_known h = cc

abbrev new_response : Response
new_response = record { version = []; status_code = []; header = [] }

parse-status_line_example :
    Response.parse 2
      (text (
        status_line (codes "1.1") (codes "200 OK")
        ++ (10 ∷ (header_text host_field ++ codes "body"))))
      new_response
    ≡ some (
      true,
      record { version = codes "1.1"; status_code = codes "200 OK"; header = host_field },
      text (codes "body"),
    )
parse-status_line_example =
    parse-status_line (codes "1.1") (codes "200 OK") host_field (codes "body") 2 new_response
      (refl, (refl, (refl, tt))) (refl, (refl, (refl, tt))) (omega arith)
      (refl, (refl, (refl, (refl, (refl, (refl, tt))))))
      ((refl, (refl, (refl, (refl, tt)))), (refl, (refl, (refl, (refl, tt)))), (refl, tt), refl, tt)
      (omega arith)
