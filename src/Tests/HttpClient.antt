-- ===== src/Tests/HttpClient.antt =====
-- Concrete runs of the HTTP client against the server.
use barbacoa_server_lib.Prelude.{
  ℕ, ◌<◌, ◌≤◌, ◌≡◌, refl, true, false, List, [], ◌∷◌, ◌++◌, some, codes, arith, length, to_string,
}
use barbacoa_server_lib.Web.QueryString.{Field}
use barbacoa_server_lib.Web.HttpHeader.RoundTrip.{AreHeaders}
use barbacoa_server_lib.Web.TextStream.{avoids, avoids-Avoids}
use barbacoa_server_lib.Web.StatusCode.{HttpStatusCode}
use barbacoa_server_lib.Web.StatusCode.Lookup.{text_of_status}
use barbacoa_server_lib.Web.Fields.{find, equal_range, case_insensitive_equal}
use barbacoa_server_lib.Web.HttpSession.Session.{Wait, End}
use barbacoa_server_lib.Web.HttpSession.Reading.{run}
use barbacoa_server_lib.Web.HttpServer.Response.{post_content, new_response}
use barbacoa_server_lib.Web.HttpServer.Response.Posted.{sized, AreUnsized}
use barbacoa_server_lib.Web.HttpServer.Session as ServerSession
use barbacoa_server_lib.Web.HttpClient.Session as ClientSession
use barbacoa_server_lib.Web.HttpClient.Pool
use barbacoa_server_lib.Web.HttpClient.Pool.{Event, idle, at_most_one_idle}
use barbacoa_server_lib.Web.HttpClient.RequestText.{
  create_request_header, content_text, corrected_path, field_text, Server, host_text, request_text,
}
use barbacoa_server_lib.Web.HttpClient.Served.{meant, request_served}
use barbacoa_server_lib.Web.HttpClient.Responses
use barbacoa_server_lib.Web.HttpClient.Responses.{response_received}
use barbacoa_server_lib.Web.HttpServer.Requests.{session_with}
use barbacoa_server_lib.Tests.Transport.{
  pick_last, pick_last-IsPick, no_blank, are_headers, are_headers-AreHeaders, target, all_at_once,
  all_at_once-IsDocumented,
}

abbrev local : Server
local = record {
  host = codes "h";
  port = 80;
  default_port = 80;
  proxy_server = [];
  is_plain = true;
}

local_host : host_text local ≡ codes "h"
unfolding host_text
local_host = refl

abbrev accept_field : List Field
accept_field = (codes "Accept", codes "b") ∷ []

accept_AreHeaders : AreHeaders accept_field
unfolding avoids are_headers no_blank
accept_AreHeaders = are_headers-AreHeaders accept_field refl

accept_field-AreUnsized : AreUnsized accept_field
accept_field-AreUnsized = unfold case_insensitive_equal in (refl, refl, tt)

local_fields-AreHeaders : AreHeaders ((codes "Host", host_text local) ∷ accept_field)
unfolding host_text avoids are_headers no_blank
local_fields-AreHeaders = are_headers-AreHeaders ((codes "Host", codes "h") ∷ accept_field) refl

abbrev served_wire : List ℕ
served_wire =
    request_text pick_last local (codes "POST") (codes "/a" ++ (b'?' ∷ codes "k=v")) (codes "body")
      accept_field
    ++ codes "GET"

served_length : length served_wire < 300
unfolding request_text create_request_header content_text corrected_path host_text field_text
    to_string find equal_range
served_length = omega arith

request_served_example :
    (m : List ℕ) × (wire' : List ℕ) × (run
        (ServerSession.on_header pick_last)
        all_at_once
        300
        2
        Wait.header
        (ServerSession.new_session 1).0
        served_wire
      ≡ some (
        End.found (
            session_with 1
              (meant local (codes "POST") (codes "/a") (codes "k=v") accept_field 4)
              (codes "body" ++ m)),
        wire',
      ))
    × (codes "GET" ≡ m ++ wire')
unfolding avoids
request_served_example =
    request_served pick_last all_at_once 300 1 local (codes "POST") (codes "/a") (codes "k=v")
      (codes "body") accept_field served_wire (codes "GET") 0 pick_last-IsPick
      all_at_once-IsDocumented refl (omega arith) (omega arith)
      (avoids-Avoids b' ' (codes "POST") refl) (avoids-Avoids 10 (codes "POST") refl)
      (target (codes "/a") refl refl refl) (target (codes "k=v") refl refl refl)
      local_fields-AreHeaders accept_field-AreUnsized served_length refl

posted_wire : List ℕ
unfolding post_content
posted_wire =
    (post_content HttpStatusCode.client_error_not_found (codes "body") accept_field
      new_response).streambuf
    ++ codes "HTTP"

posted_length : length posted_wire < 300
unfolding posted_wire to_string new_response
posted_length = omega arith

response_received_example :
    (m : List ℕ) × (wire' : List ℕ) × (run
        (ClientSession.on_header pick_last)
        all_at_once
        300
        2
        Wait.header
        (ClientSession.new_session 1)
        posted_wire
      ≡ some (
        End.found (
            Responses.session_with 1
              (record {
                version = codes "1.1";
                status_code = text_of_status HttpStatusCode.client_error_not_found;
                header = sized accept_field 4;
              })
              (codes "body" ++ m)),
        wire',
      ))
    × (codes "HTTP" ≡ m ++ wire')
unfolding posted_wire
response_received_example =
    response_received pick_last pick_last-IsPick all_at_once all_at_once-IsDocumented 300 1
      HttpStatusCode.client_error_not_found (codes "body") accept_field posted_wire (codes "HTTP") 0
      accept_AreHeaders accept_field-AreUnsized (omega arith) posted_length refl

at_most_one_idle_example :
    idle
      (Pool.run (
        Event.ended false 1 ∷ Event.ended false 0 ∷ Event.request ∷ Event.request ∷ [])).connections
    ≤ 1
at_most_one_idle_example =
    at_most_one_idle
      (Event.ended false 1 ∷ Event.ended false 0 ∷ Event.request ∷ Event.request ∷ [])
