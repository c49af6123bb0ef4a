-- ===== src/Tests/Http.antt =====
-- Concrete runs of the HTTP sessions.
use barbacoa_server_lib.Prelude.{
  ℕ, ◌<◌, ◌≡◌, refl, false, inr, List, [], ◌∷◌, ◌++◌, some, codes, arith, length, returned,
  bytes_eq, Bool, true, ◌||◌, ◌&&◌, ◌∙◌, ap, if◌then◌else◌,
}
use barbacoa_server_lib.Web.TextStream.{avoids, avoids-Avoids}
use barbacoa_server_lib.Web.Request.{Request}
use barbacoa_server_lib.Web.Numbers.{stoul_16}
use barbacoa_server_lib.Web.HttpSession.Asio.{Ec, find_text}
use barbacoa_server_lib.Web.HttpSession.Session.{Wait, End}
use barbacoa_server_lib.Web.HttpSession.Reading.{run, blank_line}
use barbacoa_server_lib.Web.HttpSession.ChunkSteps.{with_bytes}
use barbacoa_server_lib.Web.HttpSession.Chunked.{Chunk, chunked_text}
use barbacoa_server_lib.Web.HttpServer.Response.{new_response}
use barbacoa_server_lib.Web.HttpServer.Session.{new_session, on_header}
use barbacoa_server_lib.Web.HttpServer.Requests.{IsWritable, head, session_with, chunked_request}
use barbacoa_server_lib.Web.Fields.{some_value, equal_range, case_insensitive_equal}
use barbacoa_server_lib.Web.HttpServer.Dispatch.{
  Callback, Action, find_method, find_route, first_resource,
}
use barbacoa_server_lib.Web.HttpServer.KeepAlive.{
  AfterSend, again, on_sent, is_persistent, IsOrder, is_close, is_keep_alive, on_sent-is_persistent,
}
use barbacoa_server_lib.Web.HttpServer.HeaderEnds.{is_hung, header_never_hangs}
use barbacoa_server_lib.Tests.Transport.{
  pick_last, pick_last-IsPick, no_blank, are_headers, are_headers-AreHeaders, target, all_at_once,
  all_at_once-IsDocumented,
}

abbrev chunked_head : Request
chunked_head = record {
  method = codes "POST";
  path = codes "/a";
  query_string = codes "k=v";
  version = codes "1.1";
  header = (codes "Transfer-Encoding", codes "chunked") ∷ [];
}

abbrev two_chunks : List Chunk
two_chunks = (codes "3", codes "abc") ∷ (codes "0002;x", codes "de") ∷ []

chunked_head-IsWritable : IsWritable chunked_head
unfolding avoids are_headers no_blank
chunked_head-IsWritable = record {
  method_word = avoids-Avoids b' ' (codes "POST") refl;
  method_line = avoids-Avoids 10 (codes "POST") refl;
  path_target = target (codes "/a") refl refl refl;
  query_target = target (codes "k=v") refl refl refl;
  version_line = avoids-Avoids 10 (codes "1.1") refl;
  header_lines = are_headers-AreHeaders chunked_head.header refl;
}

sizes :
    (stoul_16 (codes "3") ≡ some 3)
    × (stoul_16 (codes "0002;x") ≡ some 2)
    × (stoul_16 (codes "0") ≡ some 0)
unfolding stoul_16
sizes = (refl, refl, refl)

fields_found :
    (equal_range (codes "Content-Length") chunked_head.header ≡ [])
    × (equal_range (codes "Transfer-Encoding") chunked_head.header ≡ codes "chunked" ∷ [])
unfolding equal_range
fields_found = (refl, refl)

chunked_wire : List ℕ
chunked_wire = head chunked_head ++ chunked_text two_chunks (codes "0") (codes "GET")

wire_length : length chunked_wire < 200
unfolding chunked_wire
wire_length = omega arith

chunked_request_example :
    (m : List ℕ) × (wire' : List ℕ) × (run
        (on_header pick_last)
        all_at_once
        200
        7
        Wait.header
        (new_session 5).0
        chunked_wire
      ≡ some (End.found (session_with 5 chunked_head (m ++ codes "abcde")), wire'))
    × (codes "GET" ≡ m ++ wire')
unfolding chunked_wire
chunked_request_example =
    chunked_request pick_last all_at_once all_at_once-IsDocumented 200 5 chunked_head
      chunked_head-IsWritable chunked_wire (codes "GET") (codes "0") two_chunks 7 pick_last-IsPick
      fields_found.0 fields_found.1
      (
        (refl, tt),
        sizes.0,
        omega arith,
        ((refl, (refl, (refl, (refl, (refl, (refl, tt)))))), sizes.1, omega arith, tt),
      )
      (refl, tt) sizes.2 (omega arith) wire_length refl (omega arith)

blank_there : find_text blank_line (codes "GET\r\n\r\n") ≡ some 3
unfolding find_text
blank_there = refl

header_never_hangs_example :
    is_hung
      (on_header pick_last 100 Ec.success 7 (with_bytes (new_session 1).0 (codes "GET\r\n\r\n")))
    ≡ false
header_never_hangs_example =
    header_never_hangs pick_last 100 7 Ec.success (new_session 1).0 (codes "GET\r\n\r\n") 3
      blank_there

-- The first resource fits by its method only, the second by both.
abbrev answer : Callback
answer = λ s r. returned r

abbrev by_path : List ℕ → List ℕ → Bool
by_path regex path = bytes_eq regex path

get_there : find_method (codes "POST") ((codes "POST", answer) ∷ []) ≡ some answer
unfolding find_method
get_there = refl

first_resource_example :
    find_route
      (List ℕ)
      by_path
      ((codes "/b", (codes "POST", answer) ∷ []) ∷ (codes "/a", (codes "POST", answer) ∷ []) ∷ [])
      []
      chunked_head
    ≡ Action.call (some (codes "/a")) answer
first_resource_example =
    first_resource (List ℕ) by_path ((codes "/b", (codes "POST", answer) ∷ []) ∷ []) [] (codes "/a")
      ((codes "POST", answer) ∷ []) [] answer chunked_head (inr refl, tt) (get_there, refl)

abbrev backwards : List (List ℕ) → List (List ℕ)
backwards [] = []
backwards (v ∷ values) = backwards values ++ v ∷ []

some_value-append :
    (is_it : List ℕ → Bool) (values : List (List ℕ)) (v : List ℕ)
    → some_value is_it (values ++ v ∷ []) ≡ is_it v || some_value is_it values
some_value-append is_it [] v = refl
some_value-append is_it (w ∷ values) v =
    rw (some_value-append is_it values v) (either (is_it w) (is_it v) _)
  where
    either : (a b c : Bool) → (a || (b || c)) ≡ (b || (a || c))
    either true true c = refl
    either true false c = refl
    either false b c = refl

backwards-IsOrder : IsOrder backwards
backwards-IsOrder is_it [] = refl
backwards-IsOrder is_it (v ∷ values) =
    some_value-append is_it (backwards values) v
    ∙ ap (λ b. is_it v || b) (backwards-IsOrder is_it values)

abbrev twice_closed : Request
twice_closed = record chunked_head {
  header = (codes "Connection", codes "close") ∷ (codes "connection", codes "Close") ∷ [];
}

closed_only :
    some_value is_close (equal_range (codes "Connection") twice_closed.header)
      && some_value is_keep_alive (equal_range (codes "Connection") twice_closed.header)
    ≡ false
unfolding equal_range case_insensitive_equal
closed_only = refl

on_sent-is_persistent_example :
    on_sent backwards Ec.success new_response (session_with 5 twice_closed []) 6 ≡ (
      if is_persistent (equal_range (codes "Connection") twice_closed.header) (codes "1.1")
      then again 6
      else AfterSend.let_go)
on_sent-is_persistent_example =
    on_sent-is_persistent backwards new_response (session_with 5 twice_closed []) 6
      backwards-IsOrder (unfold new_response in refl) closed_only
