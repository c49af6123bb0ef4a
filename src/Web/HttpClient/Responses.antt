-- ===== src/Web/HttpClient/Responses.antt =====
-- A response that the server posts arrives at the client as it was posted, whatever the reads deliver at a
-- time (src/network/web/http_client_impl.h, src/network/web/http_server_impl.h).
use barbacoa_server_lib.Prelude.{
  ℕ, suc, ◌+◌, ◌-◌, ◌^◌, ◌<◌, ◌≤◌, ◌≡◌, ◌∙◌, ap, sym, refl, List, [], ◌∷◌, ◌++◌, none, some, length,
  length-append, arith, append_assoc, codes, to_string, lt→not_eq,
}
use barbacoa_server_lib.Web.QueryString.{Field}
use barbacoa_server_lib.Web.TextStream.{Avoids}
use barbacoa_server_lib.Web.HttpHeader.RoundTrip.{text, AreHeaders, header_text}
use barbacoa_server_lib.Web.Response
use barbacoa_server_lib.Web.Response.{Response}
use barbacoa_server_lib.Web.Response.StatusLine.{status_line, parse-status_line}
use barbacoa_server_lib.Web.StatusCode.{HttpStatusCode}
use barbacoa_server_lib.Web.StatusCode.Lookup.{text_of_status}
use barbacoa_server_lib.Web.Fields.{case_insensitive_equal, find, equal_range, Pick, IsPick}
use barbacoa_server_lib.Web.Fields.Found.{
  case_insensitive_equal-lower, equal_range-last, find-none, find-only,
}
use barbacoa_server_lib.Web.Numbers.Printed.{stoull-to_string}
use barbacoa_server_lib.Web.HttpServer.Response.{post_content, new_response}
use barbacoa_server_lib.Web.HttpServer.Response.Posted.{
  AreUnsized, sized, posted, text_of_status-Avoids, sized-AreHeaders,
}
use barbacoa_server_lib.Web.HttpSession.Asio.{Asio, IsDocumented, Ec, find_text}
use barbacoa_server_lib.Web.HttpSession.Session.{Session, Wait, End, read_body}
use barbacoa_server_lib.Web.HttpSession.ChunkSteps.{with_bytes}
use barbacoa_server_lib.Web.HttpSession.BlankLine.{header_text-blank_line, header_text-length}
use barbacoa_server_lib.Web.HttpSession.Body.{additional_bytes, header_read, content_read}
use barbacoa_server_lib.Web.HttpSession.Reading.{blank_line, run}
use barbacoa_server_lib.Web.HttpClient.Session.{new_session, read_content, on_header}

equal_range-unsized :
    (header : List Field) → AreUnsized header → equal_range (codes "Content-Length") header ≡ []
unfolding equal_range
equal_range-unsized [] h = refl
equal_range-unsized ((name, value) ∷ header) h =
    rw (sym (case_insensitive_equal-lower name (codes "Content-Length")), h.0)
      (equal_range-unsized header h.2)

pub find-unsized :
    (pick : Pick) (header : List Field)
    → IsPick pick
    → AreUnsized header
    → find pick (codes "Content-Length") header ≡ none
find-unsized pick header doc h =
    find-none pick (codes "Content-Length") header doc (equal_range-unsized header h)

pub find-sized :
    (pick : Pick) (header : List Field) (size : ℕ)
    → IsPick pick
    → AreUnsized header
    → find pick (codes "Content-Length") (sized header size) ≡ some (to_string size)
find-sized pick header size doc h =
    find-only pick (codes "Content-Length") (sized header size) (to_string size) doc (
      equal_range-last (codes "Content-Length") header (codes "Content-Length") (to_string size)
        (equal_range-unsized header h) (unfold case_insensitive_equal in refl))

-- A response's header, up to the empty line.
head : List ℕ → List Field → List ℕ
head status fields = status_line (codes "1.1") status ++ (10 ∷ header_text fields)

abbrev response : List ℕ → List Field → Response
response status fields = record { version = codes "1.1"; status_code = status; header = fields }

abbrev pub session_with : ℕ → Response → List ℕ → Session Response
session_with connection r bytes = record { id = connection; content = text bytes; head = r }

module _ (status : List ℕ) (fields : List Field) (hs : Avoids 10 status)
    (hf : AreHeaders fields) where
  head_length : 4 + length fields ≤ length (head status fields)
  unfolding head
  head_length = omega (
    arith,
    length-append {0} (status_line (codes "1.1") status) (10 ∷ header_text fields),
    length-append {0} (codes "HTTP/1.1") (b' ' ∷ (status ++ 13 ∷ [])),
    length-append {0} status (13 ∷ []),
    header_text-length fields,
  )

  head-blank_line :
      (rest : List ℕ)
      → find_text blank_line (head status fields ++ rest) ≡ some (length (head status fields) - 4)
  unfolding head
  head-blank_line rest =
      let line = codes "HTTP/1.1 " ++ status in
      let whole : (status_line (codes "1.1") status ++ (10 ∷ header_text fields)) ++ rest
          ≡ line ++ (13 ∷ 10 ∷ (header_text fields ++ rest)) =
        simp append_assoc in
      ap (find_text blank_line) whole
      ∙ header_text-blank_line line fields rest
          (refl, (refl, (refl, (refl, (refl, (refl, (refl, (refl, (refl, hs))))))))) hf
      ∙ ap some (
          omega (
            arith,
            length-append {0} (status ++ 13 ∷ []) (10 ∷ header_text fields),
            length-append {0} status (13 ∷ []),
            header_text-length fields,
          ))

  on_header-head :
      (pick : Pick) (max connection : ℕ) (more : List ℕ)
      → length (head status fields ++ more) < max
      → on_header pick max Ec.success
          (length (head status fields))
          (with_bytes (new_session connection) (head status fields ++ more))
        ≡ read_content pick (length more) (session_with connection (response status fields) more)
  unfolding on_header new_session head
  on_header-head pick max connection more fits =
      let room = lt→not_eq (length (head status fields ++ more)) max fits in
      let whole = append_assoc (status_line (codes "1.1") status) (10 ∷ header_text fields) more in
      let parsed =
        ap
          (λ t.
            Response.parse (length (head status fields ++ more) + 1) (text t)
              (record { version = []; status_code = []; header = [] }))
          whole
        ∙ parse-status_line (codes "1.1") status fields more
            (length (head status fields ++ more) + 1)
            (record { version = []; status_code = []; header = [] }) (refl, (refl, (refl, tt)))
            (refl, (refl, (refl, tt))) (omega arith) hs hf
            (omega (arith, head_length, length-append {0} (head status fields) more)) in
      rw (room, parsed, additional_bytes (head status fields) more) refl

read_content-sized :
    (pick : Pick) (num size connection : ℕ) (status bytes : List ℕ) (header : List Field)
    → IsPick pick
    → AreUnsized header
    → size < 2 ^ 64
    → read_content pick num (session_with connection (response status (sized header size)) bytes)
      ≡ read_body num size (session_with connection (response status (sized header size)) bytes)
unfolding read_content
read_content-sized pick num size connection status bytes header picks hu small =
    rw (find-sized pick header size picks hu, stoull-to_string size small) refl

module _ (pick : Pick) (picks : IsPick pick) (asio : Asio) (doc : IsDocumented asio)
    (max connection : ℕ) where
  -- A content that the server posts on a new response, with fields that can stand on lines and do not say how long it is:
  -- its bytes arrive in any pieces at the client, and two reads end with the callback of the request, with the
  -- status, the fields and their Content-Length, and the content, in front of the bytes that were read of what
  -- follows. The streambuf has room for all of it. Lookups in a header give one of the
  -- values of a name, where there are any.
  pub response_received :
      (status : HttpStatusCode) (content : List ℕ) (header : List Field) (wire rest : List ℕ)
      (f : ℕ)
      → AreHeaders header
      → AreUnsized header
      → length content < 2 ^ 64
      → length wire < max
      → wire ≡ (post_content status content header new_response).streambuf ++ rest
      → (m : List ℕ) × (wire' : List ℕ) × (run
            (on_header pick)
            asio
            max
            (suc (suc f))
            Wait.header
            (new_session connection)
            wire
          ≡ some (
            End.found (
                session_with connection
                  (record {
                    version = codes "1.1";
                    status_code = text_of_status status;
                    header = sized header (length content);
                  })
                  (content ++ m)),
            wire',
          ))
        × (rest ≡ m ++ wire')
  unfolding new_session
  response_received status content header wire rest f hf hu small room e =
      let fields = sized header (length content) in
      let hs = text_of_status-Avoids status in
      let hf' = sized-AreHeaders header (length content) hf in
      let r = response (text_of_status status) fields in
      let split : wire ≡ head (text_of_status status) fields ++ (content ++ rest) =
        e
        ∙ ap (λ t. t ++ rest) (posted status content header hu)
        ∙ unfold head in simp append_assoc in
      let (more, wire', ran, left) =
        header_read (on_header pick) asio doc max (new_session connection)
          (head (text_of_status status) fields) wire (content ++ rest)
          (length (head (text_of_status status) fields) - 4) (suc f)
          (λ more. read_content pick (length more) (session_with connection r more))
          (omega (arith, head_length (text_of_status status) fields hs hf'))
          (head-blank_line (text_of_status status) fields hs hf' (content ++ rest)) room split
          (λ more fits.
            on_header-head (text_of_status status) fields hs hf' pick max connection more fits) in
      let (m, wire2, ran2, left2) =
        content_read (on_header pick) asio doc max (session_with connection r []) more wire' content
          rest f
          (omega (
            arith,
            room,
            ap length split,
            ap length left,
            length-append {0} (head (text_of_status status) fields) (content ++ rest),
          ))
          left in
      (
        m,
        wire2,
        ran
            ∙ rw
                (read_content-sized pick (length more) (length content) connection
                  (text_of_status status) more header picks hu small)
                ran2,
        left2,
      )
