-- ===== src/Web/HttpServer/Requests.antt =====
-- A request that a client writes reaches find_resource as it was written, whatever the reads deliver at
-- a time (src/network/web/http_server_impl.h).
use barbacoa_server_lib.Prelude.{
  ℕ, zero, suc, ◌+◌, ◌-◌, ◌*◌, ◌^◌, ◌<◌, ◌≤◌, ◌≡◌, ◌∙◌, ap, sym, refl, subst, List, [], ◌∷◌, ◌++◌,
  some, length, length-append, arith, append_assoc, codes, lt→not_eq,
}
use barbacoa_server_lib.Web.TextStream.{Avoids}
use barbacoa_server_lib.Web.HttpHeader.RoundTrip.{text, AreHeaders, header_text}
use barbacoa_server_lib.Web.Request
use barbacoa_server_lib.Web.Request.{Request}
use barbacoa_server_lib.Web.Request.RoundTrip.{
  request_line, IsTarget, parse-request_line, request_line-Avoids,
}
use barbacoa_server_lib.Web.Fields.{find, equal_range, Pick, IsPick}
use barbacoa_server_lib.Web.Fields.Found.{find-only, find-none}
use barbacoa_server_lib.Web.Numbers.{stoull, stoul_16}
use barbacoa_server_lib.Web.HttpSession.Asio.{Asio, IsDocumented, Ec, find_text}
use barbacoa_server_lib.Web.HttpSession.Session.{Session, Wait, End}
use barbacoa_server_lib.Web.HttpSession.Body.{additional_bytes, header_read, content_read}
use barbacoa_server_lib.Web.HttpServer.Session.{new_session, read_content, on_header}
use barbacoa_server_lib.Web.HttpSession.ChunkSteps.{with_bytes}
use barbacoa_server_lib.Web.HttpSession.Chunked.{
  Chunk, chunked_text, content_of, AreChunks, chunked_read,
}
use barbacoa_server_lib.Web.HttpSession.BlankLine.{header_text-blank_line, header_text-length}
use barbacoa_server_lib.Web.HttpSession.Reading.{blank_line, run, and_then}

-- The parts of a request hold none of the separators.
pub record IsWritable (r : Request) : Type 0 where
  pub method_word : Avoids b' ' r.method
  pub method_line : Avoids 10 r.method
  pub path_target : IsTarget r.path
  pub query_target : IsTarget r.query_string
  pub version_line : Avoids 10 r.version
  pub header_lines : AreHeaders r.header

-- The request line, the fields and the empty line.
abbrev pub head : Request → List ℕ
head r = request_line r.method r.path r.query_string r.version ++ (10 ∷ header_text r.header)

Avoids-prefix : (c : ℕ) (xs ys : List ℕ) → Avoids c (xs ++ ys) → Avoids c xs
Avoids-prefix c [] ys h = tt
Avoids-prefix c (x ∷ xs) ys h = (h.0, Avoids-prefix c xs ys h.1)

-- The request line without its end.
line : Request → List ℕ
line r = r.method ++ (b' ' ∷ (r.path ++ (b'?' ∷ (r.query_string ++ (codes " HTTP/" ++ r.version)))))

line-request_line :
    (r : Request) → request_line r.method r.path r.query_string r.version ≡ line r ++ 13 ∷ []
unfolding line
line-request_line r = simp append_assoc

head-blank_line :
    (r : Request) (rest : List ℕ)
    → IsWritable r
    → find_text blank_line (head r ++ rest) ≡ some (length (head r) - 4)
head-blank_line r rest w =
    let avoids = Avoids-prefix 10 (line r) (13 ∷ []) (
      subst (Avoids 10) (line-request_line r) (
        request_line-Avoids r.method r.path r.query_string r.version w.method_line w.path_target
          w.query_target w.version_line)) in
    let whole : head r ++ rest ≡ line r ++ (13 ∷ 10 ∷ (header_text r.header ++ rest)) =
      ap (λ t. (t ++ (10 ∷ header_text r.header)) ++ rest) (line-request_line r)
      ∙ simp append_assoc in
    ap (find_text blank_line) whole
    ∙ header_text-blank_line (line r) r.header rest avoids w.header_lines
    ∙ ap some (
        omega (
          arith,
          length-append {0} (request_line r.method r.path r.query_string r.version)
              (10 ∷ header_text r.header),
          ap length (line-request_line r),
          length-append {0} (line r) (13 ∷ []),
        ))

head_length : (r : Request) → 4 + length r.header ≤ length (head r)
head_length r = omega (
  arith,
  length-append {0} (request_line r.method r.path r.query_string r.version)
      (10 ∷ header_text r.header),
  ap length (line-request_line r),
  length-append {0} (line r) (13 ∷ []),
  header_text-length r.header,
)

-- A session that has this request and these bytes in its streambuf.
abbrev pub session_with : ℕ → Request → List ℕ → Session Request
session_with id r bytes = record { id = id; content = text bytes; head = r }

on_header-head :
    (pick : Pick) (max id : ℕ) (r : Request) (more : List ℕ)
    → IsWritable r
    → length (head r ++ more) < max
    → on_header pick max Ec.success
        (length (head r))
        (with_bytes (new_session id).0 (head r ++ more))
      ≡ read_content pick (length more) (session_with id r more)
unfolding on_header new_session
on_header-head pick max id r more w fits =
    let room = lt→not_eq (length (head r ++ more)) max fits in
    let whole =
      append_assoc (request_line r.method r.path r.query_string r.version)
        (10 ∷ header_text r.header) more in
    let parsed =
      ap
        (λ t.
          Request.parse (length (head r ++ more) + 1) (text t)
            (record { method = []; path = []; query_string = []; version = []; header = [] }))
        whole
      ∙ parse-request_line r.method r.path r.query_string r.version r.header more
          (length (head r ++ more) + 1)
          (record { method = []; path = []; query_string = []; version = []; header = [] })
          w.method_word w.method_line w.path_target w.query_target w.version_line w.header_lines
          (omega (arith, head_length r, length-append {0} (head r) more)) in
    rw (room, parsed, additional_bytes (head r) more) refl

module _ (pick : Pick) (asio : Asio) (doc : IsDocumented asio) (max id : ℕ) (r : Request)
    (w : IsWritable r) where
  request_read :
      (wire rest : List ℕ) (f : ℕ)
      → length wire < max
      → wire ≡ head r ++ rest
      → (more : List ℕ) × (wire' : List ℕ) × (run
            (on_header pick)
            asio
            max
            (suc f)
            Wait.header
            (new_session id).0
            wire
          ≡ and_then
              (λ w' s' rest'. run (on_header pick) asio max f w' s' rest')
              (read_content pick (length more) (session_with id r more), wire'))
        × (rest ≡ more ++ wire')
  unfolding new_session
  request_read wire rest f room e =
      header_read (on_header pick) asio doc max (new_session id).0 (head r) wire rest
        (length (head r) - 4) f (λ more. read_content pick (length more) (session_with id r more))
        (omega (arith, head_length r)) (head-blank_line r rest w) room e
        (λ more fits. on_header-head pick max id r more w fits)

  -- A request whose one Transfer-Encoding is "chunked" and that has no Content-Length, written by a
  -- client whose parts hold no separators, arrives in any pieces at
  -- a new session: find_resource is called with the request as it was written and its content put together, behind
  -- the bytes that were read of what follows. The streambuf has room for all of it, and the fuel is the
  -- reads: two for each chunk and three. Lookups in the header give one of the values, where there are any.
  pub chunked_request :
      (wire rest last : List ℕ) (chunks : List Chunk) (fuel : ℕ)
      → IsPick pick
      → equal_range (codes "Content-Length") r.header ≡ []
      → equal_range (codes "Transfer-Encoding") r.header ≡ codes "chunked" ∷ []
      → AreChunks chunks
      → Avoids 10 last
      → stoul_16 last ≡ some 0
      → max < 2 ^ 63
      → length wire < max
      → wire ≡ head r ++ chunked_text chunks last rest
      → 2 * length chunks + 3 ≤ fuel
      → (m : List ℕ) × (wire' : List ℕ) × (run
            (on_header pick)
            asio
            max
            fuel
            Wait.header
            (new_session id).0
            wire
          ≡ some (End.found (session_with id r (m ++ content_of chunks)), wire'))
        × (rest ≡ m ++ wire')
  unfolding read_content
  chunked_request wire rest last chunks zero picks hc ht hs hl kl small room e enough =
      absurd (omega arith)
  chunked_request wire rest last chunks (suc f) picks hc ht hs hl kl small room e enough =
      let (more, wire', ran, left) = request_read wire (chunked_text chunks last rest) f room e in
      let (m, wire2, ran2, left2) =
        chunked_read (on_header pick) asio doc max small (session_with id r []) more wire' [] chunks
          last rest f hs hl kl
          (omega (
            arith,
            room,
            ap length e,
            ap length left,
            length-append {0} (head r) (chunked_text chunks last rest),
          ))
          (sym left) (omega arith) in
      (
        m,
        wire2,
        ran
            ∙ rw
                (
                  find-none pick (codes "Content-Length") r.header picks hc,
                  find-only pick (codes "Transfer-Encoding") r.header (codes "chunked") picks ht,
                )
                ran2,
        left2,
      )

  -- The content is read behind the header.
  -- A request with a Content-Length, written by a client whose parts hold no separators, arrives in any pieces at a
  -- new session: two reads end with a call of find_resource with the request as it was written and its
  -- content, in front of the bytes that were read of what follows. The streambuf has room for all of it.
  pub sized_request :
      (wire content rest size : List ℕ) (f : ℕ)
      → find pick (codes "Content-Length") r.header ≡ some size
      → stoull size ≡ some (length content)
      → length wire < max
      → wire ≡ head r ++ (content ++ rest)
      → (m : List ℕ) × (wire' : List ℕ) × (run
            (on_header pick)
            asio
            max
            (suc (suc f))
            Wait.header
            (new_session id).0
            wire
          ≡ some (End.found (session_with id r (content ++ m)), wire'))
        × (rest ≡ m ++ wire')
  unfolding read_content
  sized_request wire content rest size f hc hs room e =
      let (more, wire', ran, left) = request_read wire (content ++ rest) (suc f) room e in
      let (m, wire2, ran2, left2) =
        content_read (on_header pick) asio doc max (session_with id r []) more wire' content rest f
          (omega (
            arith,
            room,
            ap length e,
            ap length left,
            length-append {0} (head r) (content ++ rest),
          ))
          left in
      (m, wire2, ran ∙ rw (hc, hs) ran2, left2)
