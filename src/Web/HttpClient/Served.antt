-- ===== src/Web/HttpClient/Served.antt =====
-- The request that the client writes is the one that the server finds a resource for
-- (src/network/web/http_client_impl.h, src/network/web/http_server_impl.h).
use barbacoa_server_lib.Prelude.{
  Option-cases, ℕ, suc, ◌^◌, ◌<◌, ◌≡◌, ◌∙◌, ap, sym, refl, subst, true, false, Bool-cases, inl, inr,
  ◌&&◌, List, [], ◌∷◌, ◌++◌, some, length, arith, append_assoc, codes, to_string, bytes_eq, ◌==◌,
  is_empty, if◌then◌else◌,
}
use barbacoa_server_lib.Web.QueryString.{Field}
use barbacoa_server_lib.Web.TextStream.{Avoids}
use barbacoa_server_lib.Web.HttpHeader.RoundTrip.{AreHeaders, header_text}
use barbacoa_server_lib.Web.Request.{Request}
use barbacoa_server_lib.Web.Request.RoundTrip.{IsTarget}
use barbacoa_server_lib.Web.Fields.{
  case_insensitive_equal, find, equal_range, some_value, Pick, IsPick,
}
use barbacoa_server_lib.Web.Fields.Found.{case_insensitive_equal-lower}
use barbacoa_server_lib.Web.Numbers.Printed.{stoull-to_string}
use barbacoa_server_lib.Web.HttpSession.Asio.{Asio, IsDocumented}
use barbacoa_server_lib.Web.HttpSession.Session.{Wait, End}
use barbacoa_server_lib.Web.HttpSession.Reading.{run}
use barbacoa_server_lib.Web.HttpServer.Session.{new_session, on_header}
use barbacoa_server_lib.Web.HttpServer.Response.Posted.{AreUnsized, sized, sized-AreHeaders}
use barbacoa_server_lib.Web.HttpServer.Requests.{IsWritable, head, session_with, sized_request}
use barbacoa_server_lib.Web.HttpClient.RequestText.{
  Server, host_text, corrected_path, field_text, create_request_header, content_text, request_text,
  is_chunked,
}
use barbacoa_server_lib.Web.HttpClient.Responses.{find-unsized, find-sized}

bytes_eq-≡ : (xs ys : List ℕ) → bytes_eq xs ys ≡ true → xs ≡ ys
bytes_eq-≡ [] [] h = refl
bytes_eq-≡ [] (y ∷ ys) h = absurd (cc)
bytes_eq-≡ (x ∷ xs) [] h = absurd (cc)
bytes_eq-≡ (x ∷ xs) (y ∷ ys) h = elim (Bool-cases (x == y)) [
  | inl e ↦
      let same : x ≡ y = ground arith in
      let rest : xs ≡ ys = bytes_eq-≡ xs ys (ground arith) in rw (same, rest) refl
  | inr e ↦ absurd (ground arith)
]

chunked_word :
    (v : List ℕ)
    → case_insensitive_equal v (codes "chunked") ≡ false
    → bytes_eq v (codes "chunked") ≡ false
chunked_word v h = elim (Bool-cases (bytes_eq v (codes "chunked"))) [
  | inl e ↦
      let same = bytes_eq-≡ v (codes "chunked") e in
      let q : case_insensitive_equal v (codes "chunked") ≡ true =
        rw same (unfold case_insensitive_equal in refl) in
      absurd (cc)
  | inr e ↦ e
]

unchunked_values :
    (header : List Field)
    → AreUnsized header
    → some_value
        (λ v. bytes_eq v (codes "chunked"))
        (equal_range (codes "Transfer-Encoding") header)
      ≡ false
unfolding equal_range
unchunked_values [] h = refl
unchunked_values ((name, v) ∷ header) h =
    let lower = case_insensitive_equal-lower name (codes "Transfer-Encoding") in
    elim (Bool-cases (case_insensitive_equal name (codes "transfer-encoding"))) [
      | inl e ↦
          let other : case_insensitive_equal v (codes "chunked") ≡ false =
            subst (λ b. (b && case_insensitive_equal v (codes "chunked")) ≡ false) e h.1 in
          rw (sym lower, e, chunked_word v other) (unchunked_values header h.2)
      | inr e ↦ rw (sym lower, e) (unchunked_values header h.2)
    ]

not_chunked :
    (pick : Pick) (header : List Field)
    → IsPick pick
    → AreUnsized header
    → is_chunked (find pick (codes "Transfer-Encoding") header) ≡ false
unfolding find
not_chunked pick header doc h =
    let values = equal_range (codes "Transfer-Encoding") header in
    elim (Option-cases (pick values)) [
      | inl e ↦ rw e refl
      | inr (v, e) ↦ elim (Bool-cases (bytes_eq v (codes "chunked"))) [
        | inl k ↦
            let yes = doc.picks_one (λ w. bytes_eq w (codes "chunked")) values v e k in
            let no = unchunked_values header h in absurd (cc)
        | inr k ↦ rw (e, k) refl
      ]
    ]

fields-header_text :
    (header : List Field) (size : ℕ) (content : List ℕ)
    → field_text header
        ++ ((codes "Content-Length: " ++ (to_string size ++ (13 ∷ 10 ∷ []))) ++ (13 ∷ 10 ∷ content))
      ≡ header_text (sized header size) ++ content
unfolding field_text
fields-header_text [] size content = simp append_assoc
fields-header_text ((name, v) ∷ header) size content =
    outer name v (field_text header) _
    ∙ ap (λ t. name ++ (b':' ∷ b' ' ∷ (v ++ (13 ∷ 10 ∷ t))))
        (fields-header_text header size content)
    ∙ inner name v (header_text (sized header size)) content
  where
    outer :
        (name v f y : List ℕ)
        → (name ++ (b':' ∷ b' ' ∷ (v ++ (13 ∷ 10 ∷ f)))) ++ y
          ≡ name ++ (b':' ∷ b' ' ∷ (v ++ (13 ∷ 10 ∷ (f ++ y))))
    outer name v f y = simp append_assoc

    inner :
        (name v f y : List ℕ)
        → name ++ (b':' ∷ b' ' ∷ (v ++ (13 ∷ 10 ∷ (f ++ y))))
          ≡ ((name ++ (b':' ∷ b' ' ∷ (v ++ 13 ∷ []))) ++ (10 ∷ f)) ++ y
    inner name v f y = simp append_assoc

-- The request as it was meant.
abbrev pub meant : Server → List ℕ → List ℕ → List ℕ → List Field → ℕ → Request
meant server method path query header size = record {
  method = method;
  path = path;
  query_string = query;
  version = codes "1.1";
  header = sized ((codes "Host", host_text server) ∷ header) size;
}

target_there :
    (path query : List ℕ)
    → (if is_empty (path ++ (b'?' ∷ query)) then codes "/" else path ++ (b'?' ∷ query))
      ≡ path ++ (b'?' ∷ query)
target_there [] query = refl
target_there (c ∷ path) query = refl

request_text-head :
    (pick : Pick) (server : Server) (method path query content : List ℕ) (header : List Field)
    → server.proxy_server ≡ []
    → 0 < length content
    → IsPick pick
    → AreUnsized header
    → request_text pick server method (path ++ (b'?' ∷ query)) content header
      ≡ head (meant server method path query header (length content)) ++ content
unfolding request_text create_request_header content_text corrected_path
request_text-head pick server method path query [] header h k picks u = absurd (omega arith)
request_text-head pick server method path query (c ∷ content) header h k picks u =
    rw (h, find-unsized pick header picks u, not_chunked pick header picks u)
      (rw (target_there path query) (
        outer method (path ++ (b'?' ∷ query)) (host_text server) (field_text header) _
        ∙ ap
            (λ t.
              method
              ++ (b' '
                  ∷ ((path ++ (b'?' ∷ query))
                      ++ (codes " HTTP/1.1\r\nHost: " ++ (host_text server ++ (13 ∷ 10 ∷ t))))))
            (fields-header_text header (suc (length content)) (c ∷ content))
        ∙ inner method path query (host_text server)
            (header_text (sized header (suc (length content)))) (c ∷ content)))
  where
    outer :
        (m p host f y : List ℕ)
        → (m ++ (b' ' ∷ (p ++ (codes " HTTP/1.1\r\nHost: " ++ (host ++ (13 ∷ 10 ∷ f)))))) ++ y
          ≡ m ++ (b' ' ∷ (p ++ (codes " HTTP/1.1\r\nHost: " ++ (host ++ (13 ∷ 10 ∷ (f ++ y))))))
    outer m p host f y = simp append_assoc

    inner :
        (m p q host t y : List ℕ)
        → m
            ++ (b' '
                ∷ ((p ++ (b'?' ∷ q))
                    ++ (codes " HTTP/1.1\r\nHost: " ++ (host ++ (13 ∷ 10 ∷ (t ++ y))))))
          ≡ ((m ++ (b' ' ∷ (p ++ (b'?' ∷ (q ++ (codes " HTTP/" ++ (codes "1.1" ++ 13 ∷ [])))))))
              ++ (10 ∷ ((codes "Host" ++ (b':' ∷ b' ' ∷ (host ++ 13 ∷ []))) ++ (10 ∷ t))))
            ++ y
    inner m p q host t y = simp append_assoc

-- A request of the client, with a content, on a connection that goes to the server itself, whose method, path, query,
-- host and fields hold none of the separators and do not say how long the content is: its bytes arrive in any pieces at
-- a new session of the server, and find_resource is called with this request, a "Host" in front of its
-- fields and its Content-Length behind them, and with the content, in front of the bytes that were read of what follows.
-- The streambuf has room for all of it.
-- Lookups in a header give one of the values of a name, where there are any.
pub request_served :
    (pick : Pick) (asio : Asio) (max id : ℕ) (server : Server) (method path query content : List ℕ)
    (header : List Field) (wire rest : List ℕ) (f : ℕ)
    → IsPick pick
    → IsDocumented asio
    → server.proxy_server ≡ []
    → 0 < length content
    → length content < 2 ^ 64
    → Avoids b' ' method
    → Avoids 10 method
    → IsTarget path
    → IsTarget query
    → AreHeaders ((codes "Host", host_text server) ∷ header)
    → AreUnsized header
    → length wire < max
    → wire ≡ request_text pick server method (path ++ (b'?' ∷ query)) content header ++ rest
    → (m : List ℕ) × (wire' : List ℕ) × (run
          (on_header pick)
          asio
          max
          (suc (suc f))
          Wait.header
          (new_session id).0
          wire
        ≡ some (
          End.found (
              session_with id
                (meant server method path query header (length content))
                (content ++ m)),
          wire',
        ))
      × (rest ≡ m ++ wire')
request_served pick asio max id server method path query content header wire rest f picks doc direct
      some_content small hm hn hp hq hf hu room e =
    let r = meant server method path query header (length content) in
    let w : IsWritable r = record {
      method_word = hm;
      method_line = hn;
      path_target = hp;
      query_target = hq;
      version_line = (refl, (refl, (refl, tt)));
      header_lines =
          sized-AreHeaders ((codes "Host", host_text server) ∷ header) (length content) hf;
    } in
    let size =
      find-sized pick ((codes "Host", host_text server) ∷ header) (length content) picks
        (host_field, not_encoding, hu) in
    sized_request pick asio doc max id r w wire content rest (to_string (length content)) f size
      (stoull-to_string (length content) small) room
      (e
        ∙ ap (λ t. t ++ rest)
            (request_text-head pick server method path query content header direct some_content
              picks hu)
        ∙ append_assoc (head r) content rest)
  where
    host_field : case_insensitive_equal (codes "Host") (codes "content-length") ≡ false
    host_field = unfold case_insensitive_equal in refl

    not_encoding :
        case_insensitive_equal (codes "Host") (codes "transfer-encoding")
          && case_insensitive_equal (host_text server) (codes "chunked")
        ≡ false
    not_encoding = unfold case_insensitive_equal in refl
