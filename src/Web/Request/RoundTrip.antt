-- ===== src/Web/Request/RoundTrip.antt =====
-- The request that the client writes (src/network/web/http_client_impl.h) is the one that the server
-- parses.
use barbacoa_server_lib.Prelude.{
  ℕ, ◌+◌, ◌-◌, ◌<◌, ◌≡◌, ◌∙◌, ap, sym, refl, true, List, [], ◌∷◌, ◌++◌, Option, none, some, length,
  length-append, arith, substr, drop, drop_prefix, codes, substr-middle, append_assoc, lt→ltb,
}
use barbacoa_server_lib.Web.QueryString.{Field}
use barbacoa_server_lib.Web.TextStream.{
  getline-line, find_char, Avoids, Avoids-append, find_char-first,
}
use barbacoa_server_lib.Web.HttpHeader.RoundTrip.{
  text, AreHeaders, header_text, parse-header_text, drop_past,
}
use barbacoa_server_lib.Web.Request.{Request, scan_path, find_from, from_position, read_line, parse}

-- The end of a request line, from behind the target.
abbrev pub protocol : List ℕ → List ℕ
protocol version = b' ' ∷ b'H' ∷ b'T' ∷ b'T' ∷ b'P' ∷ b'/' ∷ (version ++ 13 ∷ [])

abbrev pub request_line : List ℕ → List ℕ → List ℕ → List ℕ → List ℕ
request_line method path query version =
    method ++ (b' ' ∷ (path ++ (b'?' ∷ (query ++ protocol version))))

-- A part of a target: without blanks, question marks and line ends.
pub record IsTarget (p : List ℕ) : Type 0 where
  pub no_blank : Avoids b' ' p
  pub no_mark : Avoids b'?' p
  pub no_end : Avoids 10 p

-- The scan passes a part of a target.
scan_part :
    (size : ℕ) (p rest : List ℕ) (i : ℕ) (q : Option ℕ)
    → Avoids b' ' p
    → Avoids b'?' p
    → scan_path size (p ++ rest) i q ≡ scan_path size rest (i + length p) q
unfolding scan_path
scan_part size [] rest i q h k = ap (λ j. scan_path size rest j q) (omega arith)
scan_part size (c ∷ p) rest i q h k =
    rw (h.0, k.0)
      (scan_part size p rest (i + 1) q h.1 k.1 ∙ ap (λ j. scan_path size rest j q) (omega arith))

scan_target :
    (size : ℕ) (path query rest : List ℕ) (i : ℕ)
    → IsTarget path
    → IsTarget query
    → i + length path + 1 < size
    → scan_path size (path ++ (b'?' ∷ (query ++ (b' ' ∷ rest)))) i none
      ≡ (some (i + length path + 1), some (i + length path + 1 + length query))
unfolding scan_path
scan_target size path query rest i h k lt =
    scan_part size path (b'?' ∷ (query ++ (b' ' ∷ rest))) i none h.no_blank h.no_mark
    ∙ at_mark
    ∙ scan_part size query (b' ' ∷ rest) (i + length path + 1) (some (i + length path + 1))
        k.no_blank k.no_mark
    ∙ at_blank
  where
    at_mark :
        scan_path size (b'?' ∷ (query ++ (b' ' ∷ rest))) (i + length path) none
        ≡ scan_path size (query ++ (b' ' ∷ rest)) (i + length path + 1) (some (i + length path + 1))
    at_mark = rw (lt→ltb (i + length path + 1) size lt) refl

    at_blank :
        scan_path size
          (b' ' ∷ rest)
          (i + length path + 1 + length query)
          (some (i + length path + 1))
        ≡ (some (i + length path + 1), some (i + length path + 1 + length query))
    at_blank = refl

module _ (method path query version : List ℕ) where
  -- The line, and the positions in it.
  line : List ℕ
  line = request_line method path query version

  abbrev query_start : ℕ
  query_start = length method + 1 + length path + 1

  abbrev end : ℕ
  end = query_start + length query

  method-part : substr line 0 (length method) ≡ method
  unfolding line
  method-part =
      substr-middle line [] method (b' ' ∷ (path ++ (b'?' ∷ (query ++ protocol version)))) 0
        (length method) refl refl refl

  path-part : substr line (length method + 1) (query_start - length method - 2) ≡ path
  unfolding line
  path-part =
      substr-middle line (method ++ b' ' ∷ []) path (b'?' ∷ (query ++ protocol version)) _ _
        (simp append_assoc) (omega (arith, length-append {0} method (b' ' ∷ []))) (omega arith)

  query-part : substr line query_start (end - query_start) ≡ query
  unfolding line
  query-part =
      substr-middle line (method ++ (b' ' ∷ (path ++ b'?' ∷ []))) query (protocol version) _ _
        (simp append_assoc)
        (omega (
          arith,
          length-append {0} method (b' ' ∷ (path ++ b'?' ∷ [])),
          length-append {0} path (b'?' ∷ []),
        ))
        (omega arith)

  -- What stands before the protocol.
  abbrev before : List ℕ
  before = method ++ (b' ' ∷ (path ++ (b'?' ∷ (query ++ b' ' ∷ []))))

  before-length : length before ≡ end + 1
  before-length = omega (
    arith,
    length-append {0} method (b' ' ∷ (path ++ (b'?' ∷ (query ++ b' ' ∷ [])))),
    length-append {0} path (b'?' ∷ (query ++ b' ' ∷ [])),
    length-append {0} query (b' ' ∷ []),
  )

  line-before : line ≡ before ++ (codes "HTTP/" ++ (version ++ 13 ∷ []))
  unfolding line
  line-before = simp append_assoc

  http-part : substr line (end + 1) (end + 1 + 4 - end - 1) ≡ codes "HTTP"
  http-part =
      substr-middle line before (codes "HTTP") (b'/' ∷ (version ++ 13 ∷ [])) _ _ line-before
        (sym before-length) (omega arith)

  line-length : length line ≡ end + 1 + 5 + length version + 1
  line-length =
      ap length line-before
      ∙ omega (
        arith,
        length-append {0} before (codes "HTTP/" ++ (version ++ 13 ∷ [])),
        before-length,
        length-append {0} version (13 ∷ []),
      )

  version-part : substr line (end + 1 + 4 + 1) (length line - (end + 1 + 4) - 2) ≡ version
  version-part =
      substr-middle line (before ++ codes "HTTP/") version (13 ∷ []) _ _
        (line-before ∙ sym (append_assoc before (codes "HTTP/") (version ++ 13 ∷ [])))
        (omega (arith, length-append {0} before (codes "HTTP/"), before-length))
        (omega (arith, line-length))

  slash : find_from b'/' line (end + 1) ≡ some (end + 1 + 4)
  unfolding find_from find_char
  slash =
      ap (λ rest. from_position (end + 1) (find_char b'/' rest))
        (ap (λ l. drop (end + 1) l) line-before
          ∙ ap (λ k. drop k (before ++ (codes "HTTP/" ++ (version ++ 13 ∷ [])))) (sym before-length)
          ∙ drop_prefix before (codes "HTTP/" ++ (version ++ 13 ∷ [])))

  module _ (h : Avoids b' ' method) (k : IsTarget path) (l : IsTarget query) where
    method_end : find_char b' ' line ≡ some (length method)
    unfolding line
    method_end = find_char-first b' ' method (path ++ (b'?' ∷ (query ++ protocol version))) h

    target :
        scan_path (length line) (drop (length method + 1) line) (length method + 1) none
        ≡ (some query_start, some end)
    target =
        ap (λ rest. scan_path (length line) rest (length method + 1) none) past
        ∙ scan_target (length line) path query (codes "HTTP/" ++ (version ++ 13 ∷ []))
            (length method + 1) k l (omega (arith, line-length))
      where
        past : drop (length method + 1) line ≡ path ++ (b'?' ∷ (query ++ protocol version))
        past = unfold line in drop_past method b' ' (path ++ (b'?' ∷ (query ++ protocol version)))

pub request_line-Avoids :
    (method path query version : List ℕ)
    → Avoids 10 method
    → IsTarget path
    → IsTarget query
    → Avoids 10 version
    → Avoids 10 (request_line method path query version)
request_line-Avoids method path query version h k l v =
    Avoids-append 10 method (b' ' ∷ (path ++ (b'?' ∷ (query ++ protocol version)))) h (
      refl,
      Avoids-append 10 path (b'?' ∷ (query ++ protocol version)) k.no_end (
        refl,
        Avoids-append 10 query (protocol version) l.no_end (
          refl,
          (refl, (refl, (refl, (refl, (refl, Avoids-append 10 version (13 ∷ []) v (refl, tt)))))),
        ),
      ),
    )

-- A request line with a method, path, query and version that hold none of the separators, the header
-- fields on their lines and the empty line behind it are parsed into these parts, whatever the request
-- held before; the stream is left at the body. The fuel is above the number of fields.
pub parse-request_line :
    (method path query version : List ℕ) (fields : List Field) (body : List ℕ) (fuel : ℕ)
    (r : Request)
    → Avoids b' ' method
    → Avoids 10 method
    → IsTarget path
    → IsTarget query
    → Avoids 10 version
    → AreHeaders fields
    → length fields < fuel
    → parse fuel
        (text (request_line method path query version ++ (10 ∷ (header_text fields ++ body))))
        r
      ≡ some (
        true,
        record {
          method = method;
          path = path;
          query_string = query;
          version = version;
          header = fields;
        },
        text body,
      )
unfolding parse line
parse-request_line method path query version fields body fuel r hm hn k l v hf lt =
    ap (read_line fuel (record r { header = [] })) (
      getline-line (request_line method path query version) (header_text fields ++ body) []
        (request_line-Avoids method path query version hn k l v))
    ∙ rw
        (
          method_end method path query version hm k l,
          target method path query version hm k l,
          slash method path query version,
          http-part method path query version,
          version-part method path query version,
          method-part method path query version,
          path-part method path query version,
          query-part method path query version,
          parse-header_text fields fuel body hf lt,
        )
        refl
