-- ===== src/Web/HttpServer/Response/Posted.antt =====
-- A posted response is what the client's parser reads (src/network/web/http_utility.h).
use barbacoa_server_lib.Prelude.{
  ℕ, ◌+◌, ◌<◌, ◌≡◌, ◌∙◌, ap, sym, refl, Bool, true, false, ◌&&◌, List, [], ◌∷◌, ◌++◌, some, length,
  length-append, codes, to_string, arith, append_assoc, append-nil, ◌==◌, Bool-cases, inl, inr,
}
use barbacoa_server_lib.Version.Printed.{AllDigits, to_string-Prints}
use barbacoa_server_lib.Web.QueryString.{Field}
use barbacoa_server_lib.Web.Fields.{case_insensitive_equal}
use barbacoa_server_lib.Web.TextStream.{Avoids, avoids, avoids-Avoids}
use barbacoa_server_lib.Web.HttpHeader.RoundTrip.{text, AreHeaders, NoBlank, header_text}
use barbacoa_server_lib.Web.StatusCode.{HttpStatusCode, value, status_code_strings}
use barbacoa_server_lib.Web.StatusCode.Lookup.{find_code, text_of_status}
use barbacoa_server_lib.Web.Response
use barbacoa_server_lib.Web.Response.StatusLine.{status_line, parse-status_line}
use barbacoa_server_lib.Web.HttpServer.Response.{
  Response, put_field, seen, end_header, write_fields, write_header, post_content, new_response,
  put_status, put_content,
}

-- No field says how long the content is.
abbrev pub AreUnsized : List Field → Type 0
AreUnsized [] = Unit {0}
AreUnsized ((name, value) ∷ fields) =
    (case_insensitive_equal name (codes "content-length") ≡ false)
    × (case_insensitive_equal name (codes "transfer-encoding")
          && case_insensitive_equal value (codes "chunked")
        ≡ false)
    × AreUnsized fields

-- The fields that a client is sent.
abbrev pub sized : List Field → ℕ → List Field
sized header size = header ++ ((codes "Content-Length", to_string size) ∷ [])

write_fields-header_text :
    (fields : List Field) (size : ℕ) (r : Response)
    → AreUnsized fields
    → r.close_connection_after_response ≡ false
    → write_fields (false, false) fields size r ≡ record {
      streambuf = r.streambuf ++ header_text (sized fields size);
      close_connection_after_response = false;
    }
unfolding write_fields seen end_header
write_fields-header_text [] size r h kept = rw kept (
    ap (λ t. record { streambuf = r.streambuf ++ t; close_connection_after_response = false })
      (simp append_assoc))
write_fields-header_text ((name, v) ∷ fields) size r h kept =
    rw (h.0, h.1)
      (write_fields-header_text fields size (put_field (name, v) r) h.2 kept
        ∙ ap (λ t. record { streambuf = t; close_connection_after_response = false })
            (simp append_assoc))

-- The texts of the table hold no line end.
texts_free : List (HttpStatusCode × List ℕ) → Bool
unfolding avoids
texts_free [] = true
texts_free ((code, t) ∷ rest) = avoids 10 t && texts_free rest

find_code-Avoids :
    (table : List (HttpStatusCode × List ℕ)) (c : ℕ)
    → texts_free table ≡ true
    → Avoids 10 (find_code table c)
unfolding find_code texts_free
find_code-Avoids [] c h = tt
find_code-Avoids ((code, t) ∷ rest) c h = elim (Bool-cases (avoids 10 t)) [
  | inr e ↦ absurd (ground arith)
  | inl e ↦ elim (Bool-cases (value code == c)) [
    | inl q ↦ rw q (avoids-Avoids 10 t e)
    | inr q ↦ rw q (find_code-Avoids rest c (ground arith))
  ]
]

pub text_of_status-Avoids : (status : HttpStatusCode) → Avoids 10 (text_of_status status)
unfolding text_of_status
text_of_status-Avoids status = find_code-Avoids status_code_strings (value status) free
  where
    free : texts_free status_code_strings ≡ true
    free = unfold texts_free in unfold status_code_strings in unfold avoids in refl

digits-Avoids : (xs : List ℕ) → AllDigits xs → Avoids 10 xs
digits-Avoids [] h = tt
digits-Avoids (x ∷ xs) h = (ground arith, digits-Avoids xs h.1)

digits-NoBlank : (xs : List ℕ) → AllDigits xs → NoBlank xs
digits-NoBlank [] h = tt
digits-NoBlank (x ∷ xs) h = ground arith

pub sized-AreHeaders :
    (header : List Field) (size : ℕ) → AreHeaders header → AreHeaders (sized header size)
sized-AreHeaders [] size h =
    let digits = (to_string-Prints size).0 in
    (
      (
        refl,
        (
          refl,
          (
            refl,
            (
              refl,
              (refl, (refl, (refl, (refl, (refl, (refl, (refl, (refl, (refl, (refl, tt)))))))))),
            ),
          ),
        ),
      ),
      (
        refl,
        (
          refl,
          (
            refl,
            (
              refl,
              (refl, (refl, (refl, (refl, (refl, (refl, (refl, (refl, (refl, (refl, tt)))))))))),
            ),
          ),
        ),
      ),
      digits-Avoids (to_string size) digits,
      digits-NoBlank (to_string size) digits,
      tt,
    )
sized-AreHeaders ((name, v) ∷ header) size h =
    (h.0, h.1, h.2, h.3, sized-AreHeaders header size h.4)

put_content-append :
    (content : List ℕ) (r : Response) → (put_content content r).streambuf ≡ r.streambuf ++ content
put_content-append [] r = sym (append-nil r.streambuf)
put_content-append (c ∷ content) r = refl

pub posted :
    (status : HttpStatusCode) (content : List ℕ) (header : List Field)
    → AreUnsized header
    → (post_content status content header new_response).streambuf
      ≡ status_line (codes "1.1") (text_of_status status)
        ++ (10 ∷ (header_text (sized header (length content)) ++ content))
unfolding post_content write_header new_response
posted status content header u =
    put_content-append content
      (write_fields (false, false) header (length content) (put_status status new_response))
    ∙ ap (λ w. Response.streambuf w ++ content)
        (write_fields-header_text header (length content) (put_status status new_response) u refl)
    ∙ simp append_assoc

-- A content that is posted on a new response, with fields that can stand on lines and do not say how
-- long the content is, is read by the parser of the client: the status, the fields with a
-- Content-Length behind them, and the content, which is left in the stream. The fuel is above the
-- number of the fields and one more.
pub parse-post_content :
    (status : HttpStatusCode) (content : List ℕ) (header : List Field) (fuel : ℕ)
    (r : Response.Response)
    → AreHeaders header
    → AreUnsized header
    → length header + 1 < fuel
    → Response.parse fuel (text (post_content status content header new_response).streambuf) r
      ≡ some (
        true,
        record {
          version = codes "1.1";
          status_code = text_of_status status;
          header = sized header (length content);
        },
        text content,
      )
parse-post_content status content header fuel r h u lt =
    ap (λ b. Response.parse fuel (text b) r) (posted status content header u)
    ∙ parse-status_line (codes "1.1") (text_of_status status) (sized header (length content))
        content fuel r (refl, (refl, (refl, tt))) (refl, (refl, (refl, tt))) (omega arith)
        (text_of_status-Avoids status) (sized-AreHeaders header (length content) h)
        (omega (
          arith,
          length-append {0} header ((codes "Content-Length", to_string (length content)) ∷ []),
        ))
