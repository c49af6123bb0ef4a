-- ===== src/Web/Response/StatusLine.antt =====
-- The status line that write_header's callers write (src/network/web/http_server_impl.h) is parsed.
use barbacoa_server_lib.Prelude.{
  ℕ, ◌+◌, ◌-◌, ◌^◌, ◌<◌, ◌≡◌, ◌∙◌, ap, sym, refl, true, List, [], ◌∷◌, ◌++◌, some, length,
  length-append, arith, lt→ltb, substr, substr-middle, codes, append_assoc,
}
use barbacoa_server_lib.Web.QueryString.{Field}
use barbacoa_server_lib.Web.TextStream.{
  getline-line, find_char, Avoids, Avoids-append, find_char-first,
}
use barbacoa_server_lib.Web.HttpHeader.RoundTrip.{text, AreHeaders, header_text, parse-header_text}
use barbacoa_server_lib.Web.Response.{
  Response, version_size, read_status, read_version, read_line, parse,
}

abbrev pub status_line : List ℕ → List ℕ → List ℕ
status_line version status = (codes "HTTP/" ++ version) ++ (b' ' ∷ (status ++ 13 ∷ []))

module _ (version status : List ℕ) where
  line-length : length (status_line version status) ≡ length version + length status + 7
  line-length = omega (
    arith,
    length-append {0} (codes "HTTP/" ++ version) (b' ' ∷ (status ++ 13 ∷ [])),
    length-append {0} status (13 ∷ []),
  )

  version_end :
      Avoids b' ' version → find_char b' ' (status_line version status) ≡ some (length version + 5)
  version_end h =
      find_char-first b' ' (codes "HTTP/" ++ version) (status ++ 13 ∷ [])
        (refl, (refl, (refl, (refl, (refl, h)))))
      ∙ ap some (omega arith)

  version-part :
      length version < 2 ^ 63
      → substr (status_line version status) 5 (version_size (length version + 5)) ≡ version
  unfolding version_size
  version-part h =
      substr-middle (status_line version status) (codes "HTTP/") version
        (b' ' ∷ (status ++ 13 ∷ [])) _ _
        (append_assoc (codes "HTTP/") version (b' ' ∷ (status ++ 13 ∷ []))) refl (omega arith)

  status-part :
      substr
        (status_line version status)
        (length version + 5 + 1)
        (length (status_line version status) - (length version + 5 + 1) - 1)
      ≡ status
  status-part =
      substr-middle (status_line version status) ((codes "HTTP/" ++ version) ++ b' ' ∷ []) status
        (13 ∷ []) _ _
        (sym (append_assoc (codes "HTTP/" ++ version) (b' ' ∷ []) (status ++ 13 ∷ [])))
        (omega (arith, length-append {0} (codes "HTTP/" ++ version) (b' ' ∷ [])))
        (omega (arith, line-length))

-- A status line with a version that holds no blank and no line end and is shorter than 2 ^ 63 bytes, and a
-- status that holds no line end, the header fields on their lines and the empty line behind it are parsed
-- into these parts, whatever the response held before; the stream is left at the body. The fuel is above
-- the number of fields.
pub parse-status_line :
    (version status : List ℕ) (fields : List Field) (body : List ℕ) (fuel : ℕ) (r : Response)
    → Avoids b' ' version
    → Avoids 10 version
    → length version < 2 ^ 63
    → Avoids 10 status
    → AreHeaders fields
    → length fields < fuel
    → parse fuel (text (status_line version status ++ (10 ∷ (header_text fields ++ body)))) r
      ≡ some (true, record { version = version; status_code = status; header = fields }, text body)
unfolding parse read_version read_status
parse-status_line version status fields body fuel r hv hn short hs hf lt =
    ap (read_line fuel (record r { header = [] })) (
      getline-line (status_line version status) (header_text fields ++ body) [] (
        Avoids-append 10 (codes "HTTP/" ++ version) (b' ' ∷ (status ++ 13 ∷ []))
          (refl, (refl, (refl, (refl, (refl, hn)))))
          (refl, Avoids-append 10 status (13 ∷ []) hs (refl, tt))))
    ∙ rw
        (
          version_end version status hv,
          lt→ltb 5 (length (status_line version status))
              (omega (arith, line-length version status)),
          lt→ltb (length version + 5 + 1) (length (status_line version status))
              (omega (arith, line-length version status)),
          version-part version status short,
          status-part version status,
          parse-header_text fields fuel body hf lt,
        )
        refl
