-- ===== src/Web/HttpSession/Body.antt =====
-- A header and a content of known size are read, whatever the reads deliver at a time
-- (src/network/web/http_server_impl.h, src/network/web/http_client_impl.h).
use barbacoa_server_lib.Prelude.{
  ℕ, suc, ◌+◌, ◌-◌, ◌<◌, ◌≤◌, ◌≡◌, ◌∙◌, ap, sym, refl, List, [], ◌++◌, some, length, length-append,
  take, drop, take_prefix, drop_prefix, overlap_short, overlap_long, append-nil, arith, ltb, ltb→lt,
  Bool-cases, inl, inr, lt→not_eq, le→leb,
}
use barbacoa_server_lib.Web.HttpSession.Asio.{Asio, IsDocumented, Ec, find_text}
use barbacoa_server_lib.Web.HttpSession.Session.{
  Session, Wait, End, Next, minus_64, on_body, read_body,
}
use barbacoa_server_lib.Web.HttpSession.ChunkSteps.{with_bytes}
use barbacoa_server_lib.Web.HttpSession.Reading.{blank_line, Header, on_read, run, and_then}

pub additional_bytes : (xs ys : List ℕ) → minus_64 (length (xs ++ ys)) (length xs) ≡ length ys
unfolding minus_64
additional_bytes xs ys =
    rw (le→leb (length xs) (length (xs ++ ys)) (omega (arith, length-append {0} xs ys)))
      (omega (arith, length-append {0} xs ys))

module _ {H : Type 0} (on_header : Header H) (asio : Asio) (doc : IsDocumented asio) (max : ℕ) where
  -- A header, which ends with an empty line, is read, and its handler goes on.
  pub header_read :
      (s : Session H) (head wire rest : List ℕ) (i f : ℕ) (next : List ℕ → Next H)
      → i + 4 ≡ length head
      → find_text blank_line (head ++ rest) ≡ some i
      → length wire < max
      → wire ≡ head ++ rest
      → ((more : List ℕ)
          → length (head ++ more) < max
          → on_header max Ec.success (length head) (with_bytes s (head ++ more)) ≡ next more)
      → (more : List ℕ) × (wire' : List ℕ) × (run on_header asio max
            (suc f)
            Wait.header
            (with_bytes s [])
            wire
          ≡ and_then (λ w' s' rest'. run on_header asio max f w' s' rest') (next more, wire'))
        × (rest ≡ more ++ wire')
  unfolding run on_read
  header_read s head wire rest i f next n found room e handler =
      let (more, wire', read, split) =
        doc.until_lem blank_line max [] wire i room (ap (find_text blank_line) e ∙ found) in
      let left : rest ≡ more ++ wire' =
        sym (drop_prefix head rest)
        ∙ ap (drop (length head)) (sym e)
        ∙ ap (λ k. drop k wire) (sym n)
        ∙ split in
      let got : take (i + 4) wire ++ more ≡ head ++ more =
        ap (λ t. t ++ more)
          (ap (λ k. take k wire) n ∙ ap (take (length head)) e ∙ take_prefix head rest) in
      let fits : length (head ++ more) < max = omega (
        arith,
        room,
        ap length e,
        ap length left,
        length-append {0} head rest,
        length-append {0} head more,
        length-append {0} more wire',
      ) in
      (more, wire', rw (read, got, n, handler more fits) refl, left)

  -- A content of known size is read behind the header.
  pub content_read :
      (s : Session H) (more wire content rest : List ℕ) (f : ℕ)
      → length (more ++ wire) < max
      → content ++ rest ≡ more ++ wire
      → (m : List ℕ) × (wire' : List ℕ) × (and_then
            (λ w' s' rest'. run on_header asio max (suc f) w' s' rest')
            (read_body (length more) (length content) (with_bytes s more), wire)
          ≡ some (End.found (with_bytes s (content ++ m)), wire'))
        × (rest ≡ m ++ wire')
  unfolding run on_read on_body
  content_read s more wire content rest f room e =
      elim (Bool-cases (ltb (length more) (length content))) [
        | inl short ↦
            let less = ltb→lt (length more) (length content) short in
            let (whole, left) = overlap_short content rest more wire e (omega arith) in
            let total = ap length e in
            let read =
              doc.exactly_lem (length content - length more) max more wire room (
                omega
                  (arith, total, length-append {0} content rest, length-append {0} more wire)) in
            let fits =
              lt→not_eq (length content) max
                (omega (arith, total, room, length-append {0} content rest)) in
            ([], rest, rw (short, read, whole, left, fits, append-nil content) refl, refl)
        | inr there ↦
            let enough : length content ≤ length more = ground arith in
            let (whole, left) = overlap_long content rest more wire e enough in
            (
              drop (length content) more,
              wire,
              rw (there) (ap (λ b. some (End.found (with_bytes s b), wire)) whole),
              left,
            )
      ]
