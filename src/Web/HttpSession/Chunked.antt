-- ===== src/Web/HttpSession/Chunked.antt =====
-- A chunked content is put together, whatever the reads deliver at a time
-- (src/network/web/http_server_impl.h, src/network/web/http_client_impl.h).
use barbacoa_server_lib.Prelude.{
  ℕ, zero, suc, ◌+◌, ◌-◌, ◌*◌, ◌^◌, ◌%◌, ◌<◌, ◌≤◌, ◌≡◌, ◌∙◌, ap, sym, refl, subst, false, List, [],
  ◌∷◌, ◌++◌, some, length, length-append, take, drop, overlap_short, overlap_long, take_two_more,
  drop_two_more, arith, append_assoc, append-nil, ltb, lt→ltb, Bool-cases, inl, inr, ltb→lt, ◌==◌,
  le→not_ltb, lt→not_eq,
}
use barbacoa_server_lib.Web.TextStream.{Avoids}
use barbacoa_server_lib.Web.Numbers.{stoul_16}
use barbacoa_server_lib.Web.HttpSession.Asio.{Asio, IsDocumented, find_text}
use barbacoa_server_lib.Web.HttpSession.Session.{Session, Wait, End, Next}
use barbacoa_server_lib.Web.HttpSession.Chunks.{read_chunk, read_rest, on_chunk_rest}
use barbacoa_server_lib.Web.HttpSession.ChunkSteps.{
  with_bytes, size_line, find_text-size_line, read_chunk-data, read_chunk-last, on_chunk_line-line,
}
use barbacoa_server_lib.Web.HttpSession.Reading.{crlf, on_read, run, and_then, Ended, Header}

abbrev pub end_line : List ℕ → List ℕ
end_line rest = 13 ∷ 10 ∷ rest

size_line-length :
    (size rest : List ℕ) → length (size_line size rest) ≡ length size + 2 + length rest
size_line-length size rest = omega (arith, length-append {0} size (13 ∷ 10 ∷ rest))

chunk_fits :
    (size content tail all m wire : List ℕ)
    → all ≡ size_line size (content ++ end_line tail)
    → tail ≡ m ++ wire
    → length (m ++ wire) + length content < length all
chunk_fits size content tail all m wire e left = omega (
  arith,
  ap length e,
  ap length left,
  size_line-length size (content ++ end_line tail),
  length-append {0} content (end_line tail),
)

-- Where the data of a chunk and its end lie, when `more` of them is in the streambuf.
module _ (content tail more wire : List ℕ) (e : content ++ end_line tail ≡ more ++ wire) where
  with_end : length (content ++ end_line []) ≡ length content + 2
  with_end = omega (arith, length-append {0} content (end_line []))

  whole : (content ++ end_line []) ++ tail ≡ more ++ wire
  whole = append_assoc content (end_line []) tail ∙ e

  parts_short :
      length more ≤ length content + 2
      → (more ++ take (length content + 2 - length more) wire ≡ content ++ end_line [])
        × (drop (length content + 2 - length more) wire ≡ tail)
  parts_short h =
      subst
        (λ k.
          (more ++ take (k - length more) wire ≡ content ++ end_line [])
          × (drop (k - length more) wire ≡ tail))
        with_end
        (overlap_short (content ++ end_line []) tail more wire whole (omega (arith, with_end)))

  parts_long :
      length content + 2 ≤ length more
      → (more ≡ content ++ end_line (drop (length content + 2) more))
        × (tail ≡ drop (length content + 2) more ++ wire)
  parts_long h =
      let (there, left) =
        overlap_long (content ++ end_line []) tail more wire whole (omega (arith, with_end)) in
      (
        there
            ∙ append_assoc content (end_line []) (drop (length (content ++ end_line [])) more)
            ∙ ap (λ k. content ++ end_line (drop k more)) with_end,
        left ∙ ap (λ k. drop k more ++ wire) with_end,
      )

  parts_length : length content + 2 + length tail ≡ length more + length wire
  parts_length =
      omega
        (arith, length-append {0} content (end_line tail), length-append {0} more wire, ap length e)

-- Chunks as a client writes them: the text of a size, and the data.
abbrev pub Chunk : Type 0
Chunk = List ℕ × List ℕ

-- The chunks, the line of the last one, whose size is 0, and what follows.
abbrev pub chunked_text : List Chunk → List ℕ → List ℕ → List ℕ
chunked_text [] last rest = size_line last (end_line rest)
chunked_text ((size, content) ∷ chunks) last rest =
    size_line size (content ++ end_line (chunked_text chunks last rest))

abbrev pub content_of : List Chunk → List ℕ
content_of [] = []
content_of ((size, content) ∷ chunks) = content ++ content_of chunks

-- The texts of sizes stand on a line and are read as the sizes of the data, of which there are some.
abbrev pub AreChunks : List Chunk → Type 0
AreChunks [] = Unit {0}
AreChunks ((size, content) ∷ chunks) =
    Avoids 10 size
    × (stoul_16 size ≡ some (length content))
    × (0 < length content)
    × AreChunks chunks

module _ {H : Type 0} (on_header : Header H) (asio : Asio) (doc : IsDocumented asio) (max : ℕ)
    (small : max < 2 ^ 63) where
  -- The session goes on with what `next` says, with the fuel that is left.
  goes_on : ℕ → Next H → List ℕ → Ended H
  goes_on f next wire = and_then (λ w' s' wire'. run on_header asio max f w' s' wire') (next, wire)

  -- The line of a size is read.
  line_read :
      (s : Session H) (buffer wire chunks size rest : List ℕ) (n f : ℕ)
      → Avoids 10 size
      → stoul_16 size ≡ some n
      → length (buffer ++ wire) < max
      → buffer ++ wire ≡ size_line size rest
      → (more : List ℕ) × (wire' : List ℕ) × (run on_header asio max
            (suc f)
            (Wait.chunk_line chunks)
            (with_bytes s buffer)
            wire
          ≡ goes_on f (read_rest max chunks n (length more) (with_bytes s more)) wire')
        × (rest ≡ more ++ wire')
  unfolding goes_on run on_read
  line_read s buffer wire chunks size rest n f h k room e =
      let (more, wire', read, split) =
        doc.until_lem crlf max buffer wire (length size) room
          (ap (find_text crlf) e ∙ find_text-size_line size rest h) in
      let left : rest ≡ more ++ wire' =
        sym (drop_two_more size 13 10 rest) ∙ ap (drop (length size + 2)) (sym e) ∙ split in
      let got : take (length size + 2) (buffer ++ wire) ++ more ≡ size_line size more =
        ap (λ t. take (length size + 2) t ++ more) e
        ∙ ap (λ t. t ++ more) (take_two_more size 13 10 rest)
        ∙ append_assoc size (13 ∷ 10 ∷ []) more in
      let fits : length (size_line size more) < max = omega (
        arith,
        room,
        ap length e,
        ap length left,
        size_line-length size rest,
        size_line-length size more,
        length-append {0} more wire',
      ) in
      (more, wire', rw (read, got, on_chunk_line-line max chunks size more n s h k fits) refl, left)

  module _ (s : Session H) (more wire chunks content tail : List ℕ) (f : ℕ)
      (room : length (more ++ wire) < max) (e : content ++ end_line tail ≡ more ++ wire) where
    needed : (2 + length content) % 2 ^ 64 ≡ length content + 2
    needed =
        omega
          (arith, small, room, parts_length content tail more wire e, length-append {0} more wire)

    start : Ended H
    start =
        goes_on (suc f) (read_rest max chunks (length content) (length more) (with_bytes s more))
          wire

    -- The data of a chunk and its end come with one more read.
    data_behind :
        length more < length content + 2
        → start
          ≡ goes_on f
              (read_chunk max chunks (length content) (with_bytes s (content ++ end_line [])))
              tail
    unfolding start goes_on run on_read on_chunk_rest
    data_behind short =
        let (whole, left) = parts_short content tail more wire e (omega arith) in
        let total = parts_length content tail more wire e in
        let read =
          doc.exactly_lem (length content + 2 - length more) max more wire room (omega arith) in
        let fits : (length (content ++ end_line []) == max) ≡ false =
          lt→not_eq (length (content ++ end_line [])) max
            (omega (arith, length-append {0} content (end_line []), length-append {0} more wire)) in
        rw (needed, lt→ltb (length more) (length content + 2) short, read, whole, left, fits) refl

    -- They are there.
    data_there :
        length content + 2 ≤ length more
        → start
          ≡ goes_on
              (suc f)
              (read_chunk max chunks
                (length content)
                (with_bytes s (content ++ end_line (drop (length content + 2) more))))
              wire
    unfolding start
    data_there enough =
        rw (needed, le→not_ltb (length more) (length content + 2) enough)
          (ap (λ b. goes_on (suc f) (read_chunk max chunks (length content) (with_bytes s b)) wire)
            (parts_long content tail more wire e enough).0)

  -- One chunk.
  chunk_read :
      (s : Session H) (buffer wire chunks size content tail : List ℕ) (f : ℕ)
      → Avoids 10 size
      → stoul_16 size ≡ some (length content)
      → length (buffer ++ wire) < max
      → buffer ++ wire ≡ size_line size (content ++ end_line tail)
      → (m : List ℕ) × (wire' : List ℕ) × (k : ℕ) × (run on_header asio max
            (suc (suc f))
            (Wait.chunk_line chunks)
            (with_bytes s buffer)
            wire
          ≡ goes_on k
              (read_chunk max chunks (length content) (with_bytes s (content ++ end_line m)))
              wire')
        × (tail ≡ m ++ wire')
        × (f ≤ k)
  unfolding goes_on start
  chunk_read s buffer wire chunks size content tail f h k room e =
      let (more, wire', ran, left) =
        line_read s buffer wire chunks size (content ++ end_line tail) (length content) (suc f) h k
          room e in
      let room' : length (more ++ wire') < max = omega (
        arith,
        room,
        ap length e,
        ap length left,
        size_line-length size (content ++ end_line tail),
      ) in
      elim (Bool-cases (ltb (length more) (length content + 2))) [
        | inl short ↦ (
          [],
          tail,
          f,
          ran
              ∙ data_behind s more wire' chunks content tail f room' left
                  (ltb→lt (length more) (length content + 2) short),
          refl,
          omega arith,
        )
        | inr enough ↦
            let there : length content + 2 ≤ length more = ground arith in
            (
              drop (length content + 2) more,
              wire',
              suc f,
              ran ∙ data_there s more wire' chunks content tail f room' left there,
              (parts_long content tail more wire' left there).1,
              omega arith,
            )
      ]

  -- The chunks are read one behind the other, and their data are in the streambuf at the end.
  pub chunked_read :
      (s : Session H) (buffer wire received : List ℕ) (chunks : List Chunk) (last rest : List ℕ)
      (fuel : ℕ)
      → AreChunks chunks
      → Avoids 10 last
      → stoul_16 last ≡ some 0
      → length received + length (buffer ++ wire) < max
      → buffer ++ wire ≡ chunked_text chunks last rest
      → 2 * length chunks + 2 ≤ fuel
      → (m : List ℕ) × (wire' : List ℕ) × (run on_header asio max fuel
            (Wait.chunk_line received)
            (with_bytes s buffer)
            wire
          ≡ some (End.found (with_bytes s (m ++ (received ++ content_of chunks))), wire'))
        × (rest ≡ m ++ wire')
  unfolding goes_on
  chunked_read s buffer wire received chunks last rest zero hs hl kl room e enough =
      absurd (omega arith)
  chunked_read s buffer wire received chunks last rest (suc zero) hs hl kl room e enough =
      absurd (omega arith)
  chunked_read s buffer wire received [] last rest (suc (suc f)) hs hl kl room e enough =
      let (m, wire', k, ran, left, le) =
        chunk_read s buffer wire received last [] rest f hl kl (omega arith) e in
      (
        m,
        wire',
        ran
            ∙ ap (λ n. goes_on k n wire')
                (read_chunk-last max received m s (
                  omega (
                    arith,
                    room,
                    chunk_fits last [] rest (buffer ++ wire) m wire' e left,
                    length-append {0} m wire',
                  )))
            ∙ ap (λ b. some (End.found (with_bytes s (m ++ b)), wire')) (sym (append-nil received)),
        left,
      )
  chunked_read s buffer wire received ((size, content) ∷ chunks) last rest (suc (suc f)) hs hl kl
        room e enough =
      let tail = chunked_text chunks last rest in
      let (m, wire', k, ran, left, le) =
        chunk_read s buffer wire received size content tail f hs.0 hs.1 (omega arith) e in
      let total = chunk_fits size content tail (buffer ++ wire) m wire' e left in
      let (m2, wire2, ran2, left2) =
        chunked_read s m wire' (received ++ content) chunks last rest k hs.3 hl kl
          (omega (arith, total, room, length-append {0} received content)) (sym left)
          (omega arith) in
      (
        m2,
        wire2,
        ran
            ∙ ap (λ n. goes_on k n wire')
                (read_chunk-data max received content m s hs.2 (omega (arith, total, room)) small)
            ∙ ran2
            ∙ ap (λ b. some (End.found (with_bytes s (m2 ++ b)), wire2))
                (append_assoc received content (content_of chunks)),
        left2,
      )
