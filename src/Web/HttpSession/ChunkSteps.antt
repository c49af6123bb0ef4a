-- ===== src/Web/HttpSession/ChunkSteps.antt =====
-- The handlers of read_chunked_transfer_encoded and read_chunked_transfer_encoded_chunk at bytes that
-- are there (src/network/web/http_server_impl.h,
-- src/network/web/http_client_impl.h).
use barbacoa_server_lib.Prelude.{
  ℕ, suc, ◌+◌, ◌^◌, ◌<◌, ◌≡◌, ◌∙◌, ap, sym, refl, false, List, [], ◌∷◌, ◌++◌, some, length,
  length-append, take, take_prefix, drop_prefix, take_all, arith, append_assoc, append-nil, ltb,
  leb, ◌==◌, lt→not_eq,
}
use barbacoa_server_lib.Web.TextStream.{TextStream, getline, getline-line, Avoids, Avoids-append}
use barbacoa_server_lib.Web.HttpHeader.{drop_last}
use barbacoa_server_lib.Web.HttpHeader.RoundTrip.{text, drop_last-snoc}
use barbacoa_server_lib.Web.Numbers.{stoul_16}
use barbacoa_server_lib.Web.HttpSession.Asio.{Ec, find_text}
use barbacoa_server_lib.Web.HttpSession.Session.{Session, Wait, End, Next, minus_64}
use barbacoa_server_lib.Web.HttpSession.Chunks.{
  get, read_chunk, read_rest, on_size, on_line, on_chunk_line,
}
use barbacoa_server_lib.Web.HttpSession.Reading.{crlf}

-- The session with these bytes in its streambuf.
abbrev pub with_bytes : {H : Type 0} → Session H → List ℕ → Session H
with_bytes s b = record s { content = text b }

-- The line of a chunk's size, and what follows.
abbrev pub size_line : List ℕ → List ℕ → List ℕ
size_line size rest = size ++ (13 ∷ 10 ∷ rest)

pub find_text-size_line :
    (size rest : List ℕ)
    → Avoids 10 size
    → find_text crlf (size_line size rest) ≡ some (length size)
unfolding find_text
find_text-size_line [] rest h = refl
find_text-size_line (c ∷ []) rest h = ground arith
find_text-size_line (c ∷ d ∷ size) rest h =
    rw (find_text-size_line (d ∷ size) rest h.1) (ground arith)

get_two : (m : List ℕ) → get (get (text (13 ∷ 10 ∷ m))) ≡ text m
unfolding get
get_two m = refl

on_line-snoc :
    {H : Type 0} (max : ℕ) (chunks : List ℕ) (b : ℕ) (s : Session H) (size : List ℕ)
    (t : TextStream)
    → on_line max chunks b s (size ++ 13 ∷ [], t)
      ≡ on_size max chunks (minus_64 b (length size + 2)) (record s { content = t }) (stoul_16 size)
on_line-snoc max chunks b s [] t =
    ap (λ x. on_size max chunks (minus_64 b 2) (record s { content = t }) (stoul_16 x))
      (drop_last-snoc [] 13)
on_line-snoc max chunks b s (c ∷ size) t =
    let n : suc (length (size ++ 13 ∷ [])) + 1 ≡ suc (length size) + 2 =
      omega (arith, length-append {0} size (13 ∷ [])) in
    ap
      (λ k.
        on_size max chunks (minus_64 b k) (record s { content = t })
          (stoul_16 (drop_last (c ∷ (size ++ 13 ∷ [])))))
      n
    ∙ ap
        (λ x.
          on_size max chunks (minus_64 b (suc (length size) + 2)) (record s { content = t })
            (stoul_16 x))
        (drop_last-snoc (c ∷ size) 13)

pub read_chunk-data :
    {H : Type 0} (max : ℕ) (chunks data' m : List ℕ) (s : Session H)
    → 0 < length data'
    → length chunks + length data' < max
    → max < 2 ^ 63
    → read_chunk max chunks (length data') (with_bytes s (data' ++ (13 ∷ 10 ∷ m)))
      ≡ Next.wait (Wait.chunk_line (chunks ++ data')) (with_bytes s m)
unfolding read_chunk
read_chunk-data max chunks [] m s h k l = absurd (omega arith)
read_chunk-data max chunks (c ∷ cs) m s h k l =
    let small : leb (2 ^ 63) (suc (length cs)) ≡ false = ground arith in
    let there : ltb (suc (length (cs ++ (13 ∷ 10 ∷ m)))) (suc (length cs)) ≡ false =
      ground (arith, length-append {0} cs (13 ∷ 10 ∷ m)) in
    let all : take max (chunks ++ c ∷ cs) ≡ chunks ++ c ∷ cs =
      take_all max (chunks ++ c ∷ cs) (omega (arith, length-append {0} chunks (c ∷ cs))) in
    let room : (length (chunks ++ c ∷ cs) == max) ≡ false =
      ground (arith, length-append {0} chunks (c ∷ cs)) in
    rw
      (
        small,
        there,
        take_prefix cs (13 ∷ 10 ∷ m),
        drop_prefix cs (13 ∷ 10 ∷ m),
        all,
        room,
        get_two m,
      )
      refl

pub read_chunk-last :
    {H : Type 0} (max : ℕ) (chunks m : List ℕ) (s : Session H)
    → length m + length chunks < max
    → read_chunk max chunks 0 (with_bytes s (13 ∷ 10 ∷ m))
      ≡ Next.done (End.found (with_bytes s (m ++ chunks)))
unfolding read_chunk get
read_chunk-last max [] m s h = ap (λ b. Next.done (End.found (with_bytes s b))) (sym (append-nil m))
read_chunk-last max (c ∷ chunks) m s h =
    ap (λ b. Next.done (End.found (with_bytes s b)))
      (take_all max (m ++ c ∷ chunks) (omega (arith, length-append {0} m (c ∷ chunks))))

minus_self : (a : ℕ) → minus_64 a a ≡ 0
unfolding minus_64
minus_self a = ground arith

minus_zero : (a : ℕ) → minus_64 a 0 ≡ a
unfolding minus_64
minus_zero a = ground arith

-- The handler at a line that is there.
pub on_chunk_line-line :
    {H : Type 0} (max : ℕ) (chunks size more : List ℕ) (n : ℕ) (s : Session H)
    → Avoids 10 size
    → stoul_16 size ≡ some n
    → length (size_line size more) < max
    → on_chunk_line max chunks Ec.success (length size + 2) (with_bytes s (size_line size more))
      ≡ read_rest max chunks n (length more) (with_bytes s more)
unfolding on_chunk_line
on_chunk_line-line max chunks size more n s h k l =
    let room : (length (size_line size more) == max) ≡ false =
      lt→not_eq (length (size_line size more)) max l in
    let line : getline (text (size_line size more)) [] ≡ (size ++ 13 ∷ [], text more) =
      ap (λ b. getline (text b) []) (sym (append_assoc size (13 ∷ []) (10 ∷ more)))
      ∙ getline-line (size ++ 13 ∷ []) more [] (Avoids-append 10 size (13 ∷ []) h (refl, tt)) in
    rw (room, line)
      (on_line-snoc max chunks (length size + 2) (with_bytes s (size_line size more)) size
          (text more)
        ∙ rw (minus_self (length size + 2), k, minus_zero (length more)) refl)
