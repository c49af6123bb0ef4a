-- ===== src/Web/HttpSession/Chunks.antt =====
-- read_chunked_transfer_encoded and read_chunked_transfer_encoded_chunk
-- (src/network/web/http_server_impl.h,
-- src/network/web/http_client_impl.h).
use barbacoa_server_lib.Prelude.{
  ℕ, zero, suc, ◌+◌, ◌-◌, ◌%◌, ◌^◌, true, false, ◌&&◌, ◌||◌, List, [], ◌∷◌, ◌++◌, Option, none,
  some, length, is_empty, take, drop, ltb, leb, ◌==◌, if◌then◌else◌,
}
use barbacoa_server_lib.Web.TextStream.{TextStream, getline}
use barbacoa_server_lib.Web.HttpHeader.{drop_last}
use barbacoa_server_lib.Web.Numbers.{stoul_16}
use barbacoa_server_lib.Web.HttpSession.Asio.{Ec}
use barbacoa_server_lib.Web.HttpSession.Session.{
  Session, Wait, End, Next, minus_64, too_large, bad_protocol, is_full, success_or_not_found,
  if_success,
}

abbrev pub got : List ℕ → TextStream
got [] = record { rest = []; eof = true }
got (c ∷ cs) = record { rest = cs; eof = false }

-- `_content.get()`
unfoldable pub get : TextStream → TextStream
get t = if t.eof then t else got t.rest

-- Behind the data of a chunk: its end is removed, and the next line is read.
abbrev pub next_chunk : {H : Type 0} → ℕ → List ℕ → Session H → Next H
next_chunk max chunks s =
    if length chunks == max
    then too_large s
    else Next.wait (Wait.chunk_line chunks) (record s { content = get (get s.content) })

-- Behind the last chunk: `ostream << chunks_streambuf.get()` into the streambuf.
abbrev pub last_chunk : {H : Type 0} → ℕ → List ℕ → Session H → Next H
last_chunk max chunks s =
    let t = get (get s.content) in
    let whole = if is_empty chunks then t else record t { rest = take max (t.rest ++ chunks) } in
    Next.done (End.found (record s { content = whole }))

-- `read_chunked_transfer_encoded_chunk`. `new char[length]` throws at 2 ^ 63 bytes or more, and data that is not
-- there leaves the buffer unwritten.
unfoldable pub read_chunk : {H : Type 0} → ℕ → List ℕ → ℕ → Session H → Next H
unfolding get
read_chunk max chunks zero s = last_chunk max chunks s
read_chunk max chunks (suc l) s =
    if leb (2 ^ 63) (suc l)
    then Next.done End.thrown
    else (if s.content.eof || ltb (length s.content.rest) (suc l)
        then Next.done End.undefined
        else next_chunk max (take max (chunks ++ take (suc l) s.content.rest))
            (record s { content = record s.content { rest = drop (suc l) s.content.rest } }))

-- From `num_additional_bytes` on: `2 + length` is an unsigned long.
abbrev pub read_rest : {H : Type 0} → ℕ → List ℕ → ℕ → ℕ → Session H → Next H
read_rest max chunks size num_additional_bytes s =
    let needed = (2 + size) % 2 ^ 64 in
    if ltb num_additional_bytes needed
    then Next.wait (Wait.chunk_rest chunks size (needed - num_additional_bytes)) s
    else read_chunk max chunks size s

abbrev pub on_size : {H : Type 0} → ℕ → List ℕ → ℕ → Session H → Option ℕ → Next H
on_size max chunks bytes_transferred s none = bad_protocol s
on_size max chunks bytes_transferred s (some size) =
    read_rest max chunks size (minus_64 (length s.content.rest) bytes_transferred) s

-- `line.pop_back()` on an empty line is undefined.
abbrev pub on_line : {H : Type 0} → ℕ → List ℕ → ℕ → Session H → List ℕ × TextStream → Next H
on_line max chunks bytes_transferred s ([], t) = Next.done End.undefined
on_line max chunks bytes_transferred s (c ∷ cs, t) =
    on_size max chunks (minus_64 bytes_transferred (length (c ∷ cs) + 1)) (record s { content = t })
      (stoul_16 (drop_last (c ∷ cs)))

-- The handler of `read_chunked_transfer_encoded`.
unfoldable pub on_chunk_line : {H : Type 0} → ℕ → List ℕ → Ec → ℕ → Session H → Next H
unfolding getline stoul_16 drop_last minus_64 read_chunk
on_chunk_line max chunks ec bytes_transferred s =
    if success_or_not_found ec && is_full max s
    then too_large s
    else if_success ec s (on_line max chunks bytes_transferred s (getline s.content []))

-- The handler of the read of the rest of a chunk.
unfoldable pub on_chunk_rest : {H : Type 0} → ℕ → List ℕ → ℕ → Ec → Session H → Next H
unfolding read_chunk
on_chunk_rest max chunks size ec s =
    if_success ec s (if is_full max s then too_large s else read_chunk max chunks size s)
