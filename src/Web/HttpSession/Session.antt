-- ===== src/Web/HttpSession/Session.antt =====
-- What the handlers of the server's and of the client's reads have in common. The streambuf and the stream
-- `_content` over it are one TextStream, and `max` is max_request_streambuf_size, or
-- max_response_streambuf_size.
use barbacoa_server_lib.Prelude.{
  ℕ, ◌+◌, ◌-◌, ◌%◌, ◌^◌, Bool, true, false, List, length, ltb, leb, ◌==◌, if◌then◌else◌,
}
use barbacoa_server_lib.Web.TextStream.{TextStream}
use barbacoa_server_lib.Web.HttpSession.Asio.{Ec}

-- `head` is the request, or the response, that is read.
pub record Session (H : Type 0) : Type 0 where
  pub id : ℕ
  pub content : TextStream
  pub head : H

-- The reads that a session waits for; those of a chunk carry `chunks_streambuf`.
pub data Wait : Type 0 where
  header : Wait
  body : (n : ℕ) → Wait
  chunk_line : (chunks : List ℕ) → Wait
  chunk_rest : (chunks : List ℕ) → (size : ℕ) → (n : ℕ) → Wait
  until_eof : Wait

-- What `on_error`, or the callback of a request, is told.
pub data Errc : Type 0 where
  message_size : Errc
  protocol_error : Errc
  operation_canceled : Errc
  code : Ec → Errc

-- Where the reads end: with a message that is there; with an error; when continue_lock fails; with an
-- exception; at a point where the behaviour is undefined; in a loop of the header's parser that goes on.
pub data End (H : Type 0) : Type 0 where
  found : (s : Session H) → End H
  rejected : Errc → (s : Session H) → End H
  stopped : End H
  thrown : End H
  undefined : End H
  hung : End H

pub data Next (H : Type 0) : Type 0 where
  wait : Wait → Session H → Next H
  done : End H → Next H

-- `a - b` on size_t.
unfoldable pub minus_64 : ℕ → ℕ → ℕ
minus_64 a b = if leb b a then a - b else (a + 2 ^ 64 - b) % 2 ^ 64

abbrev pub too_large : {H : Type 0} → Session H → Next H
too_large s = Next.done (End.rejected Errc.message_size s)

abbrev pub bad_protocol : {H : Type 0} → Session H → Next H
bad_protocol s = Next.done (End.rejected Errc.protocol_error s)

abbrev pub is_full : {H : Type 0} → ℕ → Session H → Bool
is_full max s = length s.content.rest == max

-- `!ec || ec == asio::error::not_found`
abbrev pub success_or_not_found : Ec → Bool
success_or_not_found Ec.success = true
success_or_not_found Ec.not_found = true
success_or_not_found Ec.eof = false
success_or_not_found (Ec.other c) = false

-- The `if (!ec)` and its `else` of the handlers.
abbrev pub if_success : {H : Type 0} → Ec → Session H → Next H → Next H
if_success Ec.success s go = go
if_success Ec.not_found s go = Next.done (End.rejected (Errc.code Ec.not_found) s)
if_success Ec.eof s go = Next.done (End.rejected (Errc.code Ec.eof) s)
if_success (Ec.other c) s go = Next.done (End.rejected (Errc.code (Ec.other c)) s)

-- The loop of the header's parser has as much fuel as the streambuf has bytes.
abbrev pub fuel : {H : Type 0} → Session H → ℕ
fuel s = length s.content.rest + 1

-- The handler of the read of a content of known size.
unfoldable pub on_body : {H : Type 0} → ℕ → Ec → Session H → Next H
on_body max ec s = if_success ec s (if is_full max s then too_large s else Next.done (End.found s))

-- Behind a header with a Content-Length.
abbrev pub read_body : {H : Type 0} → ℕ → ℕ → Session H → Next H
read_body num_additional_bytes content_length s =
    if ltb num_additional_bytes content_length
    then Next.wait (Wait.body (content_length - num_additional_bytes)) s
    else Next.done (End.found s)
