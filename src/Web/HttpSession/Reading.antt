-- ===== src/Web/HttpSession/Reading.antt =====
-- The reads of a session in turn, over what boost::asio delivers (src/network/web/http_server_impl.h,
-- src/network/web/http_client_impl.h).
use barbacoa_server_lib.Prelude.{ℕ, zero, suc, Bool, true, false, List, [], ◌∷◌, Option, none, some}
use barbacoa_server_lib.Web.HttpSession.Asio.{Asio, Ec, Completion}
use barbacoa_server_lib.Web.HttpSession.Session.{Session, Wait, End, Next, on_body}
use barbacoa_server_lib.Web.HttpSession.Chunks.{on_chunk_line, on_chunk_rest}

abbrev pub received : {H : Type 0} → Session H → List ℕ → Session H
received s buffer = record s { content = record s.content { rest = buffer } }

abbrev pub crlf : List ℕ
crlf = 13 ∷ 10 ∷ []

abbrev pub blank_line : List ℕ
blank_line = 13 ∷ 10 ∷ 13 ∷ 10 ∷ []

-- What boost::asio is asked for.
abbrev pub start_read : Asio → ℕ → Wait → List ℕ → List ℕ → Completion
start_read asio max Wait.header buffer wire = asio.read_until blank_line max buffer wire
start_read asio max (Wait.body n) buffer wire = asio.read_exactly n max buffer wire
start_read asio max (Wait.chunk_line chunks) buffer wire = asio.read_until crlf max buffer wire
start_read asio max (Wait.chunk_rest chunks size n) buffer wire =
    asio.read_exactly n max buffer wire
start_read asio max Wait.until_eof buffer wire = asio.read_all max buffer wire

-- The handler of the read of a header.
abbrev pub Header : Type 0 → Type 0
Header H = ℕ → Ec → ℕ → Session H → Next H

-- The handler of the client's read of all; the end of the stream is no error.
unfoldable pub on_all : {H : Type 0} → ℕ → Ec → Session H → Next H
unfolding on_body
on_all max Ec.eof s = Next.done (End.found s)
on_all max Ec.success s = on_body max Ec.success s
on_all max Ec.not_found s = on_body max Ec.not_found s
on_all max (Ec.other c) s = on_body max (Ec.other c) s

-- The handler of a read; `lock` is what continue_lock gives it.
unfoldable pub on_read :
    {H : Type 0} → Header H → Bool → ℕ → Wait → Session H → Completion → Next H × List ℕ
unfolding on_body on_all on_chunk_line on_chunk_rest
on_read on_header false max w s (ec, n, buffer, wire) = (Next.done End.stopped, wire)
on_read on_header true max Wait.header s (ec, n, buffer, wire) =
    (on_header max ec n (received s buffer), wire)
on_read on_header true max (Wait.body m) s (ec, n, buffer, wire) =
    (on_body max ec (received s buffer), wire)
on_read on_header true max (Wait.chunk_line chunks) s (ec, n, buffer, wire) =
    (on_chunk_line max chunks ec n (received s buffer), wire)
on_read on_header true max (Wait.chunk_rest chunks size m) s (ec, n, buffer, wire) =
    (on_chunk_rest max chunks size ec (received s buffer), wire)
on_read on_header true max Wait.until_eof s (ec, n, buffer, wire) =
    (on_all max ec (received s buffer), wire)

abbrev pub Ended : Type 0 → Type 0
Ended H = Option (End H × List ℕ)

abbrev pub and_then :
    {H : Type 0} → (Wait → Session H → List ℕ → Ended H) → Next H × List ℕ → Ended H
and_then go (Next.wait w s, wire) = go w s wire
and_then go (Next.done e, wire) = some (e, wire)

-- The reads of a session whose handlers get their locks, from the wait `w` on, until one of them ends it. The
-- fuel is the number of reads.
unfoldable pub run : {H : Type 0} → Header H → Asio → ℕ → ℕ → Wait → Session H → List ℕ → Ended H
unfolding on_read
run on_header asio max zero w s wire = none
run on_header asio max (suc fuel) w s wire =
    and_then (λ w' s' wire'. run on_header asio max fuel w' s' wire')
      (on_read on_header true max w s (start_read asio max w s.content.rest wire))
