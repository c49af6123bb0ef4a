-- ===== src/Web/HttpSession/Asio.antt =====
-- What the sessions use of boost::asio: a read until a delimiter and a read of a number of bytes, into
-- a streambuf of at most `max` bytes. The second list is what the peer sends from here on.
use barbacoa_server_lib.Prelude.{
  ℕ, ◌+◌, ◌≤◌, ◌<◌, ◌≡◌, Bool, true, false, ◌&&◌, List, [], ◌∷◌, ◌++◌, Option, none, some, length,
  take, drop, ◌==◌, if◌then◌else◌,
}
use barbacoa_server_lib.Web.TextStream.{shift}

-- An error_code: none, `asio::error::not_found`, `asio::error::eof`, or another one.
pub data Ec : Type 0 where
  success : Ec
  not_found : Ec
  eof : Ec
  other : ℕ → Ec

-- A completed read: its error, `bytes_transferred`, the streambuf, and what is still to come.
abbrev pub Completion : Type 0
Completion = Ec × ℕ × List ℕ × List ℕ

abbrev pub starts : List ℕ → List ℕ → Bool
starts [] s = true
starts (d ∷ ds) [] = false
starts (d ∷ ds) (c ∷ cs) = d == c && starts ds cs

-- Where a text is found first.
unfoldable pub find_text : List ℕ → List ℕ → Option ℕ
find_text d [] = none
find_text d (c ∷ cs) =
    let rest = shift (find_text d cs) in if starts d (c ∷ cs) then some 0 else rest

-- `async_read_until(socket, streambuf, delimiter)`, `async_read(socket, streambuf, transfer_exactly(n))` and
-- `async_read(socket, streambuf)`.
pub record Asio : Type 0 where
  pub read_until : List ℕ → ℕ → List ℕ → List ℕ → Completion
  pub read_exactly : ℕ → ℕ → List ℕ → List ℕ → Completion
  pub read_all : ℕ → List ℕ → List ℕ → Completion

-- As documented: a read until a delimiter that is there ends behind it, and may leave more in the
-- streambuf; a read of a number of bytes that come appends just these; a read of all ends with
-- the end of what the peer sends. The streambuf has room.
pub record IsDocumented (asio : Asio) : Type 0 where
  pub until_lem :
      (d : List ℕ) (max : ℕ) (buffer wire : List ℕ) (i : ℕ)
      → length (buffer ++ wire) < max
      → find_text d (buffer ++ wire) ≡ some i
      → (more : List ℕ) × (wire' : List ℕ) × (asio.read_until d max buffer wire
          ≡ (Ec.success, i + length d, take (i + length d) (buffer ++ wire) ++ more, wire'))
        × (drop (i + length d) (buffer ++ wire) ≡ more ++ wire')
  pub exactly_lem :
      (n max : ℕ) (buffer wire : List ℕ)
      → length (buffer ++ wire) < max
      → n ≤ length wire
      → asio.read_exactly n max buffer wire ≡ (Ec.success, n, buffer ++ take n wire, drop n wire)
  pub all_lem :
      (max : ℕ) (buffer wire : List ℕ)
      → length (buffer ++ wire) < max
      → asio.read_all max buffer wire ≡ (Ec.eof, length wire, buffer ++ wire, [])
