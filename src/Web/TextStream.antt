-- ===== src/Web/TextStream.antt =====
-- `std::getline` over a stream of bytes.
use barbacoa_server_lib.Prelude.{
  ℕ, suc, ◌≡◌, ap, refl, Bool, true, false, List, [], ◌∷◌, ◌++◌, Option, none, some, ◌==◌,
  if◌then◌else◌, arith, length, not, ◌&&◌, Bool-cases, inl, inr,
}

-- `eof` is the flag that a read past the end sets.
pub record TextStream : Type 0 where
  pub rest : List ℕ
  pub eof : Bool

abbrev pub prepend : ℕ → List ℕ × TextStream → List ℕ × TextStream
prepend c (line, s) = (c ∷ line, s)

unfoldable pub take_line : List ℕ → List ℕ × TextStream
take_line [] = ([], record { rest = []; eof = true })
take_line (c ∷ cs) =
    let more = prepend c (take_line cs) in
    if c == 10 then ([], record { rest = cs; eof = false }) else more

-- `getline(stream, line)`: at a stream whose end was met, `line` keeps what it had.
unfoldable pub getline : TextStream → List ℕ → List ℕ × TextStream
unfolding take_line
getline s line = if s.eof then (line, s) else take_line s.rest

-- `line.find(c)`
abbrev pub shift : Option ℕ → Option ℕ
shift none = none
shift (some i) = some (suc i)

unfoldable pub find_char : ℕ → List ℕ → Option ℕ
find_char c [] = none
find_char c (x ∷ xs) = let rest = shift (find_char c xs) in if x == c then some 0 else rest

-- Text without the character `c`.
abbrev pub Avoids : ℕ → List ℕ → Type 0
Avoids c [] = Unit {0}
Avoids c (x ∷ xs) = ((x == c) ≡ false) × Avoids c xs

-- As a test.
unfoldable pub avoids : ℕ → List ℕ → Bool
avoids c [] = true
avoids c (x ∷ xs) = not (x == c) && avoids c xs

pub avoids-Avoids : (c : ℕ) (xs : List ℕ) → avoids c xs ≡ true → Avoids c xs
unfolding avoids
avoids-Avoids c [] h = tt
avoids-Avoids c (x ∷ xs) h = elim (Bool-cases (x == c)) [
  | inl e ↦ absurd (ground arith)
  | inr e ↦ (e, avoids-Avoids c xs (ground arith))
]

pub Avoids-append : (c : ℕ) (xs ys : List ℕ) → Avoids c xs → Avoids c ys → Avoids c (xs ++ ys)
Avoids-append c [] ys h k = k
Avoids-append c (x ∷ xs) ys h k = (h.0, Avoids-append c xs ys h.1 k)

pub find_char-first :
    (c : ℕ) (xs ys : List ℕ) → Avoids c xs → find_char c (xs ++ c ∷ ys) ≡ some (length xs)
unfolding find_char
find_char-first c [] ys h = ground arith
find_char-first c (x ∷ xs) ys h = rw (h.0, find_char-first c xs ys h.1) refl

pub find_char-none : (c : ℕ) (xs : List ℕ) → Avoids c xs → find_char c xs ≡ none
unfolding find_char
find_char-none c [] h = refl
find_char-none c (x ∷ xs) h = rw (h.0, find_char-none c xs h.1) refl

-- A line with its end.
pub getline-line :
    (line rest old : List ℕ)
    → Avoids 10 line
    → getline (record { rest = line ++ 10 ∷ rest; eof = false }) old
      ≡ (line, record { rest = rest; eof = false })
unfolding getline
getline-line [] rest old h = refl
getline-line (c ∷ line) rest old h = rw (h.0) (ap (prepend c) (getline-line line rest old h.1))

-- A line that the end of the stream ends.
pub getline-unended :
    (line old : List ℕ)
    → Avoids 10 line
    → getline (record { rest = line; eof = false }) old ≡ (line, record { rest = []; eof = true })
unfolding getline
getline-unended [] old h = refl
getline-unended (c ∷ line) old h = rw (h.0) (ap (prepend c) (getline-unended line old h.1))
