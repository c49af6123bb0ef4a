-- ===== src/Web/HttpServer/HeaderEnds.antt =====
-- The loop of the header's parser ends at every streambuf that holds an empty line
-- (src/network/web/http_server_impl.h, include/server_lib/network/web/web_entities.h).
use barbacoa_server_lib.Prelude.{
  ℕ, zero, suc, ◌+◌, ◌<◌, ◌≤◌, ◌≡◌, ◌≢◌, ◌∙◌, ap, sym, refl, subst, Bool, true, false, List, [],
  ◌∷◌, ◌++◌, Option, none, some, length, arith, append_assoc, ◌==◌, Bool-cases, Option-cases, inl,
  inr, ◌⊎◌, bytes_eq, codes, substr, drop, ◌-◌, ◌&&◌, ltb,
}
use barbacoa_server_lib.Web.QueryString.{Field}
use barbacoa_server_lib.Web.TextStream.{TextStream, take_line, getline, find_char, prepend}
use barbacoa_server_lib.Web.HttpHeader
use barbacoa_server_lib.Web.HttpHeader.{read_field, parse_lines, on_colon}
use barbacoa_server_lib.Web.HttpHeader.RoundTrip.{text}
use barbacoa_server_lib.Web.Request
use barbacoa_server_lib.Web.Request.{
  Request, scan_path, find_from, read_line, read_method, read_target, read_version, set_path,
}
use barbacoa_server_lib.Web.HttpSession.Asio.{starts, find_text}
use barbacoa_server_lib.Web.HttpSession.Asio.{Ec}
use barbacoa_server_lib.Web.HttpSession.Session.{
  Session, Next, End, if_success, is_full, success_or_not_found, minus_64,
}
use barbacoa_server_lib.Web.HttpServer.Session.{
  on_parsed, read_content, on_header, read_length, read_encoding, on_length_field,
}
use barbacoa_server_lib.Web.Fields.{find, Pick}
use barbacoa_server_lib.Web.Numbers.{stoull}
use barbacoa_server_lib.Web.HttpSession.ChunkSteps.{with_bytes}
use barbacoa_server_lib.Web.HttpSession.Reading.{crlf, blank_line}

-- A stream with an empty line in it, or right at its front.
abbrev HasEmpty : List ℕ → Type 0
HasEmpty u = (starts crlf u ≡ true) ⊎ ((i : ℕ) × (find_text blank_line u ≡ some i))

starts-prefix : (d u : List ℕ) → starts d u ≡ true → (v : List ℕ) × (u ≡ d ++ v)
starts-prefix [] u h = (u, refl)
starts-prefix (a ∷ d) [] h = absurd (cc)
starts-prefix (a ∷ d) (b ∷ u) h = elim (Bool-cases (a == b)) [
  | inl e ↦
      let (v, rest) = starts-prefix d u (ground arith) in
      let same : b ≡ a = ground arith in (v, rw (same, rest) refl)
  | inr e ↦ absurd (ground arith)
]

-- The first character of a text with an empty line in it: a text with one follows, unless it is the end of
-- a line that an empty one follows.
next_char :
    (c : ℕ) (cs : List ℕ) (i : ℕ)
    → find_text blank_line (c ∷ cs) ≡ some i
    → ((v : List ℕ) × (cs ≡ 10 ∷ 13 ∷ 10 ∷ v) × (c ≡ 13))
      ⊎ ((j : ℕ) × (find_text blank_line cs ≡ some j))
unfolding find_text
next_char c cs i h = elim (Bool-cases (starts blank_line (c ∷ cs))) [
  | inl e ↦ let (v, whole) = starts-prefix blank_line (c ∷ cs) e in inl (v, cc, cc)
  | inr e ↦ elim (Option-cases (find_text blank_line cs)) [
    | inl n ↦ let q : find_text blank_line (c ∷ cs) ≡ none = rw (e, n) refl in absurd (cc)
    | inr s ↦ inr s
  ]
]

abbrev add_prefix : List ℕ → List ℕ × TextStream → List ℕ × TextStream
add_prefix p (line, s) = (p ++ line, s)

abbrev Ends : Option (List Field × TextStream) → Type 0
Ends o = (out : List Field × TextStream) × (o ≡ some out)

-- A line: the loop ends there, or goes on.
at_line :
    (f : ℕ) (acc : List Field) (line : List ℕ) (s : TextStream)
    → ((acc' : List Field) → Ends (parse_lines f acc' (getline s line)))
    → Ends (parse_lines (suc f) acc (line, s))
unfolding parse_lines
at_line f acc line s go = elim (Option-cases (find_char b':' line)) [
  | inl n ↦ ((acc, s), rw n refl)
  | inr (e, q) ↦ let (out, ends) = go (read_field acc line e) in (out, rw q ends)
]

-- An empty line ends the loop.
at_empty :
    (f : ℕ) (acc : List Field) (v old : List ℕ)
    → 0 < f
    → Ends (parse_lines f acc (getline (text (13 ∷ 10 ∷ v)) old))
unfolding parse_lines getline find_char
at_empty zero acc v old h = absurd (omega arith)
at_empty (suc f) acc v old h = ((acc, text v), refl)

nothing_found : (i : ℕ) → find_text blank_line [] ≢ some i
nothing_found i h = let q : find_text blank_line [] ≡ none = unfold find_text in refl in absurd (cc)

take_line-end : (c : ℕ) (cs : List ℕ) → c == 10 ≡ true → take_line (c ∷ cs) ≡ ([], text cs)
unfolding take_line
take_line-end c cs e = rw e refl

take_line-char :
    (c : ℕ) (cs : List ℕ) → c == 10 ≡ false → take_line (c ∷ cs) ≡ prepend c (take_line cs)
unfolding take_line
take_line-char c cs e = rw e refl

add_prefix-prepend :
    (p : List ℕ) (c : ℕ) (l : List ℕ × TextStream)
    → add_prefix p (prepend c l) ≡ add_prefix (p ++ c ∷ []) l
add_prefix-prepend p c (line, s) = ap (λ t. (t, s)) (sym (append_assoc p (c ∷ []) line))

lines_end :
    (u : List ℕ) (f i : ℕ) (acc : List Field) (p : List ℕ)
    → find_text blank_line u ≡ some i
    → length u < f
    → Ends (parse_lines f acc (add_prefix p (take_line u)))
unfolding getline
lines_end u zero i acc p h lt = absurd (omega arith)
lines_end [] (suc f) i acc p h lt = absurd (nothing_found i h)
lines_end (c ∷ cs) (suc f) i acc p h lt = elim (Bool-cases (c == 10)) [
  | inl e ↦ elim (next_char c cs i h) [
    | inl (v, q, w) ↦ absurd (ground arith)
    | inr (j, q) ↦
        rw (take_line-end c cs e)
          (at_line f acc (p ++ []) (text cs) (λ acc'. lines_end cs f j acc' [] q (omega arith)))
  ]
  | inr e ↦
      rw (take_line-char c cs e, add_prefix-prepend p c (take_line cs))
        (elim (next_char c cs i h) [
          | inl (v, q, w) ↦
              let long = ap length q in
              rw (ap take_line q ∙ take_line-end 10 (13 ∷ 10 ∷ v) refl) (
                at_line f acc ((p ++ c ∷ []) ++ []) (text (13 ∷ 10 ∷ v))
                  (λ acc'. at_empty f acc' v ((p ++ c ∷ []) ++ []) (omega (arith, long))))
          | inr (j, q) ↦ lines_end cs (suc f) j acc (p ++ c ∷ []) q (omega arith)
        ])
]

-- A first line leaves the header behind it.
first_line :
    (u : List ℕ) (i : ℕ)
    → find_text blank_line u ≡ some i
    → (line : List ℕ) × (rest : List ℕ) × (take_line u ≡ (line, text rest))
      × (length rest < length u)
      × HasEmpty rest
first_line [] i h = absurd (nothing_found i h)
first_line (c ∷ cs) i h = elim (Bool-cases (c == 10)) [
  | inl e ↦ elim (next_char c cs i h) [
    | inl (v, q, w) ↦ absurd (ground arith)
    | inr found ↦ ([], cs, take_line-end c cs e, omega arith, inr found)
  ]
  | inr e ↦ elim (next_char c cs i h) [
    | inl (v, q, w) ↦
        let long = ap length q in
        (
          c ∷ [],
          13 ∷ 10 ∷ v,
          take_line-char c cs e
              ∙ ap (λ t. prepend c (take_line t)) q
              ∙ ap (prepend c) (take_line-end 10 (13 ∷ 10 ∷ v) refl),
          omega (arith, long),
          inl refl,
        )
    | inr (j, q) ↦
        let (line, rest, taken, shorter, has) = first_line cs j q in
        (c ∷ line, rest, take_line-char c cs e ∙ ap (prepend c) taken, omega arith, has)
  ]
]

-- The header's parser ends.
header-Ends :
    (rest : List ℕ) (f : ℕ)
    → HasEmpty rest
    → length rest < f
    → Ends (HttpHeader.parse f (text rest))
unfolding HttpHeader.parse
header-Ends rest f (inl at_front) lt =
    let (v, q) = starts-prefix crlf rest at_front in rw q (at_empty f [] v [] (omega arith))
header-Ends rest f (inr (i, found)) lt = unfold getline in lines_end rest f i [] [] found lt

-- A request is parsed, or refused.
abbrev Answers : Option Request.Parsed → Type 0
Answers o = (p : Request.Parsed) × (o ≡ some p)

module _ (f : ℕ) (line : List ℕ) (s : TextStream) (ended : Ends (HttpHeader.parse f s)) where
  version-Answers : (end : ℕ) (o : Option ℕ) (r : Request) → Answers (read_version f line end o r s)
  version-Answers end none r = ((false, r, s), refl)
  version-Answers end (some protocol_end) r =
      elim (Bool-cases (bytes_eq (substr line (end + 1) (protocol_end - end - 1)) (codes "HTTP"))) [
        | inl h ↦ (
          (
            true,
            record r {
              version = substr line (protocol_end + 1) (length line - protocol_end - 2);
              header = (ended.0).0;
            },
            (ended.0).1,
          ),
          rw (h, ended.1) refl,
        )
        | inr h ↦ ((false, r, s), rw h refl)
      ]

  target-Answers :
      (method_end : ℕ) (found : Option ℕ × Option ℕ) (r : Request)
      → Answers (read_target f line method_end found r s)
  target-Answers method_end (query_start, none) r = ((false, r, s), refl)
  target-Answers method_end (query_start, some end) r =
      version-Answers end (find_from b'/' line (end + 1))
        (set_path line method_end query_start end r)

  method-Answers : (o : Option ℕ) (r : Request) → Answers (read_method f line o r s)
  method-Answers none r = ((false, r, s), refl)
  method-Answers (some method_end) r =
      target-Answers method_end
        (scan_path (length line) (drop (method_end + 1) line) (method_end + 1) none)
        (record r { method = substr line 0 method_end })

request_ends :
    (u : List ℕ) (f i : ℕ) (r : Request)
    → find_text blank_line u ≡ some i
    → length u ≤ f
    → Answers (Request.parse f (text u) r)
unfolding Request.parse getline
request_ends u f i r h le =
    let (line, rest, taken, shorter, has) = first_line u i h in
    subst (λ l. Answers (read_line f (record r { header = [] }) l)) (sym taken)
      (method-Answers f line (text rest) (header-Ends rest f has (omega arith))
        (find_char b' ' line) (record r { header = [] }))

-- A handler that comes to an end.
abbrev pub is_hung : Next Request → Bool
is_hung (Next.wait w s) = false
is_hung (Next.done End.hung) = true
is_hung (Next.done (End.found s)) = false
is_hung (Next.done (End.rejected e s)) = false
is_hung (Next.done End.stopped) = false
is_hung (Next.done End.thrown) = false
is_hung (Next.done End.undefined) = false

length_ends : (num : ℕ) (s : Session Request) (o : Option ℕ) → is_hung (read_length num s o) ≡ false
length_ends num s none = refl
length_ends num s (some n) = elim (Bool-cases (ltb num n)) [ inl h ↦ rw h refl | inr h ↦ rw h refl ]

encoding_ends : (s : Session Request) (o : Option (List ℕ)) → is_hung (read_encoding s o) ≡ false
encoding_ends s none = refl
encoding_ends s (some value) = elim (Bool-cases (bytes_eq value (codes "chunked"))) [
  | inl h ↦ rw h refl
  | inr h ↦ rw h refl
]

field_ends :
    (num : ℕ) (s : Session Request) (o e : Option (List ℕ))
    → is_hung (on_length_field num s o e) ≡ false
field_ends num s none e = encoding_ends s e
field_ends num s (some value) e = length_ends num s (stoull value)

parsed_ends :
    (pick : Pick) (num : ℕ) (s : Session Request) (p : Request.Parsed)
    → is_hung (on_parsed pick num s (some p)) ≡ false
unfolding read_content
parsed_ends pick num s (false, r, t) = refl
parsed_ends pick num s (true, r, t) =
    field_ends num (record s { content = t; head = r })
      (find pick (codes "Content-Length") r.header) (find pick (codes "Transfer-Encoding") r.header)

success_ends :
    (ec : Ec) (s : Session Request) (go : Next Request)
    → is_hung go ≡ false
    → is_hung (if_success ec s go) ≡ false
success_ends Ec.success s go h = h
success_ends Ec.not_found s go h = refl
success_ends Ec.eof s go h = refl
success_ends (Ec.other c) s go h = refl

-- Whatever bytes a client sends: where they hold an empty line, the handler of the header comes to the end of its
-- loop over the fields, and of itself, whichever of several values of a name a lookup gives.
pub header_never_hangs :
    (pick : Pick) (max n : ℕ) (ec : Ec) (s : Session Request) (u : List ℕ) (i : ℕ)
    → find_text blank_line u ≡ some i
    → is_hung (on_header pick max ec n (with_bytes s u)) ≡ false
unfolding on_header
header_never_hangs pick max n ec s u i h =
    let (p, parsed) = request_ends u (length u + 1) i s.head h (omega arith) in
    elim (Bool-cases (success_or_not_found ec && is_full max (with_bytes s u))) [
      | inl full ↦ rw full refl
      | inr room ↦
          rw (room, parsed)
            (success_ends ec (with_bytes s u)
              (on_parsed pick (minus_64 (length u) n) (with_bytes s u) (some p))
              (parsed_ends pick (minus_64 (length u) n) (with_bytes s u) p))
    ]
