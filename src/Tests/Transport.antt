-- ===== src/Tests/Transport.antt =====
-- A concrete transport, and the conditions on texts as tests.
use barbacoa_server_lib.Web.Fields.{Pick, IsPick, some_value}
use barbacoa_server_lib.Prelude.{
  ◌||◌, Option, ℕ, ◌+◌, ◌≡◌, sym, refl, true, false, List, [], ◌∷◌, ◌++◌, Option, none, some, arith,
  take, drop, take-drop, append-nil, length, leb, le→leb, not, ◌&&◌, ◌==◌, Bool, if◌then◌else◌,
}
use barbacoa_server_lib.Web.QueryString.{Field}
use barbacoa_server_lib.Web.HttpHeader.RoundTrip.{AreHeaders, NoBlank}
use barbacoa_server_lib.Web.TextStream.{avoids, avoids-Avoids}
use barbacoa_server_lib.Web.Request.RoundTrip.{IsTarget}
use barbacoa_server_lib.Web.HttpSession.Asio.{Asio, IsDocumented, Ec, Completion, find_text}

-- The conditions on texts, as tests.
unfoldable pub no_blank : List ℕ → Bool
no_blank [] = true
no_blank (c ∷ cs) = not (c == b' ')

no_blank-NoBlank : (v : List ℕ) → no_blank v ≡ true → NoBlank v
unfolding no_blank
no_blank-NoBlank [] h = tt
no_blank-NoBlank (c ∷ cs) h = ground arith

unfoldable pub are_headers : List Field → Bool
unfolding avoids no_blank
are_headers [] = true
are_headers ((name, value) ∷ fields) =
    (avoids b':' name && avoids 10 name)
    && ((avoids 10 value && no_blank value) && are_headers fields)

and_parts : (a b : Bool) → a && b ≡ true → (a ≡ true) × (b ≡ true)
and_parts true b h = (refl, h)
and_parts false b h = absurd (cc)

pub are_headers-AreHeaders : (fields : List Field) → are_headers fields ≡ true → AreHeaders fields
unfolding are_headers
are_headers-AreHeaders [] h = tt
are_headers-AreHeaders ((name, value) ∷ fields) h =
    let (n, rest) = and_parts (avoids b':' name && avoids 10 name) _ h in
    let (v, others) = and_parts (avoids 10 value && no_blank value) (are_headers fields) rest in
    let (n1, n2) = and_parts (avoids b':' name) (avoids 10 name) n in
    let (v1, v2) = and_parts (avoids 10 value) (no_blank value) v in
    (
      avoids-Avoids b':' name n1,
      avoids-Avoids 10 name n2,
      avoids-Avoids 10 value v1,
      no_blank-NoBlank value v2,
      are_headers-AreHeaders fields others,
    )

pub target :
    (p : List ℕ) → avoids b' ' p ≡ true → avoids b'?' p ≡ true → avoids 10 p ≡ true → IsTarget p
target p a b c = record {
  no_blank = avoids-Avoids b' ' p a;
  no_mark = avoids-Avoids b'?' p b;
  no_end = avoids-Avoids 10 p c;
}

-- A transport that delivers all that the peer sends at the first read.
abbrev found_at : List ℕ → List ℕ → Option ℕ → Completion
found_at d whole none = (Ec.eof, 0, whole, [])
found_at d whole (some i) = (Ec.success, i + length d, whole, [])

unfoldable pub all_at_once : Asio
unfolding find_text
all_at_once = record {
  read_until = λ d max buffer wire. found_at d (buffer ++ wire) (find_text d (buffer ++ wire));
  read_exactly = λ n max buffer wire.
      if leb n (length wire)
      then (Ec.success, n, buffer ++ take n wire, drop n wire)
      else (Ec.eof, length wire, buffer ++ wire, []);
  read_all = λ max buffer wire. (Ec.eof, length wire, buffer ++ wire, []);
}

pub all_at_once-IsDocumented : IsDocumented all_at_once
unfolding all_at_once
all_at_once-IsDocumented = record {
  until_lem = λ d max buffer wire i room found. (
    drop (i + length d) (buffer ++ wire),
    [],
    rw (found, take-drop (i + length d) (buffer ++ wire)) refl,
    sym (append-nil (drop (i + length d) (buffer ++ wire))),
  );
  exactly_lem = λ n max buffer wire room enough. rw (le→leb n (length wire) enough) refl;
  all_lem = λ max buffer wire room. refl;
}

-- The last of the values, as one library picks it.
abbrev pub pick_last : Pick
pick_last [] = none
pick_last (v ∷ []) = some v
pick_last (v ∷ w ∷ values) = pick_last (w ∷ values)

or_true : (a b : Bool) → b ≡ true → a || b ≡ true
or_true true b h = refl
or_true false b h = h

picked_one :
    (is_it : List ℕ → Bool) (values : List (List ℕ)) (v : List ℕ)
    → pick_last values ≡ some v
    → is_it v ≡ true
    → some_value is_it values ≡ true
picked_one is_it [] v h k = absurd (cc)
picked_one is_it (w ∷ []) v h k = let same : w ≡ v = cc in rw (same, k) refl
picked_one is_it (w ∷ x ∷ values) v h k =
    or_true (is_it w) (some_value is_it (x ∷ values)) (picked_one is_it (x ∷ values) v h k)

pub pick_last-IsPick : IsPick pick_last
pick_last-IsPick = record { picks_none = refl; picks_only = λ v. refl; picks_one = picked_one }
