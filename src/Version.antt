-- ===== src/Version.antt =====
-- version and version_ext (include/server_lib/version.h, src/version.cpp).
pub mod Istream
pub mod Printed
pub mod RoundTrip
use barbacoa_server_lib.Prelude.{
  ℕ, ◌+◌, ◌-◌, ◌*◌, ◌/◌, ◌%◌, ◌^◌, Bool, true, false, ◌&&◌, ◌||◌, not, List, [], ◌∷◌, ◌++◌, Result,
  ok, err, ◌>>=◌, logic_error, is_empty, ltb, leb, ◌==◌, if◌then◌else◌, to_string,
}
use Istream.{open_stream, read_uint, read_char}

-- v_num, from its parts: the shifted parts are disjoint, so `|` adds.
unfoldable pub make : ℕ → ℕ → ℕ → ℕ
make major minor patch = (major * 2 ^ 8 + minor) * 2 ^ 16 + patch

unfoldable pub major_v : ℕ → ℕ
major_v v = v / 2 ^ 24 % 256

unfoldable pub minor_v : ℕ → ℕ
minor_v v = v / 2 ^ 16 % 256

unfoldable pub patch : ℕ → ℕ
patch v = v % 2 ^ 16

-- operator std::string
unfoldable pub print : ℕ → List ℕ
unfolding major_v minor_v patch
print v = to_string (major_v v) ++ (b'.' ∷ (to_string (minor_v v) ++ (b'.' ∷ to_string (patch v))))

-- The assertions of `from_string`, and the number that it makes.
unfoldable pub checked : ℕ → ℕ → ℕ → ℕ → ℕ → Bool → Result ℕ
checked major dot_a hardfork dot_b revision eof =
    if ((dot_a == b'.' || dot_a == b'_') && dot_a == dot_b)
      && (leb major 0xff && (leb hardfork 0xff && (leb revision 0xffff && eof)))
    then ok (major * 2 ^ 24 + hardfork * 2 ^ 16 + revision)
    else err logic_error

unfoldable pub from_string : List ℕ → Result ℕ
unfolding checked open_stream
from_string input_str =
    let (major, s1) = read_uint (open_stream input_str) in
    let (dot_a, s2) = read_char s1 in
    let (hardfork, s3) = read_uint s2 in
    let (dot_b, s4) = read_char s3 in
    let (revision, s5) = read_uint s4 in checked major dot_a hardfork dot_b revision s5.eof

-- version_ext: a version and the text behind '+'.
pub record VersionExt : Type 0 where
  pub base : ℕ
  pub metadata : List ℕ

unfoldable pub print_ext : VersionExt → List ℕ
print_ext v = print v.base ++ (if is_empty v.metadata then [] else b'+' ∷ v.metadata)

-- The loop to the first '+': what stands before it, and from it on.
unfoldable pub split_plus : List ℕ → List ℕ × List ℕ
split_plus [] = ([], [])
split_plus (ch ∷ rest) =
    let (before, after) = split_plus rest in
    if ch == b'+' then ([], ch ∷ rest) else (ch ∷ before, after)

abbrev pub metadata_of : List ℕ → List ℕ
metadata_of [] = []
metadata_of (plus ∷ rest) = rest

unfoldable pub from_string_ext : List ℕ → Result VersionExt
unfolding split_plus
from_string_ext input_str =
    let (before, after) = split_plus input_str in
    from_string before >>= λ v. ok (record { base = v; metadata = metadata_of after })

-- operator== of version_ext compares two parts of three, and no metadata.
unfoldable pub ext_eq : VersionExt → VersionExt → Bool
ext_eq a b = major_v a.base == major_v b.base && minor_v a.base == minor_v b.base
