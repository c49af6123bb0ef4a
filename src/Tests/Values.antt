-- ===== src/Tests/Values.antt =====
-- Concrete versions, options and hosts.
use barbacoa_server_lib.Prelude.{
  ℕ, ◌+◌, ◌-◌, ◌^◌, ◌≤◌, ◌<◌, ◌≡◌, refl, none, true, false, List, [], ◌∷◌, ◌++◌, ok, codes,
  to_string, arith, take, length,
}
use mathlib.Core.List.{reverse}
use barbacoa_server_lib.Version.{make, print, from_string}
use barbacoa_server_lib.Version.RoundTrip.{from_string-print, from_string-missing_patch}
use barbacoa_server_lib.Options.Quotes.{
  is_pass_char, remove_quotes, AllPass, StartsClean, remove_quotes-split,
}
use barbacoa_server_lib.Options.RelativeTime.{
  span_of, span_seconds, rounding, least, IsPlural, print_span,
  get_approximate_relative_time_string, span_of-close, long_ago_is_future,
}
use barbacoa_server_lib.Ifconfig.{
  usa_west, hosts_from_db, get_nearest_public_host, Address, v4, v6, ipv4, ipv6, ipall, get_list,
}
use barbacoa_server_lib.Ifconfig.Selection.{only_first_host, get_list-selects}
use barbacoa_server_lib.Observer.{Request, subscribe, unsubscribe, apply_all, notify_impl}
use barbacoa_server_lib.Observer.Notified.{times, one_if, is_subscribed, notified_once}

from_string-print_example : from_string (print 0x01020304) ≡ ok 0x01020304
from_string-print_example = from_string-print 0x01020304 (omega arith)

ordered : make 1 2 3 < make 1 3 0
unfolding make
ordered = omega arith

from_string-missing_patch_example :
    from_string (to_string 1 ++ (b'.' ∷ (to_string 2 ++ (b'.' ∷ [])))) ≡ ok (make 1 2 0)
from_string-missing_patch_example = from_string-missing_patch 1 2 (omega arith) (omega arith)

blank_is_pass : is_pass_char b' ' ≡ true
unfolding is_pass_char
blank_is_pass = refl

quote_is_pass : is_pass_char b'"' ≡ true
unfolding is_pass_char
quote_is_pass = refl

letter_is_no_pass : is_pass_char b'a' ≡ false
unfolding is_pass_char
letter_is_no_pass = refl

other_letter_is_no_pass : is_pass_char b'b' ≡ false
unfolding is_pass_char
other_letter_is_no_pass = refl

remove_quotes-split_example :
    (p : List ℕ) × (s : List ℕ) × AllPass p
    × AllPass s
    × (codes " 'a'" ≡ p ++ (remove_quotes (codes " 'a'") ++ s))
    × StartsClean (remove_quotes (codes " 'a'"))
    × StartsClean (reverse (remove_quotes (codes " 'a'")))
remove_quotes-split_example = remove_quotes-split (codes " 'a'")

span_of-close_example :
    (span_seconds (span_of 100000) ≤ 100000 + rounding (span_of 100000))
    × (100000 ≤ span_seconds (span_of 100000) + rounding (span_of 100000))
    × (least (span_of 100000) ≤ 100000)
    × IsPlural (span_of 100000)
span_of-close_example = span_of-close 100000

long_ago_is_future_example :
    get_approximate_relative_time_string 0 3000000000 (codes " ago")
    ≡ ok (print_span (span_of (2 ^ 32 - (3000000000 - 0))) (codes " in the future"))
long_ago_is_future_example =
    long_ago_is_future 0 3000000000 (codes " ago") (omega arith) (omega arith)

only_first_host_example :
    (get_nearest_public_host usa_west 2 ≡ take 1 (hosts_from_db usa_west))
    × (length (hosts_from_db usa_west) ≡ 2)
only_first_host_example = only_first_host usa_west 1 (omega arith)

abbrev two_addresses : List Address
two_addresses = v4 (codes "10.0.0.1") ∷ v6 (codes "::1") ∷ []

get_list-selects_example :
    (get_list ipv4 two_addresses ≡ [])
    × (get_list ipv6 two_addresses ≡ codes "10.0.0.1" ∷ codes "::1" ∷ [])
    × (get_list ipall two_addresses ≡ codes "::1" ∷ [])
get_list-selects_example = get_list-selects two_addresses

abbrev three_requests : List Request
three_requests = subscribe 7 none ∷ subscribe 8 none ∷ unsubscribe 7 ∷ []

notified_once_example :
    times 8 (notify_impl (λ l. false) (apply_all three_requests []))
    ≡ one_if (is_subscribed 8 three_requests false)
notified_once_example = notified_once three_requests (λ l. false) 8
