-- ===== src/Ifconfig/Selection.antt =====
-- What get_nearest_public_host and get_list return.
use barbacoa_server_lib.Prelude.{
  ℕ, zero, suc, ◌^◌, ◌≤◌, ◌<◌, ◌≡◌, ap, refl, List, [], ◌∷◌, map, none, get_elem?, length, take,
  arith, lt→ltb,
}
use barbacoa_server_lib.Ifconfig.{
  ipv4, ipv6, ipall, Region, usa_central, usa_east, usa_west, australia, moskow, hosts_from_db,
  minus, or_break, collect_hosts, get_nearest_public_host, Address, v4, v6, address_text, get_list,
}

get_elem?-past : (hosts : List (List ℕ)) (i : ℕ) → length hosts ≤ i → get_elem? hosts i ≡ none
get_elem?-past [] i h = refl
get_elem?-past (x ∷ hosts) zero h = absurd (omega arith)
get_elem?-past (x ∷ hosts) (suc i) h = get_elem?-past hosts i (omega arith)

minus_self : (n : ℕ) → minus n n ≡ 0
unfolding minus
minus_self n = omega arith

-- The index of a second turn has wrapped around.
second_index : (n : ℕ) → 0 < n → n < 2 ^ 63 → 2 ≤ minus 0 n
unfolding minus
second_index n h k = omega arith

second_turn :
    (hosts : List (List ℕ)) (limit : ℕ)
    → length hosts ≡ 2
    → limit < 2 ^ 63
    → collect_hosts hosts 0 limit ≡ []
unfolding collect_hosts
second_turn hosts zero h k = refl
second_turn hosts (suc limit) h k =
    ap (or_break (collect_hosts hosts (minus 0 (suc limit)) limit)) (
      get_elem?-past hosts (minus 0 (suc limit))
        (omega (arith, second_index (suc limit) (omega arith) k)))

turns :
    (first second : List ℕ) (limit : ℕ)
    → suc limit < 2 ^ 63
    → collect_hosts (first ∷ second ∷ []) (suc limit) (suc limit) ≡ first ∷ []
unfolding collect_hosts
turns first second limit h =
    rw (minus_self (suc limit), second_turn (first ∷ second ∷ []) limit refl (omega arith)) refl

-- However many hosts are asked for, from 1 to below 2^63, the first host of the region is the only
-- one that is returned, though every region has two.
pub only_first_host :
    (region : Region) (limit : ℕ)
    → suc limit < 2 ^ 63
    → (get_nearest_public_host region (suc limit) ≡ take 1 (hosts_from_db region))
      × (length (hosts_from_db region) ≡ 2)
unfolding get_nearest_public_host hosts_from_db
only_first_host usa_central limit h = (rw (lt→ltb _ _ h) (turns _ _ limit h), refl)
only_first_host usa_east limit h = (rw (lt→ltb _ _ h) (turns _ _ limit h), refl)
only_first_host usa_west limit h = (rw (lt→ltb _ _ h) (turns _ _ limit h), refl)
only_first_host australia limit h = (rw (lt→ltb _ _ h) (turns _ _ limit h), refl)
only_first_host moskow limit h = (rw (lt→ltb _ _ h) (turns _ _ limit h), refl)

abbrev pub only_v6 : List Address → List (List ℕ)
only_v6 [] = []
only_v6 (v4 t ∷ rest) = only_v6 rest
only_v6 (v6 t ∷ rest) = t ∷ only_v6 rest

-- Whatever the resolver gives: with ipv4, the default, nothing is returned; with ipv6 every address
-- is, those of IPv4 too; with ipall those of IPv4 are left out.
pub get_list-selects :
    (resolved : List Address)
    → (get_list ipv4 resolved ≡ [])
      × (get_list ipv6 resolved ≡ map address_text resolved)
      × (get_list ipall resolved ≡ only_v6 resolved)
unfolding get_list
get_list-selects [] = (refl, refl, refl)
get_list-selects (v4 t ∷ rest) = let (a, b, c) = get_list-selects rest in (a, ap (◌∷◌ t) b, c)
get_list-selects (v6 t ∷ rest) =
    let (a, b, c) = get_list-selects rest in (a, ap (◌∷◌ t) b, ap (◌∷◌ t) c)
