-- ===== src/Ifconfig.antt =====
-- ifconfig (include/server_lib/network/ifconfig.h, src/network/ifconfig.cpp): the public hosts of a
-- region, and the addresses of this host. Exceptions are those of boost and are caught there.
pub mod Selection
use barbacoa_server_lib.Prelude.{
  ℕ, zero, suc, ◌+◌, ◌-◌, ◌%◌, ◌^◌, Bool, true, false, List, [], ◌∷◌, Option, none, some,
  if◌then◌else◌, get_elem?, codes, ltb,
}

pub data PreferableIpv : Type 0 where
  ipv4 : PreferableIpv
  ipv6 : PreferableIpv
  ipall : PreferableIpv

pub data Region : Type 0 where
  usa_central : Region
  usa_east : Region
  usa_west : Region
  australia : Region
  moskow : Region

-- DNS_HOSTS_DB, which has every region.
unfoldable pub hosts_from_db : Region → List (List ℕ)
hosts_from_db usa_central = codes "8.8.8.8" ∷ codes "8.8.4.4" ∷ []
hosts_from_db usa_east = codes "208.67.222.222" ∷ codes "208.67.220.220" ∷ []
hosts_from_db usa_west = codes "9.9.9.9" ∷ codes "149.112.112.112" ∷ []
hosts_from_db australia = codes "1.1.1.1" ∷ codes "1.0.0.1" ∷ []
hosts_from_db moskow = codes "176.103.130.130" ∷ codes "176.103.130.131" ∷ []

abbrev pub or_break : List (List ℕ) → Option (List ℕ) → List (List ℕ)
or_break rest none = []
or_break rest (some host) = host ∷ rest

-- `idx` as the size_t `idx_`: `idx -= limit_` wraps below 0.
unfoldable pub minus : ℕ → ℕ → ℕ
minus idx limit = (idx + 2 ^ 64 - limit) % 2 ^ 64

-- The loop, by recursion on `limit_`.
unfoldable pub collect_hosts : List (List ℕ) → ℕ → ℕ → List (List ℕ)
unfolding minus
collect_hosts hosts idx zero = []
collect_hosts hosts idx (suc limit) =
    or_break (collect_hosts hosts (minus idx (suc limit)) limit)
      (get_elem? hosts (minus idx (suc limit)))

-- A `limit` of 2^63 or more is a negative `limit_`, which does not enter the loop.
unfoldable pub get_nearest_public_host : Region → ℕ → List (List ℕ)
unfolding collect_hosts hosts_from_db
get_nearest_public_host region limit =
    if ltb limit (2 ^ 63) then collect_hosts (hosts_from_db region) limit limit else []

-- An address that the resolver gives, by its `to_string`.
pub data Address : Type 0 where
  v4 : List ℕ → Address
  v6 : List ℕ → Address

abbrev pub address_text : Address → List ℕ
address_text (v4 t) = t
address_text (v6 t) = t

-- Whether the loop of get_list passes an address over.
unfoldable pub continues : PreferableIpv → Address → Bool
continues ipv4 (v6 t) = true
continues ipv6 (v6 t) = false
continues ipall (v6 t) = false
continues ipv4 (v4 t) = true
continues ipv6 (v4 t) = false
continues ipall (v4 t) = true

-- The loop over the addresses `resolved`.
unfoldable pub get_list : PreferableIpv → List Address → List (List ℕ)
unfolding continues
get_list preferable [] = []
get_list preferable (a ∷ rest) =
    let later = get_list preferable rest in
    if continues preferable a then later else address_text a ∷ later
