-- ===== src/Provider/Ranges.antt =====
-- The part of pkg/provider/provider.go that reads the ranges and fills the pool.
use f5_ipam_controller_base.Base.{
  ℕ, zero, suc, ◌^◌, true, false, Option, none, some, List, [], ◌∷◌, ◌++◌, map, any, ◌==◌,
  if◌then◌else◌,
}
pub use f5_ipam_controller_base.Base.Outcome.{Outcome, returns, panics, exits, loops}
use f5_ipam_controller_base.Base.Outcome.{and_then}
use f5_ipam_controller_base.Base.Text.{Text, text_eq, split, trim}
use f5_ipam_controller_base.Net.Address.{Ip, IpNet, net_contains}
use f5_ipam_controller_base.Net.Parse.{parse_cidr}
use f5_ipam_controller_base.Net.Print.{print_ip}
use f5_ipam_controller_base.Net.Cidr.{inc, print_block}
use f5_ipam_controller_base.Store.Tables.{Tables}
use f5_ipam_controller_base.Store.Engine.{Sqlite}
use f5_ipam_controller_base.Store.Dbstore.{insert_ip, new_store, display_ip_records}

-- IPAMProvider; the map of CIDRs is the list of its keys.
pub record Provider : Type 0 where
  pub store : Tables
  pub cidrs : List Text

pub data Family : Type 0 where
  ipv4_family ipv6_family invalid_family : Family

-- `ipv4or6`: the first dot or colon decides.
unfoldable pub ipv4or6 : Text → Family
ipv4or6 [] = invalid_family
ipv4or6 (c ∷ s) =
    let later = ipv4or6 s in
    if c == b'.' then ipv4_family else if c == b':' then ipv6_family else later

-- `parseIPRange`; `none` is nil.
unfoldable pub parse_ip_range : Text → Option (List Text)
parse_ip_range [] = none
parse_ip_range (c ∷ s) = some (map (λ r. trim r b' ') (split (c ∷ s) b','))

abbrev cons_to : Text → Option (List Text) → Option (List Text)
cons_to a none = none
cons_to a (some l) = some (a ∷ l)

-- The loop over the addresses of a range: it ends behind the address that prints as `stop`, or in
-- front of one outside the block. `none` means that the fuel ran out.
unfoldable pub collect : ℕ → IpNet → Ip → Text → Option (List Text)
collect zero net ip stop = none
collect (suc fuel) net ip stop = elim (net_contains net ip) [
  | false ↦ some []
  | true ↦ elim (text_eq (print_ip ip) stop) [
    | true ↦ some (print_ip ip ∷ [])
    | false ↦ cons_to (print_ip ip) (collect fuel net (inc ip) stop)
  ]
]

-- As many rounds as there are 16-byte addresses.
abbrev pub all_addresses : ℕ
all_addresses = 2 ^ 128

abbrev pub add_cidr : Text → List Text → List Text
add_cidr cidr cidrs = if any (text_eq cidr) cidrs then cidrs else cidr ∷ cidrs

module _ (e : Sqlite) where
  unfoldable pub insert_found : Option (List Text) → Text → Provider → Outcome Provider
  insert_found none cidr prov = loops
  insert_found (some ips) cidr prov =
      and_then (insert_ip e ips cidr prov.store) (λ t. returns (record prov { store = t }))

  unfoldable pub fill_from : Option (Ip × IpNet) → Ip → Text → Provider → Outcome Provider
  fill_from none ip_end cidr prov = returns prov
  fill_from (some (ip_start, net_start)) ip_end cidr prov =
      insert_found (collect all_addresses net_start ip_start (print_ip ip_end)) cidr prov

  unfoldable pub fill_to : Option (Ip × IpNet) → Text → Text → Provider → Outcome Provider
  fill_to none start subnet prov = returns prov
  fill_to (some (ip_end, net_end)) start subnet prov =
      fill_from (parse_cidr (start ++ b'/' ∷ subnet)) ip_end (print_block net_end)
        (record prov { cidrs = add_cidr (print_block net_end) prov.cidrs })

  -- The start and the end of a range, each split at its slash; `ipv4or6` decides a log line only.
  unfoldable pub fill_parts : List Text → List Text → Provider → Outcome Provider
  fill_parts (start ∷ subnet ∷ []) (last ∷ subnet_last ∷ []) prov =
      if text_eq subnet subnet_last
      then fill_to (parse_cidr (last ++ b'/' ∷ subnet)) start subnet prov
      else returns prov
  fill_parts _ _ prov = returns prov

  unfoldable pub fill_range : List Text → Provider → Outcome Provider
  fill_range (first ∷ last ∷ []) prov = fill_parts (split first b'/') (split last b'/') prov
  fill_range _ prov = returns prov

  -- One round of the loop of `generateExternalIPAddr`.
  unfoldable pub add_range : Text → Provider → Outcome Provider
  add_range ip prov = fill_range (split (trim ip b'"') b'-') prov

  unfoldable pub add_ranges : List Text → Provider → Outcome Provider
  add_ranges [] prov = returns prov
  add_ranges (ip ∷ ips) prov = and_then (add_range ip prov) (add_ranges ips)

  abbrev pub displayed : Provider → Option Tables → Outcome (Option Provider)
  displayed prov none = panics
  displayed prov (some t) = returns (some (record prov { store = t }))

  -- The loop, and the display of the rows behind it.
  unfoldable pub finished : Outcome Provider → Outcome (Option Provider)
  finished filled = and_then filled (λ prov. displayed prov (display_ip_records e prov.store))

  -- `generateExternalIPAddr`; on a nil store the first use of its database panics.
  unfoldable pub generate_external_ip_addr : List Text → Option Tables → Outcome (Option Provider)
  unfolding finished
  generate_external_ip_addr [] store = exits
  generate_external_ip_addr (ip ∷ ips) none = panics
  generate_external_ip_addr (ip ∷ ips) (some t) =
      finished (add_ranges (ip ∷ ips) (record { store = t; cidrs = [] }))

  -- `NewProvider`; a returned `none` is nil.
  unfoldable pub new_provider : Text → Outcome (Option Provider)
  new_provider range = elim (parse_ip_range range) [
    | none ↦ returns none
    | some ranges ↦ and_then (new_store e) (generate_external_ip_addr ranges)
  ]
