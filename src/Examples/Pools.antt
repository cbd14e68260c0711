-- ===== src/Examples/Pools.antt =====
-- The provider of a range of two addresses.
use f5_ipam_controller_base.Base.{◌+◌, ℕ, ◌≡◌, refl, List, [], ◌∷◌, some, none, arith}
use f5_ipam_controller_base.Base.Text.{Text, text}
use f5_ipam_controller_base.Net.Address.{IpNet}
use f5_ipam_controller_base.Net.Ipv4.{v4}
use f5_ipam_controller_base.Net.Print.{print_ip}
use f5_ipam_controller_base.Store.Tables.{RangeRow, available}
use f5_ipam_controller_base.Store.Exclusive.{DistinctRows}
use f5_ipam_controller_base.Store.Accounted.{DistinctIds}
use f5_ipam_controller_base.Store.Memory.{memory, memory-IsSqlite}
use f5_ipam_controller_base.Provider.Ranges.{
  Provider, returns, new_provider, collect, all_addresses,
}
use f5_ipam_controller_base.Provider.Pool.{counted, collect-range, AllInside}
use f5_ipam_controller_base.Provider.Fresh.{AllFree, new_provider-AllFree}
use f5_ipam_controller_base.Provider.Distinct.{new_provider-DistinctRows}

abbrev pub range : Text
range = text "10.0.0.1/24-10.0.0.2/24"

abbrev row : ℕ → Text → RangeRow
row n ip = record { id = n; ipaddress = ip; status = available; cidr = text "10.0.0.0/24" }

abbrev pub filled : Provider
filled = record {
  store = record {
    ranges = row 1 (text "10.0.0.1") ∷ row 2 (text "10.0.0.2") ∷ [];
    next_id = 3;
    records = [];
  };
  cidrs = text "10.0.0.0/24" ∷ [];
}

pub range-filled : new_provider memory range ≡ returns (some filled)
unfolding new_provider f5_ipam_controller_base.Store.Dbstore.create_tables
    f5_ipam_controller_base.Provider.Ranges.finished
    f5_ipam_controller_base.Provider.Ranges.parse_ip_range
    f5_ipam_controller_base.Provider.Ranges.generate_external_ip_addr
    f5_ipam_controller_base.Base.Text.split f5_ipam_controller_base.Store.Dbstore.new_store
    f5_ipam_controller_base.Store.Memory.memory_exec
    f5_ipam_controller_base.Provider.Ranges.add_ranges
    f5_ipam_controller_base.Provider.Ranges.add_range
    f5_ipam_controller_base.Provider.Ranges.fill_range f5_ipam_controller_base.Base.Text.trim
    f5_ipam_controller_base.Provider.Ranges.fill_parts f5_ipam_controller_base.Base.Text.text_eq
    f5_ipam_controller_base.Provider.Ranges.fill_to f5_ipam_controller_base.Net.Parse.parse_cidr
    f5_ipam_controller_base.Net.Parse.cut_slash f5_ipam_controller_base.Net.Parse.parse_ipv4
    f5_ipam_controller_base.Net.Parse.dtoi f5_ipam_controller_base.Net.Parse.with_mask
    f5_ipam_controller_base.Net.Parse.with_ones f5_ipam_controller_base.Net.Address.mask_ip
    f5_ipam_controller_base.Net.Address.cidr_mask f5_ipam_controller_base.Net.Cidr.print_block
    f5_ipam_controller_base.Net.Address.mask_size f5_ipam_controller_base.Provider.Ranges.fill_from
    collect f5_ipam_controller_base.Net.Address.net_contains
    f5_ipam_controller_base.Net.Address.and_bytes print_ip f5_ipam_controller_base.Net.Address.to4
    f5_ipam_controller_base.Provider.Ranges.insert_found
    f5_ipam_controller_base.Store.Dbstore.insert_ip f5_ipam_controller_base.Net.Cidr.inc
    f5_ipam_controller_base.Store.Dbstore.display_ip_records
range-filled = refl

new_provider-DistinctRows_example : DistinctRows filled.store.ranges × (filled.store.records ≡ [])
new_provider-DistinctRows_example =
    new_provider-DistinctRows memory memory-IsSqlite range filled refl refl range-filled

new_provider-AllFree_example :
    AllFree filled.store.ranges × DistinctIds filled.store.ranges × (filled.store.records ≡ [])
new_provider-AllFree_example = new_provider-AllFree memory memory-IsSqlite range filled range-filled

abbrev net : IpNet
net = record { ip = 10 ∷ 0 ∷ 0 ∷ 0 ∷ []; mask = 255 ∷ 255 ∷ 255 ∷ 0 ∷ [] }

inside : AllInside net 0x0A000001 3
unfolding f5_ipam_controller_base.Net.Address.net_contains
inside = (refl, (refl, (refl, tt)))

collect-range_example :
    collect all_addresses net (v4 0x0A000001) (print_ip (v4 (0x0A000001 + 2)))
    ≡ some (counted 0x0A000001 3)
collect-range_example = collect-range net 0x0A000001 2 (omega arith) inside
