-- ===== src/Examples/Restarting.antt =====
-- A restart with a resource that has two addresses.
use f5_ipam_controller_base.Base.{◌≡◌, ◌≢◌, refl, List, [], ◌∷◌, map, All}
use f5_ipam_controller_base.Base.Text.{text, text_eq, ne_of_text_eq}
use f5_ipam_controller_base.Fic.{IpSpec, F5Ipam}
use f5_ipam_controller_base.Ipamspec.{create_op}
use f5_ipam_controller_base.Net.Address.{net_contains}
use f5_ipam_controller_base.Net.Parse.{parse_cidr, parse_ip}
use f5_ipam_controller_base.Store.Tables.{select_first}
use f5_ipam_controller_base.Store.Engine.{range_literal}
use f5_ipam_controller_base.Store.Release.{Holds}
use f5_ipam_controller_base.Store.Memory.{memory, memory-IsSqlite, memory-NeverFails}
use f5_ipam_controller_base.Manager.{ipam_manager, is_ipv4_addr}
use f5_ipam_controller_base.Orchestration.Resource.{status_request}
use f5_ipam_controller_base.Controller
use f5_ipam_controller_base.Controller.Restart.{IsClaimable, confirmed, restart-confirms}
use f5_ipam_controller_base.Provider.Fresh.{new_provider-IsAccounted}
use f5_ipam_controller_base.Examples.Pools.{range, filled, range-filled}
use f5_ipam_controller_base.Examples.Resources.{resource, entry}

abbrev entries : List IpSpec
entries = entry (text "a.com") (text "10.0.0.2") ∷ entry (text "b.com") (text "10.0.0.1") ∷ []

abbrev known : F5Ipam
known = resource [] entries

first-IsClaimable : IsClaimable filled (entry (text "a.com") (text "10.0.0.2"))
unfolding text_eq parse_cidr parse_ip f5_ipam_controller_base.Net.Parse.parse_ip_at is_ipv4_addr
    f5_ipam_controller_base.Net.Parse.cut_slash f5_ipam_controller_base.Net.Parse.parse_ipv4
    f5_ipam_controller_base.Net.Parse.dtoi f5_ipam_controller_base.Net.Parse.with_mask
    f5_ipam_controller_base.Net.Parse.with_ones net_contains
    f5_ipam_controller_base.Net.Address.mask_ip f5_ipam_controller_base.Net.Address.cidr_mask
    f5_ipam_controller_base.Net.Address.and_bytes f5_ipam_controller_base.Net.Address.to4
    select_first range_literal
first-IsClaimable = record {
  known = refl;
  block = (_, refl);
  address = (_, refl);
  inside = refl;
  ipv4 = refl;
  there = (_, refl);
  quoted_cidr = refl;
  quoted_ip = refl;
}

second-IsClaimable : IsClaimable filled (entry (text "b.com") (text "10.0.0.1"))
unfolding text_eq parse_cidr parse_ip f5_ipam_controller_base.Net.Parse.parse_ip_at is_ipv4_addr
    f5_ipam_controller_base.Net.Parse.cut_slash f5_ipam_controller_base.Net.Parse.parse_ipv4
    f5_ipam_controller_base.Net.Parse.dtoi f5_ipam_controller_base.Net.Parse.with_mask
    f5_ipam_controller_base.Net.Parse.with_ones net_contains
    f5_ipam_controller_base.Net.Address.mask_ip f5_ipam_controller_base.Net.Address.cidr_mask
    f5_ipam_controller_base.Net.Address.and_bytes f5_ipam_controller_base.Net.Address.to4
    select_first range_literal
second-IsClaimable = record {
  known = refl;
  block = (_, refl);
  address = (_, refl);
  inside = refl;
  ipv4 = refl;
  there = (_, refl);
  quoted_cidr = refl;
  quoted_ip = refl;
}

entries_differ : text "10.0.0.2" ≢ text "10.0.0.1"
unfolding text_eq
entries_differ = ne_of_text_eq (text "10.0.0.2") (text "10.0.0.1") refl

restart-confirms_example :
    ((Controller.run (ipam_manager memory) (map (status_request create_op known) entries) filled).1
      ≡ map (confirmed known) entries)
    × All
        (λ s.
          Holds s.ip s.host
            (Controller.run
              (ipam_manager memory)
              (map (status_request create_op known) entries)
              filled).0.store.records)
        entries
restart-confirms_example =
    restart-confirms memory memory-IsSqlite memory-NeverFails known entries filled
      (new_provider-IsAccounted memory memory-IsSqlite range filled range-filled).ids
      ((entries_differ, tt), (tt, tt)) (first-IsClaimable, (second-IsClaimable, tt))
