-- ===== src/Examples/Arriving.antt =====
-- A resource with one host arrives at a system with a pool of two addresses.
use f5_ipam_controller_base.Base.{◌≡◌, refl, List, [], ◌∷◌, some}
use f5_ipam_controller_base.Base.Text.{text, text_eq}
use f5_ipam_controller_base.Fic.{HostSpec, F5Ipam}
use f5_ipam_controller_base.Store.Release.{Holds}
use f5_ipam_controller_base.Store.Memory.{memory, memory-IsSqlite, memory-NeverFails}
use f5_ipam_controller_base.Orchestration.Response.{with_status}
use f5_ipam_controller_base.Orchestration.Memory.{find, memory_cluster, memory-IsCluster}
use f5_ipam_controller_base.Controller.First.{IsServable}
use f5_ipam_controller_base.System.{System, Reach}
use f5_ipam_controller_base.System.Rest.{IsAtRest}
use f5_ipam_controller_base.System.First.{new_resource, entry_of, resting, first-served}
use f5_ipam_controller_base.Examples.Pools.{filled}
use f5_ipam_controller_base.Examples.Resources.{host}

abbrev spec : HostSpec
spec = host (text "a.com")

abbrev arrived : F5Ipam
arrived = new_resource (text "kube-system") (text "crd") spec

abbrev Anything : F5Ipam → Type 0
Anything r = Unit

abbrev Alone : List F5Ipam → List F5Ipam → Type 0
Alone w v = ⊥

spec-IsServable : IsServable filled spec
unfolding text_eq f5_ipam_controller_base.Net.Parse.parse_cidr
    f5_ipam_controller_base.Net.Parse.parse_ip f5_ipam_controller_base.Net.Parse.parse_ip_at
    f5_ipam_controller_base.Manager.is_ipv4_addr f5_ipam_controller_base.Net.Parse.cut_slash
    f5_ipam_controller_base.Net.Parse.parse_ipv4 f5_ipam_controller_base.Net.Parse.dtoi
    f5_ipam_controller_base.Net.Parse.with_mask f5_ipam_controller_base.Net.Parse.with_ones
    f5_ipam_controller_base.Net.Address.mask_ip f5_ipam_controller_base.Net.Address.cidr_mask
    f5_ipam_controller_base.Net.Address.and_bytes f5_ipam_controller_base.Net.Address.to4
    f5_ipam_controller_base.Store.Tables.select_first
    f5_ipam_controller_base.Store.Engine.range_literal
    f5_ipam_controller_base.Store.Engine.host_literal
    f5_ipam_controller_base.Store.Tables.least_address
spec-IsServable = record {
  known = refl;
  block = (_, refl);
  new = refl;
  there = (_, refl);
  ipv4 = refl;
  quoted_cidr = refl;
  quoted_host = refl;
}

first-served_example :
    (t : System (List F5Ipam)) × Reach memory memory_cluster
      (λ l. l)
      Anything
      Alone
      (resting filled (arrived ∷ []))
      t
    × IsAtRest t
    × (find t.world (text "kube-system") (text "crd")
        ≡ some (with_status arrived (entry_of spec spec-IsServable.there.0.ipaddress ∷ [])))
    × Holds spec-IsServable.there.0.ipaddress (text "a.com") t.provider.store.records
unfolding find text_eq
first-served_example =
    first-served memory memory-IsSqlite memory-NeverFails memory_cluster find memory-IsCluster
      (λ l. l) Anything Alone (text "kube-system") (text "crd") spec filled (arrived ∷ [])
      spec-IsServable tt refl
