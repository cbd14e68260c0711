-- ===== src/Controller/First.antt =====
-- The first CREATE of a host, where the CIDR has a free address.
use f5_ipam_controller_base.Base.{◌≡◌, refl, true, some, none}
use f5_ipam_controller_base.Base.Text.{text_eq_refl}
use f5_ipam_controller_base.Fic.{HostSpec, F5Ipam}
use f5_ipam_controller_base.Ipamspec.{create_op}
use f5_ipam_controller_base.Net.Address.{Ip, IpNet}
use f5_ipam_controller_base.Net.Parse.{parse_cidr}
use f5_ipam_controller_base.Store.Tables.{RangeRow, select_first, is_free, least_address}
use f5_ipam_controller_base.Store.Engine.{
  Sqlite, IsSqlite, NeverFails, NeverFails-IsReliable, NeverFails-NeverLoses, insert_record,
  range_literal, host_literal,
}
use f5_ipam_controller_base.Store.Exact.{allocate_ip_lem}
use f5_ipam_controller_base.Provider.Ranges.{Provider}
use f5_ipam_controller_base.Provider.Ipam
use f5_ipam_controller_base.Provider.Ipam.{has_cidr}
use f5_ipam_controller_base.Manager
use f5_ipam_controller_base.Manager.{ipam_manager, is_ipv4_addr}
use f5_ipam_controller_base.Manager.Cases.{
  marked, manager_get_ip_address_lem, manager_create_a_record_lem,
}
use f5_ipam_controller_base.Orchestration.Resource.{spec_request}
use f5_ipam_controller_base.Controller
use f5_ipam_controller_base.Controller.Retry.{ipv4-ne_empty}

-- A host that has no address, and a CIDR of the provider with a free row of an IPv4 address.
pub record IsServable (prov : Provider) (s : HostSpec) : Type 0 where
  pub known : has_cidr prov s.cidr ≡ true
  pub block : (net : Ip × IpNet) × (parse_cidr s.cidr ≡ some net)
  pub new : least_address s.host prov.store.records ≡ none
  pub there : (r : RangeRow) × (select_first (is_free s.cidr) prov.store.ranges ≡ some r)
  pub ipv4 : is_ipv4_addr there.0.ipaddress ≡ true
  pub quoted_cidr : range_literal s.cidr ≡ true
  pub quoted_host : host_literal s.host ≡ true

-- The provider with the row marked and its address recorded for the host.
abbrev pub served_by : RangeRow → HostSpec → Provider → Provider
served_by row s prov = record prov {
  store = insert_record row.ipaddress s.host (marked row prov).store;
}

module _ (e : Sqlite) (lawful : IsSqlite e) (sure : NeverFails e) where
  next-found :
      (s : HostSpec) (prov : Provider) (c : IsServable prov s)
      → Manager.get_next_ip_address e s.cidr prov ≡ (marked c.there.0 prov, c.there.0.ipaddress)
  unfolding Manager.get_next_ip_address Ipam.get_next_addr
  next-found s prov c =
      rw
        (
          c.block.1,
          c.known,
          allocate_ip_lem e lawful (NeverFails-IsReliable sure) s.cidr prov.store c.quoted_cidr,
          c.there.1,
        )
        refl

  pub handle-first :
      (r : F5Ipam) (s : HostSpec) (prov : Provider) (c : IsServable prov s)
      → Controller.handle (ipam_manager e) (spec_request create_op r s) prov ≡ (
        served_by c.there.0 s prov,
        Controller.respond (spec_request create_op r s) c.there.0.ipaddress true,
      )
  unfolding Controller.handle Controller.create_any Controller.create_next
  handle-first r s prov c =
      rw
        (
          text_eq_refl create_op,
          manager_get_ip_address_lem e lawful s.host prov c.quoted_host,
          c.new,
          next-found s prov c,
          ipv4-ne_empty c.there.0.ipaddress c.ipv4,
          manager_create_a_record_lem e lawful (NeverFails-NeverLoses sure) s.host
              c.there.0.ipaddress (marked c.there.0 prov),
          c.ipv4,
        )
        refl
