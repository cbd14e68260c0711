-- ===== src/Provider/Ipam.antt =====
-- The methods of IPAMProvider in pkg/provider/provider.go that serve the manager.
use f5_ipam_controller_base.Base.{Bool, true, false, Option, none, some, [], any, if◌then◌else◌}
use f5_ipam_controller_base.Base.Text.{Text, text_eq}
use f5_ipam_controller_base.Net.Address.{Ip, IpNet, net_contains}
use f5_ipam_controller_base.Net.Parse.{parse_ip, parse_cidr}
use f5_ipam_controller_base.Store.Engine.{Sqlite}
use f5_ipam_controller_base.Store.Dbstore
use f5_ipam_controller_base.Provider.Ranges.{Provider}

abbrev pub has_cidr : Provider → Text → Bool
has_cidr prov cidr = any (text_eq cidr) prov.cidrs

module _ (e : Sqlite) where
  -- The store's result is dropped.
  unfoldable pub create_a_record : Text → Text → Provider → Provider × Bool
  create_a_record host ip prov =
      (record prov { store = (Dbstore.create_a_record e host ip prov.store).0 }, true)

  unfoldable pub delete_a_record : Text → Text → Provider → Provider
  delete_a_record host ip prov = record prov {
    store = (Dbstore.delete_a_record e host ip prov.store).0;
  }

  unfoldable pub get_ip_address : Text → Provider → Provider × Text
  get_ip_address host prov =
      let (t, ip) = Dbstore.get_ip_address e host prov.store in (record prov { store = t }, ip)

  unfoldable pub get_next_addr : Text → Provider → Provider × Text
  get_next_addr cidr prov =
      if has_cidr prov cidr
      then (let (t, ip) = Dbstore.allocate_ip e cidr prov.store in (record prov { store = t }, ip))
      else (prov, [])

  mark_contained : Text → Text → Option (Ip × IpNet) → Option Ip → Provider → Provider × Bool
  mark_contained cidr addr none ip prov = (prov, false)
  mark_contained cidr addr (some net) none prov = (prov, false)
  mark_contained cidr addr (some (block, net)) (some ip) prov =
      if net_contains net ip
      then (let (t, done) = Dbstore.mark_ip_as_allocated e cidr addr prov.store in
          (record prov { store = t }, done))
      else (prov, false)

  unfoldable pub allocate_ip_address : Text → Text → Provider → Provider × Bool
  unfolding mark_contained
  allocate_ip_address cidr addr prov =
      if has_cidr prov cidr
      then mark_contained cidr addr (parse_cidr cidr) (parse_ip addr) prov
      else (prov, false)

  unfoldable pub release_addr : Text → Provider → Provider
  release_addr ip prov = record prov { store = Dbstore.release_ip e ip prov.store }
