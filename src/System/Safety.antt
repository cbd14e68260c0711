-- ===== src/System/Safety.antt =====
-- The whole system from its start on.
use f5_ipam_controller_base.Base.{◌≡◌, refl, ◌↔◌, List, some, In}
use f5_ipam_controller_base.Base.Text.{Text}
use f5_ipam_controller_base.Base.Absent.{Absent}
use f5_ipam_controller_base.Fic.{HostSpec}
use f5_ipam_controller_base.Store.Engine.{Sqlite, IsSqlite, IsReliable, NeverLoses}
use f5_ipam_controller_base.Store.Exclusive.{IsExclusive}
use f5_ipam_controller_base.Store.Accounted.{IsAccounted}
use f5_ipam_controller_base.Provider.Ranges.{Provider, new_provider, returns}
use f5_ipam_controller_base.Provider.Distinct.{new_provider-IsExclusive}
use f5_ipam_controller_base.Provider.Fresh.{new_provider-IsAccounted}
use f5_ipam_controller_base.Controller.Fresh.{new_provider-AllIpv4}
use f5_ipam_controller_base.Machinery.Client.{RestClient}
use f5_ipam_controller_base.Controller.Exclusive.{handle-IsExclusive}
use f5_ipam_controller_base.Controller.Addresses.{addresses, AllIpv4, addresses-IsStable}
use f5_ipam_controller_base.Controller.Accounted.{handle-IsAccounted}
use f5_ipam_controller_base.Controller.Faults.{handle-keeps}
use f5_ipam_controller_base.System.{System, Reach, new_system}
use f5_ipam_controller_base.System.Quoted.{IsQuotedResource}
use f5_ipam_controller_base.System.Invariant.{started-holds}

module _ {W : Type 0} (e : Sqlite) (lawful : IsSqlite e) (rest : RestClient W)
    (iterate : List HostSpec → List HostSpec)
    (complete : (s : HostSpec) (l : List HostSpec) → In s (iterate l) ↔ In s l)
    (others : W → W → Type 0) where
  -- Over an SQLite engine of which the UPDATE that takes a row out of the pool and the DELETE of a
  -- record never fail, while any other statement may, whatever the REST client and the other clients
  -- of the cluster do, and in whatever order maps are ranged over: a controller that is started with
  -- one range, of IPv4 addresses, and whose informers see only resources whose texts a statement can
  -- quote, never has an address in two A records or an address of an A record in the pool, in
  -- whatever order events come, requests are served and responses are delivered.
  pub started-IsExclusive :
      (range : Text) (prov : Provider) (w : W) (s : System W)
      → IsReliable e
      → Absent b',' range
      → Absent b':' range
      → new_provider e range ≡ returns (some prov)
      → Reach e rest iterate IsQuotedResource others (new_system prov w) s
      → IsExclusive s.provider.store
  started-IsExclusive range prov w s sure one v4_only opened r =
      started-holds e rest iterate complete others (λ q. IsExclusive q.store)
        (handle-IsExclusive e lawful sure) w r
        (new_provider-IsExclusive e lawful range prov one v4_only opened)

  -- In the same system from any provider, and even where statements fail: the addresses of the pool
  -- with their CIDRs, in their order, are in every state those of the start.
  pub started-addresses :
      (prov : Provider) (w : W) (s : System W)
      → Reach e rest iterate IsQuotedResource others (new_system prov w) s
      → addresses s.provider.store.ranges ≡ addresses prov.store.ranges
  started-addresses prov w s r =
      started-holds e rest iterate complete others
        (λ q. addresses q.store.ranges ≡ addresses prov.store.ranges)
        (λ req q quoted x.
          handle-keeps e lawful _ (addresses-IsStable (addresses prov.store.ranges)) req q quoted x)
        w r refl

  reached-IsAccounted :
      (prov : Provider) (w : W) (s : System W)
      → NeverLoses e
      → AllIpv4 (addresses prov.store.ranges)
      → IsAccounted prov.store
      → Reach e rest iterate IsQuotedResource others (new_system prov w) s
      → IsAccounted s.provider.store
  reached-IsAccounted prov w s sure v x r =
      (started-holds e rest iterate complete others
        (λ q. AllIpv4 (addresses q.store.ranges) × IsAccounted q.store)
        (λ req q quoted (v', x'). (
          rw (handle-keeps e lawful _ (addresses-IsStable _) req q quoted refl) v',
          handle-IsAccounted e lawful sure req q quoted v' x',
        ))
        w r (v, x)).1

  -- In the same system, over an engine of which the INSERT of a record and the UPDATE of a release
  -- never fail, while any other statement may: a controller that is started with any ranges of IPv4 addresses never loses an address, which is that in every state every row of
  -- the pool is free or held by an A record.
  pub started-IsAccounted :
      (range : Text) (prov : Provider) (w : W) (s : System W)
      → NeverLoses e
      → Absent b':' range
      → new_provider e range ≡ returns (some prov)
      → Reach e rest iterate IsQuotedResource others (new_system prov w) s
      → IsAccounted s.provider.store
  started-IsAccounted range prov w s sure v4_only opened r =
      reached-IsAccounted prov w s sure (new_provider-AllIpv4 e lawful range prov v4_only opened)
        (new_provider-IsAccounted e lawful range prov opened) r
