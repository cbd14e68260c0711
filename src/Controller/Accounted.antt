-- ===== src/Controller/Accounted.antt =====
-- Who holds the rows of the provider's pool over a run of the controller, over an engine of which some
-- statements may fail.
use f5_ipam_controller_base.Base.{refl, inl, inr, List, [], ◌∷◌, All, Bool-cases}
use f5_ipam_controller_base.Base.Text.{Text, text_eq, is_empty}
use f5_ipam_controller_base.Ipamspec.{IpamRequest, create_op, delete_op}
use f5_ipam_controller_base.Store.Tables.{RangeRow, least_address}
use f5_ipam_controller_base.Store.Engine.{Sqlite, IsSqlite, NeverLoses}
use f5_ipam_controller_base.Store.Exact.{or_empty, release_ip_lem}
use f5_ipam_controller_base.Store.Accounted.{
  IsAccounted, grant-IsAccounted, give_back-IsAccounted, insert_record-IsAccounted,
  release-IsAccounted,
}
use f5_ipam_controller_base.Store.Dbstore
use f5_ipam_controller_base.Provider.Ranges.{Provider}
use f5_ipam_controller_base.Provider.Ipam
use f5_ipam_controller_base.Manager
use f5_ipam_controller_base.Manager.{ipam_manager, is_ipv4_addr}
use f5_ipam_controller_base.Manager.Cases.{
  IsFreeRow, marked, manager_get_ip_address_lem, manager_create_a_record_lem,
}
use f5_ipam_controller_base.Manager.Unmarked.{
  get_next_ip_address-outcomes, allocate_ip_address-outcomes,
}
use f5_ipam_controller_base.Manager.Faults.{Does-keeps}
use f5_ipam_controller_base.Controller.Serve.{IsQuoted}
use f5_ipam_controller_base.Controller.Addresses.{
  addresses, AllIpv4, In-AllIpv4, Ipv4-there, addresses-IsStable,
}
use f5_ipam_controller_base.Controller.Faults.{handle-keeps}
use f5_ipam_controller_base.Controller

module _ (e : Sqlite) (lawful : IsSqlite e) (sure : NeverLoses e) where
  -- A free row's address is recorded, with the row marked or not.
  record-IsAccounted :
      (r : RangeRow) (host : Text) (prov : Provider)
      → IsFreeRow prov r
      → AllIpv4 (addresses prov.store.ranges)
      → IsAccounted prov.store
      → IsAccounted (Manager.create_a_record e host r.ipaddress (marked r prov)).0.store
        × IsAccounted (Manager.create_a_record e host r.ipaddress prov).0.store
  record-IsAccounted r host prov row v x =
      let v4 = In-AllIpv4 r prov.store.ranges row.present v in
      (
        rw (manager_create_a_record_lem e lawful sure host r.ipaddress (marked r prov), v4)
            (grant-IsAccounted r host prov.store row.present x),
        rw (manager_create_a_record_lem e lawful sure host r.ipaddress prov, v4)
            (insert_record-IsAccounted r.ipaddress host prov.store x),
      )

  -- The release takes effect, whether the DELETE behind it does or not.
  release_record-IsAccounted :
      (a host : Text) (prov : Provider)
      → IsAccounted prov.store
      → IsAccounted (Manager.delete_a_record e host a (Manager.release_ip_address e a prov)).store
  unfolding Manager.delete_a_record Manager.release_ip_address Ipam.delete_a_record
      Ipam.release_addr Dbstore.delete_a_record
  release_record-IsAccounted a host prov x = elim (Bool-cases (is_ipv4_addr a)) [
    | inl v4 ↦
        rw (v4, release_ip_lem e lawful sure a prov.store)
          (Does-keeps IsAccounted _ (lawful.deletes_record a host _)
            (release-IsAccounted a prov.store x) (give_back-IsAccounted a host prov.store x))
    | inr other ↦ rw other x
  ]

  create_asked-IsAccounted :
      (req : IpamRequest) (prov : Provider)
      → IsQuoted req
      → AllIpv4 (addresses prov.store.ranges)
      → IsAccounted prov.store
      → IsAccounted (Controller.create_asked (ipam_manager e) req prov).0.store
  unfolding Controller.create_asked
  create_asked-IsAccounted req prov q v x =
      elim (allocate_ip_address-outcomes e lawful req.cidr req.ip_addr prov q.cidr q.ip_addr) [
        | inl refused ↦ rw refused x
        | inr (r, row, at, taken) ↦
            rw (taken, ← at) (record-IsAccounted r req.host_name prov row v x).0
      ]

  create_next-IsAccounted :
      (req : IpamRequest) (prov : Provider)
      → IsQuoted req
      → AllIpv4 (addresses prov.store.ranges)
      → IsAccounted prov.store
      → IsAccounted (Controller.create_next (ipam_manager e) req prov).0.store
  unfolding Controller.create_next
  create_next-IsAccounted req prov q v x =
      elim (get_next_ip_address-outcomes e lawful req.cidr prov q.cidr) [
        | inl refused ↦ rw refused x
        | inr (r, row, result) ↦
            let recorded = record-IsAccounted r req.host_name prov row v x in
            let there = Ipv4-there r.ipaddress (In-AllIpv4 r prov.store.ranges row.present v) in
            elim result [
              | inl taken ↦ rw (taken, there) recorded.0
              | inr untaken ↦ rw (untaken, there) recorded.1
            ]
      ]

  create_any-IsAccounted :
      (req : IpamRequest) (prov : Provider)
      → IsQuoted req
      → AllIpv4 (addresses prov.store.ranges)
      → IsAccounted prov.store
      → IsAccounted (Controller.create_any (ipam_manager e) req prov).0.store
  unfolding Controller.create_any
  create_any-IsAccounted req prov q v x =
      rw (manager_get_ip_address_lem e lawful req.host_name prov q.host_name)
        (elim (Bool-cases (is_empty (or_empty (least_address req.host_name prov.store.records)))) [
          | inl unknown ↦ rw unknown (create_next-IsAccounted req prov q v x)
          | inr held ↦ rw held x
        ])

  delete-IsAccounted :
      (req : IpamRequest) (prov : Provider)
      → IsQuoted req
      → IsAccounted prov.store
      → IsAccounted (Controller.delete (ipam_manager e) req prov).0.store
  unfolding Controller.delete
  delete-IsAccounted req prov q x =
      rw (manager_get_ip_address_lem e lawful req.host_name prov q.host_name)
        (elim (Bool-cases (is_empty (or_empty (least_address req.host_name prov.store.records)))) [
          | inl unknown ↦ rw unknown x
          | inr held ↦ rw held (release_record-IsAccounted _ req.host_name prov x)
        ])

  pub handle-IsAccounted :
      (req : IpamRequest) (prov : Provider)
      → IsQuoted req
      → AllIpv4 (addresses prov.store.ranges)
      → IsAccounted prov.store
      → IsAccounted (Controller.handle (ipam_manager e) req prov).0.store
  unfolding Controller.handle
  handle-IsAccounted req prov q v x = elim (Bool-cases (text_eq req.operation create_op)) [
    | inl creates ↦ rw creates (elim (Bool-cases (is_empty req.ip_addr)) [
      | inl any ↦ rw any (create_any-IsAccounted req prov q v x)
      | inr asked ↦ rw asked (create_asked-IsAccounted req prov q v x)
    ])
    | inr other ↦ rw other (elim (Bool-cases (text_eq req.operation delete_op)) [
      | inl deletes ↦ rw deletes (delete-IsAccounted req prov q x)
      | inr unknown ↦ rw unknown x
    ])
  ]

  -- Over an SQLite engine of which the INSERT of a record and the UPDATE of a release never fail,
  -- while any other statement may: from a pool of IPv4 addresses with distinct ids in which every row
  -- is free or held, after any requests whose texts a statement can quote, every row is again free or
  -- held by an A record: no address is lost.
  pub run-IsAccounted :
      (reqs : List IpamRequest) (prov : Provider)
      → All IsQuoted reqs
      → AllIpv4 (addresses prov.store.ranges)
      → IsAccounted prov.store
      → IsAccounted (Controller.run (ipam_manager e) reqs prov).0.store
  unfolding Controller.run
  run-IsAccounted [] prov q v x = x
  run-IsAccounted (req ∷ reqs) prov (q, qs) v x =
      run-IsAccounted reqs (Controller.handle (ipam_manager e) req prov).0 qs
        (rw (handle-keeps e lawful _ (addresses-IsStable _) req prov q refl) v)
        (handle-IsAccounted req prov q v x)
