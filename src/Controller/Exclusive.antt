-- ===== src/Controller/Exclusive.antt =====
-- The holders of an address over a run of the controller, over an engine of which some statements may
-- fail.
use f5_ipam_controller_base.Base.{inl, inr, List, [], ◌∷◌, All, Bool-cases, Option-cases}
use f5_ipam_controller_base.Base.Text.{Text, text_eq, is_empty}
use f5_ipam_controller_base.Ipamspec.{IpamRequest, create_op, delete_op}
use f5_ipam_controller_base.Store.Tables.{RangeRow, least_address}
use f5_ipam_controller_base.Store.Engine.{Sqlite, IsSqlite, IsReliable}
use f5_ipam_controller_base.Store.Exact.{or_empty, delete_a_record_lem, release_ip-cases}
use f5_ipam_controller_base.Store.Exclusive.{IsExclusive, reserve-IsExclusive, grant-IsExclusive}
use f5_ipam_controller_base.Store.Release.{
  Holds, least_address-Holds, give_back-IsExclusive, forget-IsExclusive,
}
use f5_ipam_controller_base.Store.Dbstore
use f5_ipam_controller_base.Provider.Ranges.{Provider}
use f5_ipam_controller_base.Provider.Ipam
use f5_ipam_controller_base.Manager
use f5_ipam_controller_base.Manager.{ipam_manager, is_ipv4_addr}
use f5_ipam_controller_base.Manager.Cases.{
  IsFreeRow, marked, get_next_ip_address-cases, allocate_ip_address-cases,
  manager_get_ip_address_lem,
}
use f5_ipam_controller_base.Manager.Faults.{Does-keeps}
use f5_ipam_controller_base.Controller.Serve.{IsQuoted}
use f5_ipam_controller_base.Controller

module _ (e : Sqlite) (lawful : IsSqlite e) (sure : IsReliable e) where
  -- A marked row is recorded for the host, or the INSERT fails and it stays marked.
  record-IsExclusive :
      (r : RangeRow) (host : Text) (prov : Provider)
      → IsFreeRow prov r
      → IsExclusive prov.store
      → IsExclusive (Manager.create_a_record e host r.ipaddress (marked r prov)).0.store
  unfolding Manager.create_a_record Ipam.create_a_record Dbstore.create_a_record
  record-IsExclusive r host prov row x =
      let taken = reserve-IsExclusive r.id prov.store x in
      elim (Bool-cases (is_ipv4_addr r.ipaddress)) [
        | inl v4 ↦ rw v4 (
            Does-keeps IsExclusive _ (lawful.inserts_record r.ipaddress host (marked r prov).store)
              taken (grant-IsExclusive r host prov.store row.present row.free x))
        | inr other ↦ rw other taken
      ]

  -- The DELETE takes the record away, whether the release before it took effect or not.
  forget_record-IsExclusive :
      (a host : Text) (prov : Provider)
      → Holds a host prov.store.records
      → IsExclusive prov.store
      → IsExclusive (Manager.delete_a_record e host a (Manager.release_ip_address e a prov)).store
  unfolding Manager.delete_a_record Manager.release_ip_address Ipam.delete_a_record
      Ipam.release_addr
  forget_record-IsExclusive a host prov held x = elim (Bool-cases (is_ipv4_addr a)) [
    | inl v4 ↦ rw v4 (elim (release_ip-cases e lawful a prov.store) [
      | inl done ↦
          rw (done, delete_a_record_lem e lawful sure host a _)
            (give_back-IsExclusive a host prov.store held x)
      | inr failed ↦
          rw (failed, delete_a_record_lem e lawful sure host a _)
            (forget-IsExclusive a host prov.store x)
    ])
    | inr other ↦ rw other x
  ]

  create_asked-IsExclusive :
      (req : IpamRequest) (prov : Provider)
      → IsQuoted req
      → IsExclusive prov.store
      → IsExclusive (Controller.create_asked (ipam_manager e) req prov).0.store
  unfolding Controller.create_asked
  create_asked-IsExclusive req prov q x =
      elim (allocate_ip_address-cases e lawful sure req.cidr req.ip_addr prov q.cidr q.ip_addr) [
        | inl refused ↦ rw refused x
        | inr (r, row, same, at, taken) ↦
            rw (taken, ← at) (record-IsExclusive r req.host_name prov row x)
      ]

  create_next-IsExclusive :
      (req : IpamRequest) (prov : Provider)
      → IsQuoted req
      → IsExclusive prov.store
      → IsExclusive (Controller.create_next (ipam_manager e) req prov).0.store
  unfolding Controller.create_next
  create_next-IsExclusive req prov q x =
      elim (get_next_ip_address-cases e lawful sure req.cidr prov q.cidr) [
        | inl refused ↦ rw refused x
        | inr (r, row, same, taken) ↦ elim (Bool-cases (is_empty r.ipaddress)) [
          | inl missing ↦ rw (taken, missing) (reserve-IsExclusive r.id prov.store x)
          | inr there ↦ rw (taken, there) (record-IsExclusive r req.host_name prov row x)
        ]
      ]

  create_any-IsExclusive :
      (req : IpamRequest) (prov : Provider)
      → IsQuoted req
      → IsExclusive prov.store
      → IsExclusive (Controller.create_any (ipam_manager e) req prov).0.store
  unfolding Controller.create_any
  create_any-IsExclusive req prov q x =
      rw (manager_get_ip_address_lem e lawful req.host_name prov q.host_name)
        (elim (Bool-cases (is_empty (or_empty (least_address req.host_name prov.store.records)))) [
          | inl unknown ↦ rw unknown (create_next-IsExclusive req prov q x)
          | inr known ↦ rw known x
        ])

  delete-IsExclusive :
      (req : IpamRequest) (prov : Provider)
      → IsQuoted req
      → IsExclusive prov.store
      → IsExclusive (Controller.delete (ipam_manager e) req prov).0.store
  unfolding Controller.delete
  delete-IsExclusive req prov q x =
      rw (manager_get_ip_address_lem e lawful req.host_name prov q.host_name)
        (elim (Option-cases (least_address req.host_name prov.store.records)) [
          | inl unknown ↦ rw unknown x
          | inr (a, found) ↦ rw found (elim (Bool-cases (is_empty a)) [
            | inl missing ↦ rw missing x
            | inr there ↦ rw there (
                forget_record-IsExclusive a req.host_name prov
                  (least_address-Holds req.host_name a prov.store.records found) x)
          ])
        ])

  pub handle-IsExclusive :
      (req : IpamRequest) (prov : Provider)
      → IsQuoted req
      → IsExclusive prov.store
      → IsExclusive (Controller.handle (ipam_manager e) req prov).0.store
  unfolding Controller.handle
  handle-IsExclusive req prov q x = elim (Bool-cases (text_eq req.operation create_op)) [
    | inl creates ↦ rw creates (elim (Bool-cases (is_empty req.ip_addr)) [
      | inl any ↦ rw any (create_any-IsExclusive req prov q x)
      | inr asked ↦ rw asked (create_asked-IsExclusive req prov q x)
    ])
    | inr other ↦ rw other (elim (Bool-cases (text_eq req.operation delete_op)) [
      | inl deletes ↦ rw deletes (delete-IsExclusive req prov q x)
      | inr unknown ↦ rw unknown x
    ])
  ]

  -- Over an SQLite engine of which the UPDATE that takes a row out of the pool and the DELETE of a
  -- record never fail, while any other statement may: from a pool without repeated addresses in which
  -- no two A records have one address and every row of a held address is allocated, after any requests
  -- whose texts a statement can quote, that is so again.
  pub run-IsExclusive :
      (reqs : List IpamRequest) (prov : Provider)
      → All IsQuoted reqs
      → IsExclusive prov.store
      → IsExclusive (Controller.run (ipam_manager e) reqs prov).0.store
  unfolding Controller.run
  run-IsExclusive [] prov q x = x
  run-IsExclusive (req ∷ reqs) prov (q, qs) x =
      run-IsExclusive reqs (Controller.handle (ipam_manager e) req prov).0 qs
        (handle-IsExclusive req prov q x)
