-- ===== src/Controller/Faults.antt =====
-- What the loop keeps even over an engine whose statements may fail.
use f5_ipam_controller_base.Base.{inl, inr, List, [], ◌∷◌, All, Bool-cases}
use f5_ipam_controller_base.Base.Text.{text_eq, is_empty}
use f5_ipam_controller_base.Ipamspec.{IpamRequest, create_op, delete_op}
use f5_ipam_controller_base.Store.Tables.{Tables}
use f5_ipam_controller_base.Store.Engine.{Sqlite, IsSqlite}
use f5_ipam_controller_base.Provider.Ranges.{Provider}
use f5_ipam_controller_base.Manager
use f5_ipam_controller_base.Manager.{ipam_manager, is_ipv4_addr}
use f5_ipam_controller_base.Controller
use f5_ipam_controller_base.Controller.Serve.{IsQuoted}
use f5_ipam_controller_base.Manager.Faults.{
  IsStable, get_ip_address-keeps, get_next_ip_address-keeps, allocate_ip_address-keeps,
  create_a_record-keeps, release_ip_address-keeps, delete_a_record-keeps,
}

module _ (e : Sqlite) (lawful : IsSqlite e) (p : Tables → Type 0) (k : IsStable p) where
  create_asked-keeps :
      (req : IpamRequest) (prov : Provider)
      → IsQuoted req
      → p prov.store
      → p (Controller.create_asked (ipam_manager e) req prov).0.store
  unfolding Controller.create_asked
  create_asked-keeps req prov q x =
      let asked = Manager.allocate_ip_address e req.cidr req.ip_addr prov in
      let taken =
        allocate_ip_address-keeps e lawful p k req.cidr req.ip_addr prov q.cidr q.ip_addr x in
      elim (Bool-cases asked.1) [
        | inl agreed ↦
            rw agreed (create_a_record-keeps e lawful p k req.host_name req.ip_addr asked.0 taken)
        | inr refused ↦ rw refused taken
      ]

  create_next-keeps :
      (req : IpamRequest) (prov : Provider)
      → IsQuoted req
      → p prov.store
      → p (Controller.create_next (ipam_manager e) req prov).0.store
  unfolding Controller.create_next
  create_next-keeps req prov q x =
      let next = Manager.get_next_ip_address e req.cidr prov in
      let taken = get_next_ip_address-keeps e lawful p k req.cidr prov q.cidr x in
      elim (Bool-cases (is_empty next.1)) [
        | inl missing ↦ rw missing taken
        | inr there ↦
            rw there (create_a_record-keeps e lawful p k req.host_name next.1 next.0 taken)
      ]

  create_any-keeps :
      (req : IpamRequest) (prov : Provider)
      → IsQuoted req
      → p prov.store
      → p (Controller.create_any (ipam_manager e) req prov).0.store
  unfolding Controller.create_any
  create_any-keeps req prov q x =
      let known = Manager.get_ip_address e req.host_name prov in
      let same = get_ip_address-keeps e lawful p k req.host_name prov q.host_name x in
      elim (Bool-cases (is_empty known.1)) [
        | inl missing ↦ rw missing (create_next-keeps req known.0 q same)
        | inr there ↦ rw there same
      ]

  delete-keeps :
      (req : IpamRequest) (prov : Provider)
      → IsQuoted req
      → p prov.store
      → p (Controller.delete (ipam_manager e) req prov).0.store
  unfolding Controller.delete
  delete-keeps req prov q x =
      let known = Manager.get_ip_address e req.host_name prov in
      let same = get_ip_address-keeps e lawful p k req.host_name prov q.host_name x in
      elim (Bool-cases (is_empty known.1)) [
        | inl missing ↦ rw missing same
        | inr there ↦ rw there (
            delete_a_record-keeps e lawful p k req.host_name known.1
              (Manager.release_ip_address e known.1 known.0)
              (release_ip_address-keeps e lawful p k known.1 known.0 same))
      ]

  -- A round of the loop keeps what no statement can end, whichever of its statements fail.
  pub handle-keeps :
      (req : IpamRequest) (prov : Provider)
      → IsQuoted req
      → p prov.store
      → p (Controller.handle (ipam_manager e) req prov).0.store
  unfolding Controller.handle
  handle-keeps req prov q x = elim (Bool-cases (text_eq req.operation create_op)) [
    | inl creates ↦ rw creates (elim (Bool-cases (is_empty req.ip_addr)) [
      | inl any ↦ rw any (create_any-keeps req prov q x)
      | inr asked ↦ rw asked (create_asked-keeps req prov q x)
    ])
    | inr other ↦ rw other (elim (Bool-cases (text_eq req.operation delete_op)) [
      | inl deletes ↦ rw deletes (delete-keeps req prov q x)
      | inr unknown ↦ rw unknown x
    ])
  ]

  pub run-keeps :
      (reqs : List IpamRequest) (prov : Provider)
      → All IsQuoted reqs
      → p prov.store
      → p (Controller.run (ipam_manager e) reqs prov).0.store
  unfolding Controller.run
  run-keeps [] prov q x = x
  run-keeps (req ∷ reqs) prov (q, qs) x =
      run-keeps reqs (Controller.handle (ipam_manager e) req prov).0 qs (handle-keeps req prov q x)
