-- ===== src/Controller/Answers.antt =====
-- The answers to a CREATE beside the A records.
use f5_ipam_controller_base.Base.{
  ◌≡◌, refl, inl, inr, true, Option, none, some, List, [], ◌∷◌, ◌++◌, if◌then◌else◌, Bool-cases,
  Option-cases,
}
use f5_ipam_controller_base.Base.Text.{Text, text_eq, is_empty}
use f5_ipam_controller_base.Ipamspec.{IpamRequest, IpamResponse, create_op}
use f5_ipam_controller_base.Store.Tables.{ARecord, least_address}
use f5_ipam_controller_base.Store.Engine.{
  Sqlite, IsSqlite, NeverFails, NeverFails-IsReliable, NeverFails-NeverLoses, insert_record,
}
use f5_ipam_controller_base.Store.Release.{Holds, least_address-Holds}
use f5_ipam_controller_base.Provider.Ranges.{Provider}
use f5_ipam_controller_base.Manager.{ipam_manager, is_ipv4_addr}
use f5_ipam_controller_base.Manager.Cases.{
  marked, get_next_ip_address-cases, allocate_ip_address-cases, manager_get_ip_address_lem,
  manager_create_a_record_lem,
}
use f5_ipam_controller_base.Controller
use f5_ipam_controller_base.Controller.Serve.{IsQuoted}

-- The answer, where there is one, is to the request, and one with an IPv4 address names an address
-- that the host holds.
abbrev IsTrue : IpamRequest → Provider × Option IpamResponse → Type 0
IsTrue req (prov, none) = Unit
IsTrue req (prov, some resp) =
    (resp.request ≡ req)
    × (resp.status ≡ true
        → is_ipv4_addr resp.ip_addr ≡ true
        → Holds resp.ip_addr req.host_name prov.store.records)

pub Holds-append :
    (a host : Text) (records : List ARecord)
    → Holds a host (records ++ record { ipaddress = a; hostname = host } ∷ [])
Holds-append a host [] = inl (refl, refl)
Holds-append a host (r ∷ records) = inr (Holds-append a host records)

recorded-Holds :
    (a host : Text) (prov : Provider)
    → is_ipv4_addr a ≡ true
    → Holds a host
        (if is_ipv4_addr a
          then record prov { store = insert_record a host prov.store }
          else prov).store.records
recorded-Holds a host prov h = rw h (Holds-append a host prov.store.records)

module _ (e : Sqlite) (lawful : IsSqlite e) (sure : NeverFails e) where
  create_asked-IsTrue :
      (req : IpamRequest) (prov : Provider)
      → IsQuoted req
      → IsTrue req (Controller.create_asked (ipam_manager e) req prov)
  unfolding Controller.create_asked
  create_asked-IsTrue req prov q =
      elim (allocate_ip_address-cases e lawful (NeverFails-IsReliable sure) req.cidr req.ip_addr
        prov q.cidr q.ip_addr) [
          | inl refused ↦ rw refused (refl, λ h. cc)
          | inr (r, row, same, at, taken) ↦
              rw
                (
                  taken,
                  manager_create_a_record_lem e lawful (NeverFails-NeverLoses sure) req.host_name
                      req.ip_addr (marked r prov),
                )
                (refl, λ h v. recorded-Holds req.ip_addr req.host_name (marked r prov) v)
        ]

  create_next-IsTrue :
      (req : IpamRequest) (prov : Provider)
      → IsQuoted req
      → IsTrue req (Controller.create_next (ipam_manager e) req prov)
  unfolding Controller.create_next
  create_next-IsTrue req prov q =
      elim (get_next_ip_address-cases e lawful (NeverFails-IsReliable sure) req.cidr prov q.cidr) [
        | inl refused ↦ rw refused tt
        | inr (r, row, same, taken) ↦ elim (Bool-cases (is_empty r.ipaddress)) [
          | inl missing ↦ rw (taken, missing) tt
          | inr there ↦
              rw
                (
                  taken,
                  there,
                  manager_create_a_record_lem e lawful (NeverFails-NeverLoses sure) req.host_name
                      r.ipaddress (marked r prov),
                )
                (refl, λ h v. recorded-Holds r.ipaddress req.host_name (marked r prov) v)
        ]
      ]

  create_any-IsTrue :
      (req : IpamRequest) (prov : Provider)
      → IsQuoted req
      → IsTrue req (Controller.create_any (ipam_manager e) req prov)
  unfolding Controller.create_any
  create_any-IsTrue req prov q =
      rw (manager_get_ip_address_lem e lawful req.host_name prov q.host_name)
        (elim (Option-cases (least_address req.host_name prov.store.records)) [
          | inl unknown ↦ rw unknown (create_next-IsTrue req prov q)
          | inr (a, found) ↦ rw found (elim (Bool-cases (is_empty a)) [
            | inl missing ↦ rw missing (create_next-IsTrue req prov q)
            | inr there ↦
                rw there (refl, λ h v. least_address-Holds req.host_name a prov.store.records found)
          ])
        ])

  created-IsTrue :
      (req : IpamRequest) (prov : Provider)
      → IsQuoted req
      → text_eq req.operation create_op ≡ true
      → IsTrue req (Controller.handle (ipam_manager e) req prov)
  unfolding Controller.handle
  created-IsTrue req prov q creates = rw creates (elim (Bool-cases (is_empty req.ip_addr)) [
    | inl any ↦ rw any (create_any-IsTrue req prov q)
    | inr asked ↦ rw asked (create_asked-IsTrue req prov q)
  ])

  -- Over an SQLite engine of which no statement fails: a successful answer with an IPv4 address to a
  -- CREATE whose texts a statement can quote is to that request, and names an address that an A record
  -- of the host then has.
  pub handle-Holds :
      (req : IpamRequest) (prov : Provider) (resp : IpamResponse)
      → IsQuoted req
      → text_eq req.operation create_op ≡ true
      → (Controller.handle (ipam_manager e) req prov).1 ≡ some resp
      → resp.status ≡ true
      → is_ipv4_addr resp.ip_addr ≡ true
      → (resp.request ≡ req)
        × Holds resp.ip_addr req.host_name
            (Controller.handle (ipam_manager e) req prov).0.store.records
  handle-Holds req prov resp q creates answered good v =
      let (to, held) = rw answered at (created-IsTrue req prov q creates) in (to, held good v)
