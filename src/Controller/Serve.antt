-- ===== src/Controller/Serve.antt =====
-- One round of the controller over IPAMManager, as a step on the provider's tables.
use f5_ipam_controller_base.Base.{
  ◌≡◌, refl, inl, inr, true, [], ◌∷◌, if◌then◌else◌, Bool-cases, Option-cases,
}
use f5_ipam_controller_base.Base.Text.{Text, text_eq, is_empty}
use f5_ipam_controller_base.Ipamspec.{IpamRequest, create_op, delete_op}
use f5_ipam_controller_base.Store.Tables.{RangeRow, least_address}
use f5_ipam_controller_base.Store.Engine.{
  Sqlite, IsSqlite, NeverFails, NeverFails-IsReliable, NeverFails-NeverLoses, range_literal,
  host_literal,
}
use f5_ipam_controller_base.Store.Exact.{or_empty}
use f5_ipam_controller_base.Store.Exclusive.{grant}
use f5_ipam_controller_base.Store.Release.{give_back, Holds, least_address-Holds}
use f5_ipam_controller_base.Provider.Ranges.{Provider}
use f5_ipam_controller_base.Manager.{ipam_manager, is_ipv4_addr}
use f5_ipam_controller_base.Net.Parse.{parse_ip}
use f5_ipam_controller_base.Manager.Cases.{
  IsFreeRow, marked, get_next_ip_address-cases, allocate_ip_address-cases,
  manager_get_ip_address_lem, manager_create_a_record_lem, manager_give_back_lem,
}
use f5_ipam_controller_base.Controller

-- Texts that the store's statements can quote.
pub record IsQuoted (req : IpamRequest) : Type 0 where
  pub cidr : range_literal req.cidr ≡ true
  pub ip_addr : range_literal req.ip_addr ≡ true
  pub host_name : host_literal req.host_name ≡ true

-- The provider with the row handed to the host: marked, and recorded where its address is an IPv4
-- address.
abbrev pub granted : RangeRow → Text → Provider → Provider
granted r host prov =
    if is_ipv4_addr r.ipaddress
    then record prov { store = grant r host prov.store }
    else marked r prov

abbrev pub returned : Text → Text → Provider → Provider
returned a host prov =
    if is_ipv4_addr a then record prov { store = give_back a host prov.store } else prov

-- The ways a round can change the provider.
pub data Served (req : IpamRequest) (prov : Provider) : Provider → Type 0 where
  keeps : Served req prov prov
  grants :
      (r : RangeRow)
      → IsFreeRow prov r
      → r.cidr ≡ req.cidr
      → Served req prov (granted r req.host_name prov)
  returns :
      (a : Text)
      → Holds a req.host_name prov.store.records
      → Served req prov (returned a req.host_name prov)

empty_eq : (a : Text) → is_empty a ≡ true → a ≡ []
empty_eq [] h = refl
empty_eq (c ∷ a) h = cc

-- The empty text is no IPv4 address, so no record is made for it.
granted_empty :
    (r : RangeRow) (host : Text) (prov : Provider)
    → is_empty r.ipaddress ≡ true
    → granted r host prov ≡ marked r prov
unfolding is_ipv4_addr parse_ip
granted_empty r host prov h = rw (empty_eq r.ipaddress h) refl

module _ (e : Sqlite) (lawful : IsSqlite e) (sure : NeverFails e) where
  create_asked-Served :
      (req : IpamRequest) (prov : Provider)
      → IsQuoted req
      → Served req prov (Controller.create_asked (ipam_manager e) req prov).0
  unfolding Controller.create_asked
  create_asked-Served req prov q =
      elim (allocate_ip_address-cases e lawful (NeverFails-IsReliable sure) req.cidr req.ip_addr
        prov q.cidr q.ip_addr) [
          | inl refused ↦ rw refused keeps
          | inr (r, row, same, at, taken) ↦
              rw
                (
                  taken,
                  manager_create_a_record_lem e lawful (NeverFails-NeverLoses sure) req.host_name
                      req.ip_addr (marked r prov),
                  ← at,
                )
                (grants r row same)
        ]

  create_next-Served :
      (req : IpamRequest) (prov : Provider)
      → IsQuoted req
      → Served req prov (Controller.create_next (ipam_manager e) req prov).0
  unfolding Controller.create_next
  create_next-Served req prov q =
      elim (get_next_ip_address-cases e lawful (NeverFails-IsReliable sure) req.cidr prov q.cidr) [
        | inl refused ↦ rw refused keeps
        | inr (r, row, same, taken) ↦ elim (Bool-cases (is_empty r.ipaddress)) [
          | inl missing ↦
              rw (taken, missing, ← granted_empty r req.host_name prov missing) (grants r row same)
          | inr there ↦
              rw
                (
                  taken,
                  there,
                  manager_create_a_record_lem e lawful (NeverFails-NeverLoses sure) req.host_name
                      r.ipaddress (marked r prov),
                )
                (grants r row same)
        ]
      ]

  create_any-Served :
      (req : IpamRequest) (prov : Provider)
      → IsQuoted req
      → Served req prov (Controller.create_any (ipam_manager e) req prov).0
  unfolding Controller.create_any
  create_any-Served req prov q =
      rw (manager_get_ip_address_lem e lawful req.host_name prov q.host_name)
        (elim (Bool-cases (is_empty (or_empty (least_address req.host_name prov.store.records)))) [
          | inl unknown ↦ rw unknown (create_next-Served req prov q)
          | inr known ↦ rw known keeps
        ])

  delete-Served :
      (req : IpamRequest) (prov : Provider)
      → IsQuoted req
      → Served req prov (Controller.delete (ipam_manager e) req prov).0
  unfolding Controller.delete
  delete-Served req prov q =
      rw (manager_get_ip_address_lem e lawful req.host_name prov q.host_name)
        (elim (Option-cases (least_address req.host_name prov.store.records)) [
          | inl unknown ↦ rw unknown keeps
          | inr (a, found) ↦ rw found (elim (Bool-cases (is_empty a)) [
            | inl missing ↦ rw missing keeps
            | inr there ↦
                rw (there, manager_give_back_lem e lawful sure req.host_name a prov)
                  (returns a (least_address-Holds req.host_name a prov.store.records found))
          ])
        ])

  -- Over an SQLite engine of which no statement fails, a request whose texts a statement can quote
  -- keeps the provider, hands a free row of the requested CIDR to the host, or takes back an address
  -- that the host holds.
  pub handle-Served :
      (req : IpamRequest) (prov : Provider)
      → IsQuoted req
      → Served req prov (Controller.handle (ipam_manager e) req prov).0
  unfolding Controller.handle
  handle-Served req prov q = elim (Bool-cases (text_eq req.operation create_op)) [
    | inl creates ↦ rw creates (elim (Bool-cases (is_empty req.ip_addr)) [
      | inl any ↦ rw any (create_any-Served req prov q)
      | inr asked ↦ rw asked (create_asked-Served req prov q)
    ])
    | inr other ↦ rw other (elim (Bool-cases (text_eq req.operation delete_op)) [
      | inl deletes ↦ rw deletes (delete-Served req prov q)
      | inr unknown ↦ rw unknown keeps
    ])
  ]
