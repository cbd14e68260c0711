-- ===== src/Controller/Retry.antt =====
-- A CREATE that comes again for the same host.
use f5_ipam_controller_base.Base.{
  subst, ◌≡◌, refl, sym, ap, ◌∙◌, inl, inr, true, false, Option, none, some, List, [], ◌∷◌, ◌++◌,
  arith, All, Bool-cases, Option-cases, if◌then◌else◌,
}
use f5_ipam_controller_base.Base.Text.{Text, text_eq, text_eq_refl, is_empty}
use f5_ipam_controller_base.Ipamspec.{IpamRequest, IpamResponse, create_op}
use f5_ipam_controller_base.Store.Tables.{ARecord, least_address}
use f5_ipam_controller_base.Store.Engine.{
  Sqlite, IsSqlite, NeverFails, NeverFails-IsReliable, NeverFails-NeverLoses, insert_record,
}
use f5_ipam_controller_base.Store.Release.{Holds, least_address-Holds}
use f5_ipam_controller_base.Provider.Ranges.{Provider}
use f5_ipam_controller_base.Net.Parse.{parse_ip}
use f5_ipam_controller_base.Manager.{ipam_manager, is_ipv4_addr}
use f5_ipam_controller_base.Manager.Cases.{
  marked, get_next_ip_address-cases, manager_get_ip_address_lem, manager_create_a_record_lem,
}
use f5_ipam_controller_base.Controller
use f5_ipam_controller_base.Controller.Serve.{IsQuoted}

-- Every A record has an IPv4 address, as CreateARecord of the manager asks.
abbrev pub AllRecordsIpv4 : List ARecord → Type 0
AllRecordsIpv4 = All (λ r. is_ipv4_addr r.ipaddress ≡ true)

pub ipv4-ne_empty : (a : Text) → is_ipv4_addr a ≡ true → is_empty a ≡ false
unfolding is_ipv4_addr parse_ip
ipv4-ne_empty [] h = cc
ipv4-ne_empty (c ∷ a) h = refl

Holds-ipv4 :
    (a host : Text) (records : List ARecord)
    → AllRecordsIpv4 records
    → Holds a host records
    → is_ipv4_addr a ≡ true
Holds-ipv4 a host [] v h = elim h [ ]
Holds-ipv4 a host (r ∷ records) v (inl (p, q)) = rw (← p) v.0
Holds-ipv4 a host (r ∷ records) v (inr h) = Holds-ipv4 a host records v.1 h

-- The record of a host that had none is what the next query finds.
least_address-append :
    (a host : Text) (records : List ARecord)
    → least_address host records ≡ none
    → least_address host (records ++ record { ipaddress = a; hostname = host } ∷ []) ≡ some a
unfolding least_address
least_address-append a host [] h = rw (text_eq_refl host) refl
least_address-append a host (r ∷ records) h = elim (Option-cases (least_address host records)) [
  | inl e ↦ ground (arith, least_address-append a host records e)
  | inr (b, e) ↦ ground arith
]

-- A host with that address asks in vain: an answer with it is what comes again.
abbrev IsKept : IpamRequest → Provider × Option IpamResponse → Type 0
IsKept req (prov, none) = Unit
IsKept req (prov, some resp) =
    resp.status ≡ true
    → is_ipv4_addr resp.ip_addr ≡ true
    → least_address req.host_name prov.store.records ≡ some resp.ip_addr

recorded-least :
    (a host : Text) (prov : Provider)
    → least_address host prov.store.records ≡ none
    → is_ipv4_addr a ≡ true
    → least_address host
        (if is_ipv4_addr a
          then record prov { store = insert_record a host prov.store }
          else prov).store.records
      ≡ some a
recorded-least a host prov n h = rw h (least_address-append a host prov.store.records n)

module _ (e : Sqlite) (lawful : IsSqlite e) (sure : NeverFails e) where
  create_next-IsKept :
      (req : IpamRequest) (prov : Provider)
      → IsQuoted req
      → least_address req.host_name prov.store.records ≡ none
      → IsKept req (Controller.create_next (ipam_manager e) req prov)
  unfolding Controller.create_next
  create_next-IsKept req prov q n =
      elim (get_next_ip_address-cases e lawful (NeverFails-IsReliable sure) req.cidr prov q.cidr) [
        | inl refused ↦ rw refused tt
        | inr (r, row, same, taken) ↦ elim (Bool-cases (is_empty r.ipaddress)) [
          | inl missing ↦ rw (taken, missing) tt
          | inr there ↦
              rw
                (
                  taken,
                  there,
                  manager_create_a_record_lem e lawful (NeverFails-NeverLoses sure) req.host_name
                      r.ipaddress (marked r prov),
                )
                (λ h v. recorded-least r.ipaddress req.host_name (marked r prov) n v)
        ]
      ]

  create_any-IsKept :
      (req : IpamRequest) (prov : Provider)
      → IsQuoted req
      → AllRecordsIpv4 prov.store.records
      → IsKept req (Controller.create_any (ipam_manager e) req prov)
  unfolding Controller.create_any
  create_any-IsKept req prov q v =
      rw (manager_get_ip_address_lem e lawful req.host_name prov q.host_name)
        (elim (Option-cases (least_address req.host_name prov.store.records)) [
          | inl unknown ↦ rw unknown (create_next-IsKept req prov q unknown)
          | inr (a, found) ↦
              let there = ipv4-ne_empty a (
                Holds-ipv4 a req.host_name _ v
                  (least_address-Holds req.host_name a prov.store.records found)) in
              rw (found, there) (λ h w. found)
        ])

  handle_any :
      (req : IpamRequest) (prov : Provider)
      → text_eq req.operation create_op ≡ true
      → is_empty req.ip_addr ≡ true
      → Controller.handle (ipam_manager e) req prov
        ≡ Controller.create_any (ipam_manager e) req prov
  unfolding Controller.handle
  handle_any req prov creates any = rw (creates, any) refl

  -- A CREATE without an address of a host that the query finds is answered with what it found.
  create-known :
      (req : IpamRequest) (prov : Provider) (a : Text)
      → IsQuoted req
      → text_eq req.operation create_op ≡ true
      → is_empty req.ip_addr ≡ true
      → least_address req.host_name prov.store.records ≡ some a
      → is_empty a ≡ false
      → Controller.handle (ipam_manager e) req prov ≡ (prov, Controller.respond req a true)
  unfolding Controller.handle Controller.create_any
  create-known req prov a q creates any found there =
      rw
        (
          creates,
          any,
          manager_get_ip_address_lem e lawful req.host_name prov q.host_name,
          found,
          there,
        )
        refl

  -- Over an SQLite engine of which no statement fails, where the A records have IPv4 addresses: after
  -- a CREATE without an address was answered with an IPv4 address, any such CREATE of the same host,
  -- in whatever CIDR, is answered with that address and changes nothing.
  pub create-retry :
      (req again : IpamRequest) (prov prov' : Provider) (resp : IpamResponse)
      → IsQuoted req
      → IsQuoted again
      → AllRecordsIpv4 prov.store.records
      → text_eq req.operation create_op ≡ true
      → text_eq again.operation create_op ≡ true
      → is_empty req.ip_addr ≡ true
      → is_empty again.ip_addr ≡ true
      → again.host_name ≡ req.host_name
      → Controller.handle (ipam_manager e) req prov ≡ (prov', some resp)
      → resp.status ≡ true
      → is_ipv4_addr resp.ip_addr ≡ true
      → Controller.handle (ipam_manager e) again prov'
        ≡ (prov', Controller.respond again resp.ip_addr true)
  create-retry req again prov prov' resp q q' v creates creates' any any' same answered good w =
      let kept : IsKept req (prov', some resp) =
        subst (IsKept req) (sym (handle_any req prov creates any) ∙ answered)
          (create_any-IsKept req prov q v) in
      let found = ap (λ h. least_address h prov'.store.records) same ∙ kept good w in
      create-known again prov' resp.ip_addr q' creates' any' found (ipv4-ne_empty resp.ip_addr w)
