-- ===== src/Manager/Cases.antt =====
-- What each method of IPAMManager can do to the provider's tables, over an engine that behaves as
-- documented and of which those statements do not fail that the method needs.
use f5_ipam_controller_base.Base.{
  ◌≡◌, ap, ◌∙◌, ◌⊎◌, inl, inr, true, false, Option, some, [], if◌then◌else◌, arith, In, Bool-cases,
  Option-cases,
}
use f5_ipam_controller_base.Base.Text.{Text, text_eq_iff}
use f5_ipam_controller_base.Net.Address.{net_contains}
use f5_ipam_controller_base.Net.Parse.{parse_ip, parse_cidr}
use f5_ipam_controller_base.Store.Tables.{
  Tables, RangeRow, select_first, is_free, is_free_at, set_status_id, set_status_ip, least_address,
  allocated, available,
}
use f5_ipam_controller_base.Store.Engine.{
  Sqlite, IsSqlite, NeverFails, IsReliable, NeverFails-IsReliable, NeverLoses,
  NeverFails-NeverLoses, range_literal, host_literal, insert_record,
}
use f5_ipam_controller_base.Store.Exact.{
  reserve, claim, or_empty, allocate_ip_lem, mark_ip_as_allocated_lem, get_ip_address_lem,
  release_ip_lem, create_a_record_lem, delete_a_record_lem,
}
use f5_ipam_controller_base.Store.Exclusive.{select_first_sound}
use f5_ipam_controller_base.Store.Dbstore
use f5_ipam_controller_base.Store.Release.{give_back}
use f5_ipam_controller_base.Provider.Ranges.{Provider}
use f5_ipam_controller_base.Provider.Ipam
use f5_ipam_controller_base.Provider.Ipam.{has_cidr}
use f5_ipam_controller_base.Manager

-- A row of the pool that can be handed out.
pub record IsFreeRow (prov : Provider) (r : RangeRow) : Type 0 where
  pub present : In r prov.store.ranges
  pub free : r.status ≡ available

-- The provider with the row marked as allocated.
abbrev pub marked : RangeRow → Provider → Provider
marked r prov = record prov {
  store = record prov.store { ranges = set_status_id allocated r.id prov.store.ranges };
}

pub IsFreeRow-free :
    (cidr : Text) (prov : Provider) (r : RangeRow)
    → select_first (is_free cidr) prov.store.ranges ≡ some r
    → IsFreeRow prov r × (r.cidr ≡ cidr)
IsFreeRow-free cidr prov r h =
    let (i, p) = select_first_sound (is_free cidr) prov.store.ranges r h in
    (record { present = i; free = ground arith }, ground (arith, text_eq_iff r.cidr cidr))

pub IsFreeRow-at :
    (cidr ip : Text) (prov : Provider) (r : RangeRow)
    → select_first (is_free_at cidr ip) prov.store.ranges ≡ some r
    → IsFreeRow prov r × (r.cidr ≡ cidr) × (r.ipaddress ≡ ip)
IsFreeRow-at cidr ip prov r h =
    let (i, p) = select_first_sound (is_free_at cidr ip) prov.store.ranges r h in
    (
      record { present = i; free = ground arith },
      ground (arith, text_eq_iff r.cidr cidr),
      ground (arith, text_eq_iff r.ipaddress ip),
    )

abbrev pub with_store {ℓ} : {A : Type ℓ} → Provider → Tables × A → Provider × A
with_store prov (t, a) = (record prov { store = t }, a)

module _ (e : Sqlite) where
  pub get_next_ip_address-guard :
      (cidr : Text) (prov : Provider)
      → (Manager.get_next_ip_address e cidr prov ≡ (prov, []))
        ⊎ (Manager.get_next_ip_address e cidr prov
            ≡ with_store prov (Dbstore.allocate_ip e cidr prov.store))
  unfolding Manager.get_next_ip_address Ipam.get_next_addr
  get_next_ip_address-guard cidr prov = elim (Option-cases (parse_cidr cidr)) [
    | inl bad ↦ inl (ground arith)
    | inr (parsed, e1) ↦ elim (Bool-cases (has_cidr prov cidr)) [
      | inl known ↦ inr (ground arith)
      | inr unknown ↦ inl (ground arith)
    ]
  ]

  pub allocate_ip_address-guard :
      (cidr ip : Text) (prov : Provider)
      → (Manager.allocate_ip_address e cidr ip prov ≡ (prov, false))
        ⊎ (Manager.allocate_ip_address e cidr ip prov
            ≡ with_store prov (Dbstore.mark_ip_as_allocated e cidr ip prov.store))
  unfolding Manager.allocate_ip_address Ipam.allocate_ip_address
  allocate_ip_address-guard cidr ip prov = elim (Bool-cases (has_cidr prov cidr)) [
    | inr unknown ↦ inl (ground arith)
    | inl known ↦ elim (Option-cases (parse_cidr cidr)) [
      | inl bad ↦ inl (ground arith)
      | inr ((block, net), e1) ↦ elim (Option-cases (parse_ip ip)) [
        | inl bad ↦ inl (ground arith)
        | inr (addr, e2) ↦ elim (Bool-cases (net_contains net addr)) [
          | inl inside ↦ inr (ground arith)
          | inr outside ↦ inl (ground arith)
        ]
      ]
    ]
  ]

module _ (e : Sqlite) (lawful : IsSqlite e) where
  -- GetIPAddress changes nothing.
  pub manager_get_ip_address_lem :
      (host : Text) (prov : Provider)
      → host_literal host ≡ true
      → Manager.get_ip_address e host prov
        ≡ (prov, or_empty (least_address host prov.store.records))
  unfolding Manager.get_ip_address Ipam.get_ip_address
  manager_get_ip_address_lem host prov q =
      ap (with_store prov) (get_ip_address_lem e lawful host prov.store q)

module _ (e : Sqlite) (lawful : IsSqlite e) (sure : IsReliable e) where
  -- GetNextIPAddress hands out nothing, or marks a free row of the CIDR and hands out its address.
  pub get_next_ip_address-cases :
      (cidr : Text) (prov : Provider)
      → range_literal cidr ≡ true
      → (Manager.get_next_ip_address e cidr prov ≡ (prov, []))
        ⊎ ((r : RangeRow) × IsFreeRow prov r
            × (r.cidr ≡ cidr)
            × (Manager.get_next_ip_address e cidr prov ≡ (marked r prov, r.ipaddress)))
  get_next_ip_address-cases cidr prov q = elim (get_next_ip_address-guard e cidr prov) [
    | inl refused ↦ inl refused
    | inr asked ↦
        let result =
          asked ∙ ap (with_store prov) (allocate_ip_lem e lawful sure cidr prov.store q) in
        elim (Option-cases (select_first (is_free cidr) prov.store.ranges)) [
          | inl missing ↦ inl (
              result ∙ ap (λ (o : Option RangeRow). with_store prov (reserve o prov.store)) missing)
          | inr (r, found) ↦
              let (row, same) = IsFreeRow-free cidr prov r found in
              inr (
                r,
                row,
                same,
                result ∙ ap (λ (o : Option RangeRow). with_store prov (reserve o prov.store)) found,
              )
        ]
  ]

  -- AllocateIPAddress refuses, or marks a free row of the CIDR with that address.
  pub allocate_ip_address-cases :
      (cidr ip : Text) (prov : Provider)
      → range_literal cidr ≡ true
      → range_literal ip ≡ true
      → (Manager.allocate_ip_address e cidr ip prov ≡ (prov, false))
        ⊎ ((r : RangeRow) × IsFreeRow prov r
            × (r.cidr ≡ cidr)
            × (r.ipaddress ≡ ip)
            × (Manager.allocate_ip_address e cidr ip prov ≡ (marked r prov, true)))
  allocate_ip_address-cases cidr ip prov qc qi = elim (allocate_ip_address-guard e cidr ip prov) [
    | inl refused ↦ inl refused
    | inr asked ↦
        let result =
          asked
          ∙ ap (with_store prov)
              (mark_ip_as_allocated_lem e lawful sure cidr ip prov.store qc qi) in
        elim (Option-cases (select_first (is_free_at cidr ip) prov.store.ranges)) [
          | inl missing ↦
              inl (
                result ∙ ap (λ (o : Option RangeRow). with_store prov (claim o prov.store)) missing)
          | inr (r, found) ↦
              let (row, same, at) = IsFreeRow-at cidr ip prov r found in
              inr (
                r,
                row,
                same,
                at,
                result ∙ ap (λ (o : Option RangeRow). with_store prov (claim o prov.store)) found,
              )
        ]
  ]

module _ (e : Sqlite) (lawful : IsSqlite e) (sure : NeverLoses e) where
  pub manager_create_a_record_lem :
      (host ip : Text) (prov : Provider)
      → (Manager.create_a_record e host ip prov).0 ≡ (
          if Manager.is_ipv4_addr ip
          then record prov { store = insert_record ip host prov.store }
          else prov)
  unfolding Manager.create_a_record Ipam.create_a_record
  manager_create_a_record_lem host ip prov =
      ground (arith, create_a_record_lem e lawful sure host ip prov.store)

module _ (e : Sqlite) (lawful : IsSqlite e) (sure : NeverFails e) where
  -- A release with the deletion of the record, as the controller makes them.
  pub manager_give_back_lem :
      (host ip : Text) (prov : Provider)
      → Manager.delete_a_record e host ip (Manager.release_ip_address e ip prov) ≡ (
          if Manager.is_ipv4_addr ip
          then record prov { store = give_back ip host prov.store }
          else prov)
  unfolding Manager.delete_a_record Manager.release_ip_address Ipam.delete_a_record
      Ipam.release_addr
  manager_give_back_lem host ip prov = ground (
    arith,
    release_ip_lem e lawful (NeverFails-NeverLoses sure) ip prov.store,
    delete_a_record_lem e lawful (NeverFails-IsReliable sure) host ip
        (record prov.store { ranges = set_status_ip available ip prov.store.ranges }),
  )
