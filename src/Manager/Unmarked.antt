-- ===== src/Manager/Unmarked.antt =====
-- What GetNextIPAddress and AllocateIPAddress can do where the UPDATE that marks a row may fail.
use f5_ipam_controller_base.Base.{
  ◌≡◌, ap, ◌∙◌, ◌⊎◌, inl, inr, Bool, true, false, some, [], Option-cases,
}
use f5_ipam_controller_base.Base.Text.{Text}
use f5_ipam_controller_base.Store.Tables.{
  Tables, RangeRow, select_first, is_free, is_free_at, set_status_id, allocated,
}
use f5_ipam_controller_base.Store.Engine.{Sqlite, IsSqlite, range_literal, free_columns}
use f5_ipam_controller_base.Store.Dbstore
use f5_ipam_controller_base.Store.Dbstore.{scan_string_int, scan_int}
use f5_ipam_controller_base.Provider.Ranges.{Provider}
use f5_ipam_controller_base.Manager
use f5_ipam_controller_base.Manager.Cases.{
  IsFreeRow, IsFreeRow-free, IsFreeRow-at, marked, with_store, get_next_ip_address-guard,
  allocate_ip_address-guard,
}

module _ (e : Sqlite) (lawful : IsSqlite e) where
  allocate_row-cases :
      (r : RangeRow) (t : Tables)
      → (Dbstore.allocate_row e (scan_string_int (free_columns (some r))) t
          ≡ (record t { ranges = set_status_id allocated r.id t.ranges }, r.ipaddress))
        ⊎ (Dbstore.allocate_row e (scan_string_int (free_columns (some r))) t ≡ (t, r.ipaddress))
  unfolding Dbstore.allocate_row
  allocate_row-cases r t = elim (lawful.sets_by_id allocated r.id t) [
    | inl done ↦ inl (ap (λ (x : Tables × Bool). (x.0, r.ipaddress)) done)
    | inr failed ↦ inr (ap (λ (x : Tables × Bool). (x.0, r.ipaddress)) failed)
  ]

  -- GetNextIPAddress hands out nothing, or the address of a free row, which is marked or, where the
  -- UPDATE fails, is not.
  pub get_next_ip_address-outcomes :
      (cidr : Text) (prov : Provider)
      → range_literal cidr ≡ true
      → (Manager.get_next_ip_address e cidr prov ≡ (prov, []))
        ⊎ ((r : RangeRow) × IsFreeRow prov r
            × ((Manager.get_next_ip_address e cidr prov ≡ (marked r prov, r.ipaddress))
                ⊎ (Manager.get_next_ip_address e cidr prov ≡ (prov, r.ipaddress))))
  unfolding Dbstore.allocate_ip Dbstore.allocate_row
  get_next_ip_address-outcomes cidr prov q = elim (get_next_ip_address-guard e cidr prov) [
    | inl refused ↦ inl refused
    | inr asked ↦ elim (Option-cases (select_first (is_free cidr) prov.store.ranges)) [
      | inl missing ↦ inl (asked ∙ rw (lawful.finds_free cidr prov.store q, missing))
      | inr (r, found) ↦ inr (
        r,
        (IsFreeRow-free cidr prov r found).0,
        elim (allocate_row-cases r prov.store) [
          | inl done ↦
              inl (
                asked ∙ rw (lawful.finds_free cidr prov.store q, found) (ap (with_store prov) done))
          | inr failed ↦ inr (
              asked ∙ rw (lawful.finds_free cidr prov.store q, found) (ap (with_store prov) failed))
        ],
      )
    ]
  ]

  -- AllocateIPAddress refuses and changes nothing, or marks a free row with that address.
  pub allocate_ip_address-outcomes :
      (cidr ip : Text) (prov : Provider)
      → range_literal cidr ≡ true
      → range_literal ip ≡ true
      → (Manager.allocate_ip_address e cidr ip prov ≡ (prov, false))
        ⊎ ((r : RangeRow) × IsFreeRow prov r
            × (r.ipaddress ≡ ip)
            × (Manager.allocate_ip_address e cidr ip prov ≡ (marked r prov, true)))
  unfolding Dbstore.mark_ip_as_allocated Dbstore.mark_row
  allocate_ip_address-outcomes cidr ip prov q q' = elim (allocate_ip_address-guard e cidr ip prov) [
    | inl refused ↦ inl refused
    | inr asked ↦ elim (Option-cases (select_first (is_free_at cidr ip) prov.store.ranges)) [
      | inl missing ↦ inl (asked ∙ rw (lawful.finds_free_at cidr ip prov.store q q', missing))
      | inr (r, found) ↦
          let (row, same, at) = IsFreeRow-at cidr ip prov r found in
          elim (lawful.sets_by_id allocated r.id prov.store) [
            | inl done ↦ inr (
              r,
              row,
              at,
              asked
                  ∙ rw (lawful.finds_free_at cidr ip prov.store q q', found)
                      (ap (with_store prov) done),
            )
            | inr failed ↦ inl (
                asked
                ∙ rw (lawful.finds_free_at cidr ip prov.store q q', found)
                    (ap (with_store prov) failed))
          ]
    ]
  ]
