-- ===== src/Manager/Faults.antt =====
-- What the manager's methods keep even over an engine whose statements may fail: each statement takes
-- its effect or none.
use f5_ipam_controller_base.Base.{ℕ, ◌≡◌, inl, inr, true, Bool, Option, some, none, Bool-cases}
use f5_ipam_controller_base.Base.Text.{Text}
use f5_ipam_controller_base.Store.Tables.{
  Tables, RangeRow, set_status_id, set_status_ip, delete_records, allocated, available,
  select_first, is_free, is_free_at,
}
use f5_ipam_controller_base.Store.Engine.{
  Sqlite, IsSqlite, Does, insert_record, free_columns, free_at_columns, range_literal, host_literal,
}
use f5_ipam_controller_base.Store.Dbstore
use f5_ipam_controller_base.Provider.Ranges.{Provider}
use f5_ipam_controller_base.Provider.Ipam
use f5_ipam_controller_base.Manager
use f5_ipam_controller_base.Manager.{ipam_manager, is_ipv4_addr}
use f5_ipam_controller_base.Manager.Cases.{get_next_ip_address-guard, allocate_ip_address-guard}

-- A property of the tables that no statement of the loop can end.
pub record IsStable (p : Tables → Type 0) : Type 0 where
  pub sets_by_id :
      (s id : ℕ) (t : Tables) → p t → p (record t { ranges = set_status_id s id t.ranges })
  pub sets_by_ip :
      (s : ℕ) (ip : Text) (t : Tables) → p t → p (record t { ranges = set_status_ip s ip t.ranges })
  pub inserts_record : (ip host : Text) (t : Tables) → p t → p (insert_record ip host t)
  pub deletes_record :
      (ip host : Text) (t : Tables)
      → p t
      → p (record t { records = delete_records ip host t.records })

module _ (p : Tables → Type 0) where
  pub Does-keeps :
      {before after : Tables} (result : Tables × Bool)
      → Does result before after
      → p before
      → p after
      → p result.0
  Does-keeps result (inl done) x y = rw done y
  Does-keeps result (inr failed) x y = rw failed x

module _ (e : Sqlite) (lawful : IsSqlite e) (p : Tables → Type 0) (k : IsStable p) where
  allocate_row-keeps :
      (found : Option RangeRow) (t : Tables)
      → p t
      → p (Dbstore.allocate_row e (Dbstore.scan_string_int (free_columns found)) t).0
  unfolding Dbstore.allocate_row
  allocate_row-keeps none t x = x
  allocate_row-keeps (some r) t x =
      Does-keeps p _ (lawful.sets_by_id allocated r.id t) x (k.sets_by_id allocated r.id t x)

  allocate_ip-keeps :
      (cidr : Text) (t : Tables)
      → range_literal cidr ≡ true
      → p t
      → p (Dbstore.allocate_ip e cidr t).0
  unfolding Dbstore.allocate_ip
  allocate_ip-keeps cidr t q x =
      rw (lawful.finds_free cidr t q)
        (allocate_row-keeps (select_first (is_free cidr) t.ranges) t x)

  mark_row-keeps :
      (found : Option RangeRow) (t : Tables)
      → p t
      → p (Dbstore.mark_row e (Dbstore.scan_int (free_at_columns found)) t).0
  unfolding Dbstore.mark_row
  mark_row-keeps none t x = x
  mark_row-keeps (some r) t x =
      Does-keeps p _ (lawful.sets_by_id allocated r.id t) x (k.sets_by_id allocated r.id t x)

  mark_ip_as_allocated-keeps :
      (cidr ip : Text) (t : Tables)
      → range_literal cidr ≡ true
      → range_literal ip ≡ true
      → p t
      → p (Dbstore.mark_ip_as_allocated e cidr ip t).0
  unfolding Dbstore.mark_ip_as_allocated
  mark_ip_as_allocated-keeps cidr ip t q q' x =
      rw (lawful.finds_free_at cidr ip t q q')
        (mark_row-keeps (select_first (is_free_at cidr ip) t.ranges) t x)

  pub get_ip_address-keeps :
      (host : Text) (prov : Provider)
      → host_literal host ≡ true
      → p prov.store
      → p (Manager.get_ip_address e host prov).0.store
  unfolding Manager.get_ip_address Ipam.get_ip_address Dbstore.get_ip_address
  get_ip_address-keeps host prov q x = rw (lawful.finds_address host prov.store q) x

  pub get_next_ip_address-keeps :
      (cidr : Text) (prov : Provider)
      → range_literal cidr ≡ true
      → p prov.store
      → p (Manager.get_next_ip_address e cidr prov).0.store
  get_next_ip_address-keeps cidr prov q x = elim (get_next_ip_address-guard e cidr prov) [
    | inl refused ↦ rw refused x
    | inr asked ↦ rw asked (allocate_ip-keeps cidr prov.store q x)
  ]

  pub allocate_ip_address-keeps :
      (cidr ip : Text) (prov : Provider)
      → range_literal cidr ≡ true
      → range_literal ip ≡ true
      → p prov.store
      → p (Manager.allocate_ip_address e cidr ip prov).0.store
  allocate_ip_address-keeps cidr ip prov q q' x = elim (allocate_ip_address-guard e cidr ip prov) [
    | inl refused ↦ rw refused x
    | inr asked ↦ rw asked (mark_ip_as_allocated-keeps cidr ip prov.store q q' x)
  ]

  pub create_a_record-keeps :
      (host ip : Text) (prov : Provider)
      → p prov.store
      → p (Manager.create_a_record e host ip prov).0.store
  unfolding Manager.create_a_record Ipam.create_a_record Dbstore.create_a_record
  create_a_record-keeps host ip prov x = elim (Bool-cases (is_ipv4_addr ip)) [
    | inl v4 ↦ rw v4 (
        Does-keeps p _ (lawful.inserts_record ip host prov.store) x
          (k.inserts_record ip host prov.store x))
    | inr other ↦ rw other x
  ]

  pub release_ip_address-keeps :
      (ip : Text) (prov : Provider) → p prov.store → p (Manager.release_ip_address e ip prov).store
  unfolding Manager.release_ip_address Ipam.release_addr Dbstore.release_ip
  release_ip_address-keeps ip prov x = elim (Bool-cases (is_ipv4_addr ip)) [
    | inl v4 ↦ rw v4 (
        Does-keeps p _ (lawful.sets_by_ip available ip prov.store) x
          (k.sets_by_ip available ip prov.store x))
    | inr other ↦ rw other x
  ]

  pub delete_a_record-keeps :
      (host ip : Text) (prov : Provider)
      → p prov.store
      → p (Manager.delete_a_record e host ip prov).store
  unfolding Manager.delete_a_record Ipam.delete_a_record Dbstore.delete_a_record
  delete_a_record-keeps host ip prov x = elim (Bool-cases (is_ipv4_addr ip)) [
    | inl v4 ↦ rw v4 (
        Does-keeps p _ (lawful.deletes_record ip host prov.store) x
          (k.deletes_record ip host prov.store x))
    | inr other ↦ rw other x
  ]
