-- ===== src/Store/Exact.antt =====
-- What each method of the store does, as an equation on the tables, over an engine that behaves as
-- documented and of which those statements do not fail that the method needs.
use f5_ipam_controller_base.Base.{
  ℕ, Bool, true, false, ◌≡◌, refl, ap, ◌∙◌, ◌⊎◌, inl, inr, Option, none, some, List, [], ◌∷◌,
}
use f5_ipam_controller_base.Base.Outcome.{returns}
use f5_ipam_controller_base.Base.Text.{Text}
use f5_ipam_controller_base.Store.Tables.{
  Tables, RangeRow, insert_range, select_first, is_free, is_free_at, set_status_id, set_status_ip,
  least_address, delete_records, allocated, available,
}
use f5_ipam_controller_base.Store.Engine.{
  Sqlite, IsSqlite, NeverFails, Prepares, insert_ip_sql, IsReliable, NeverLoses, Does, Value, int,
  set_by_id_sql, free_columns, free_at_columns, address_columns, insert_record, range_literal,
  host_literal,
}
use f5_ipam_controller_base.Store.Dbstore.{
  insert_ip, allocate_row, allocate_ip, mark_row, mark_ip_as_allocated, get_ip_address, release_ip,
  create_a_record, delete_a_record, scan_string_int, scan_int, scan_string,
}

-- The row is taken out of the pool and its address handed out.
abbrev pub reserve : Option RangeRow → Tables → Tables × Text
reserve none t = (t, [])
reserve (some r) t = (record t { ranges = set_status_id allocated r.id t.ranges }, r.ipaddress)

-- The row is taken out of the pool.
abbrev pub claim : Option RangeRow → Tables → Tables × Bool
claim none t = (t, false)
claim (some r) t = (record t { ranges = set_status_id allocated r.id t.ranges }, true)

abbrev pub or_empty : Option Text → Text
or_empty none = []
or_empty (some a) = a

abbrev pub insert_all : List Text → Text → Tables → Tables
insert_all [] cidr t = t
insert_all (ip ∷ ips) cidr t = insert_all ips cidr (insert_range ip available cidr t)

or_empty_lem :
    (found : Option Text) (t : Tables)
    → ◌≡◌ {A = Tables × Text}
        (t, or_empty (scan_string (address_columns found)))
        (t, or_empty found)
or_empty_lem none t = refl
or_empty_lem (some a) t = refl

Does-succeeds :
    (result : Tables × Bool) (before after : Tables)
    → Does result before after
    → result.1 ≡ true
    → result ≡ (after, true)
Does-succeeds result before after (inl done) h = done
Does-succeeds result before after (inr failed) h = cc (ap (λ (r : Tables × Bool). r.1) failed)

-- A release frees every row of the address, or changes nothing.
pub release_ip-cases :
    (e : Sqlite) (lawful : IsSqlite e) (ip : Text) (t : Tables)
    → (release_ip e ip t ≡ record t { ranges = set_status_ip available ip t.ranges })
      ⊎ (release_ip e ip t ≡ t)
unfolding release_ip
release_ip-cases e lawful ip t = elim (lawful.sets_by_ip available ip t) [
  | inl done ↦ inl (ap (λ (r : Tables × Bool). r.0) done)
  | inr failed ↦ inr (ap (λ (r : Tables × Bool). r.0) failed)
]

module _ (e : Sqlite) (lawful : IsSqlite e) where
  pub get_ip_address_lem :
      (host : Text) (t : Tables)
      → host_literal host ≡ true
      → get_ip_address e host t ≡ (t, or_empty (least_address host t.records))
  unfolding get_ip_address
  get_ip_address_lem host t q =
      ap (λ (x : Tables × Option (List Value)). (x.0, or_empty (scan_string x.1)))
        (lawful.finds_address host t q)
      ∙ or_empty_lem (least_address host t.records) t

module _ (e : Sqlite) (lawful : IsSqlite e) (sure : IsReliable e) where
  set_by_id_lem :
      (id : ℕ) (t : Tables)
      → e.exec (set_by_id_sql allocated) (int id ∷ []) t
        ≡ (record t { ranges = set_status_id allocated id t.ranges }, true)
  set_by_id_lem id t = Does-succeeds _ _ _ (lawful.sets_by_id allocated id t) (sure.marks id t)

  allocate_row_lem :
      (found : Option RangeRow) (t : Tables)
      → allocate_row e (scan_string_int (free_columns found)) t ≡ reserve found t
  unfolding allocate_row
  allocate_row_lem none t = refl
  allocate_row_lem (some r) t =
      ap (λ (x : Tables × Bool). (x.0, r.ipaddress)) (set_by_id_lem r.id t)

  mark_row_lem :
      (found : Option RangeRow) (t : Tables)
      → mark_row e (scan_int (free_at_columns found)) t ≡ claim found t
  unfolding mark_row
  mark_row_lem none t = refl
  mark_row_lem (some r) t = set_by_id_lem r.id t

  -- AllocateIP takes the free row of the CIDR with the least id, and nothing else.
  pub allocate_ip_lem :
      (cidr : Text) (t : Tables)
      → range_literal cidr ≡ true
      → allocate_ip e cidr t ≡ reserve (select_first (is_free cidr) t.ranges) t
  unfolding allocate_ip
  allocate_ip_lem cidr t quoted =
      ap (λ (x : Tables × Option (List Value)). allocate_row e (scan_string_int x.1) x.0)
        (lawful.finds_free cidr t quoted)
      ∙ allocate_row_lem (select_first (is_free cidr) t.ranges) t

  pub mark_ip_as_allocated_lem :
      (cidr ip : Text) (t : Tables)
      → range_literal cidr ≡ true
      → range_literal ip ≡ true
      → mark_ip_as_allocated e cidr ip t ≡ claim (select_first (is_free_at cidr ip) t.ranges) t
  unfolding mark_ip_as_allocated
  mark_ip_as_allocated_lem cidr ip t qc qi =
      ap (λ (x : Tables × Option (List Value)). mark_row e (scan_int x.1) x.0)
        (lawful.finds_free_at cidr ip t qc qi)
      ∙ mark_row_lem (select_first (is_free_at cidr ip) t.ranges) t

  pub delete_a_record_lem :
      (host ip : Text) (t : Tables)
      → delete_a_record e host ip t
        ≡ (record t { records = delete_records ip host t.records }, true)
  unfolding delete_a_record
  delete_a_record_lem host ip t =
      Does-succeeds _ _ _ (lawful.deletes_record ip host t) (sure.forgets ip host t)

module _ (e : Sqlite) (lawful : IsSqlite e) (sure : NeverLoses e) where
  pub release_ip_lem :
      (ip : Text) (t : Tables)
      → release_ip e ip t ≡ record t { ranges = set_status_ip available ip t.ranges }
  unfolding release_ip
  release_ip_lem ip t =
      ap (λ (r : Tables × Bool). r.0)
        (Does-succeeds _ _ _ (lawful.sets_by_ip available ip t) (sure.releases ip t))

  pub create_a_record_lem :
      (host ip : Text) (t : Tables) → create_a_record e host ip t ≡ (insert_record ip host t, true)
  unfolding create_a_record
  create_a_record_lem host ip t =
      Does-succeeds _ _ _ (lawful.inserts_record ip host t) (sure.records ip host t)

module _ (e : Sqlite) (lawful : IsSqlite e) (sure : NeverFails e) (ready : Prepares e) where
  pub insert_ip_lem :
      (ips : List Text) (cidr : Text) (t : Tables)
      → insert_ip e ips cidr t ≡ returns (insert_all ips cidr t)
  unfolding insert_ip
  insert_ip_lem [] cidr t = refl
  insert_ip_lem (ip ∷ ips) cidr t =
      rw
        (
          ready.prepared insert_ip_sql t,
          ap (λ (x : Tables × Bool). x.0)
              (Does-succeeds _ _ _ (lawful.inserts_range ip cidr available t)
                (sure.succeeds _ _ _)),
        )
        (insert_ip_lem ips cidr (insert_range ip available cidr t))
