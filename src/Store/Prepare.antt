-- ===== src/Store/Prepare.antt =====
-- The methods of DBStore in pkg/provider/sqlite/store.go that serve requests, with the panic of a
-- statement that is not prepared: the error of Prepare is dropped, and Exec dereferences the nil
-- statement. A panic ends the process, so that a run of the controller is one in which each Prepare
-- succeeds, where the methods are those of Store/Dbstore.
use f5_ipam_controller_base.Base.{
  ℕ, ◌≡◌, refl, ap, Bool, false, Option, none, some, List, [], ◌∷◌, if◌then◌else◌,
}
use f5_ipam_controller_base.Base.Outcome.{Outcome, returns, panics, and_then}
use f5_ipam_controller_base.Base.Text.{Text}
use f5_ipam_controller_base.Store.Tables.{Tables, allocated, available}
use f5_ipam_controller_base.Store.Engine.{
  Sqlite, Sql, Prepares, Value, int, string, free_sql, free_at_sql, set_by_id_sql, set_by_ip_sql,
  insert_record_sql, delete_record_sql,
}
use f5_ipam_controller_base.Store.Dbstore.{scan_string_int, scan_int}
use f5_ipam_controller_base.Store.Dbstore

module _ (e : Sqlite) where
  -- Prepare, and Exec of what it returns.
  unfoldable pub prepare_exec : Sql → List Value → Tables → Outcome (Tables × Bool)
  prepare_exec q args t = if e.prepare q t then returns (e.exec q args t) else panics

  unfoldable pub allocate_row : Option (Text × ℕ) → Tables → Outcome (Tables × Text)
  unfolding prepare_exec
  allocate_row none t = returns (t, [])
  allocate_row (some (ipaddress, id)) t =
      and_then (prepare_exec (set_by_id_sql allocated) (int id ∷ []) t)
        (λ done. returns (done.0, ipaddress))

  -- `AllocateIP`.
  unfoldable pub allocate_ip : Text → Tables → Outcome (Tables × Text)
  unfolding allocate_row
  allocate_ip cidr t =
      let (t1, row) = e.query_row (free_sql available cidr) t in
      allocate_row (scan_string_int row) t1

  unfoldable pub mark_row : Option ℕ → Tables → Outcome (Tables × Bool)
  unfolding prepare_exec
  mark_row none t = returns (t, false)
  mark_row (some id) t = prepare_exec (set_by_id_sql allocated) (int id ∷ []) t

  -- `MarkIPAsAllocated`.
  unfoldable pub mark_ip_as_allocated : Text → Text → Tables → Outcome (Tables × Bool)
  unfolding mark_row
  mark_ip_as_allocated cidr ip t =
      let (t1, row) = e.query_row (free_at_sql available cidr ip) t in mark_row (scan_int row) t1

  -- `ReleaseIP`.
  unfoldable pub release_ip : Text → Tables → Outcome Tables
  unfolding prepare_exec
  release_ip ip t =
      and_then (prepare_exec (set_by_ip_sql available) (string ip ∷ []) t) (λ done. returns done.0)

  -- `CreateARecord`.
  unfoldable pub create_a_record : Text → Text → Tables → Outcome (Tables × Bool)
  unfolding prepare_exec
  create_a_record host ip t = prepare_exec insert_record_sql (string ip ∷ string host ∷ []) t

  -- `DeleteARecord`.
  unfoldable pub delete_a_record : Text → Text → Tables → Outcome (Tables × Bool)
  unfolding prepare_exec
  delete_a_record host ip t = prepare_exec delete_record_sql (string ip ∷ string host ∷ []) t

  module _ (ready : Prepares e) where
    prepare_exec-ready :
        (q : Sql) (args : List Value) (t : Tables)
        → prepare_exec q args t ≡ returns (e.exec q args t)
    unfolding prepare_exec
    prepare_exec-ready q args t = rw (ready.prepared q t) refl

    allocate_row-ready :
        (row : Option (Text × ℕ)) (t : Tables)
        → allocate_row row t ≡ returns (Dbstore.allocate_row e row t)
    unfolding allocate_row Dbstore.allocate_row
    allocate_row-ready none t = refl
    allocate_row-ready (some (ipaddress, id)) t =
        ap (λ o. and_then o (λ done. returns (done.0, ipaddress))) (prepare_exec-ready _ _ t)

    mark_row-ready :
        (row : Option ℕ) (t : Tables) → mark_row row t ≡ returns (Dbstore.mark_row e row t)
    unfolding mark_row Dbstore.mark_row
    mark_row-ready none t = refl
    mark_row-ready (some id) t = prepare_exec-ready _ _ t

    -- Where every statement is prepared, none of the methods panics, and they are those of Store/Dbstore.
    pub methods-Prepares :
        (host cidr ip : Text) (t : Tables)
        → (allocate_ip cidr t ≡ returns (Dbstore.allocate_ip e cidr t))
          × (mark_ip_as_allocated cidr ip t ≡ returns (Dbstore.mark_ip_as_allocated e cidr ip t))
          × (release_ip ip t ≡ returns (Dbstore.release_ip e ip t))
          × (create_a_record host ip t ≡ returns (Dbstore.create_a_record e host ip t))
          × (delete_a_record host ip t ≡ returns (Dbstore.delete_a_record e host ip t))
    unfolding allocate_ip mark_ip_as_allocated release_ip create_a_record delete_a_record
        Dbstore.allocate_ip Dbstore.mark_ip_as_allocated Dbstore.release_ip Dbstore.create_a_record
        Dbstore.delete_a_record
    methods-Prepares host cidr ip t = (
      allocate_row-ready _ _,
      mark_row-ready _ _,
      ap (λ o. and_then o (λ done. returns done.0)) (prepare_exec-ready _ _ t),
      prepare_exec-ready _ _ t,
      prepare_exec-ready _ _ t,
    )
