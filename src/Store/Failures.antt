-- ===== src/Store/Failures.antt =====
-- AllocateIP and MarkIPAsAllocated where the UPDATE that both of them send cannot be executed, or not
-- even be prepared.
use f5_ipam_controller_base.Base.{
  ℕ, ◌≡◌, refl, ap, ◌∙◌, inl, inr, Bool, true, false, Option, some, none, List, [], ◌∷◌, Bool-cases,
}
use f5_ipam_controller_base.Base.Text.{Text}
use f5_ipam_controller_base.Store.Tables.{
  Tables, RangeRow, select_first, is_free, is_free_at, allocated,
}
use f5_ipam_controller_base.Store.Engine.{
  Sqlite, IsSqlite, Does, Value, int, set_by_id_sql, free_columns, free_at_columns, range_literal,
}
use f5_ipam_controller_base.Store.Dbstore.{scan_string_int, scan_int}
use f5_ipam_controller_base.Base.Outcome.{Outcome, returns, panics}
use f5_ipam_controller_base.Store.Prepare.{
  prepare_exec, allocate_row, allocate_ip, mark_row, mark_ip_as_allocated,
}

Does-fails :
    (result : Tables × Bool) (before after : Tables)
    → Does result before after
    → result.1 ≡ false
    → result ≡ (before, false)
Does-fails result before after (inl done) h = cc (ap (λ (r : Tables × Bool). r.1) done)
Does-fails result before after (inr failed) h = failed

-- The address of a row, or the empty text that the source returns where there is none.
abbrev pub address_of : Option RangeRow → Text
address_of none = []
address_of (some r) = r.ipaddress

-- How a method ends that finds a row and whose UPDATE fails: with a panic where the UPDATE is not
-- prepared.
abbrev pub failed : {A : Type 0} → Bool → Option RangeRow → A → A → Outcome A
failed prepared none missing ends = returns missing
failed true (some r) missing ends = returns ends
failed false (some r) missing ends = panics

-- No UPDATE that marks a row as allocated can be executed.
pub record UpdateFails (e : Sqlite) (t : Tables) : Type 0 where
  pub fails : (id : ℕ) → (e.exec (set_by_id_sql allocated) (int id ∷ []) t).1 ≡ false

module _ (e : Sqlite) (lawful : IsSqlite e) where
  allocate_row-fails :
      (found : Option RangeRow) (t : Tables)
      → UpdateFails e t
      → allocate_row e (scan_string_int (free_columns found)) t
        ≡ failed (e.prepare (set_by_id_sql allocated) t) found (t, []) (t, address_of found)
  unfolding allocate_row prepare_exec
  allocate_row-fails none t f = refl
  allocate_row-fails (some r) t f = elim (Bool-cases (e.prepare (set_by_id_sql allocated) t)) [
    | inr unprepared ↦ rw (unprepared, failed) refl
    | inl prepared ↦
        rw (prepared, failed)
          (ap (λ (x : Tables × Bool). returns (x.0, r.ipaddress))
            (Does-fails _ _ _ (lawful.sets_by_id allocated r.id t) (f.fails r.id)))
  ]

  mark_row-fails :
      (found : Option RangeRow) (t : Tables)
      → UpdateFails e t
      → mark_row e (scan_int (free_at_columns found)) t
        ≡ failed (e.prepare (set_by_id_sql allocated) t) found (t, false) (t, false)
  unfolding mark_row prepare_exec
  mark_row-fails none t f = refl
  mark_row-fails (some r) t f = elim (Bool-cases (e.prepare (set_by_id_sql allocated) t)) [
    | inr unprepared ↦ rw (unprepared, failed) refl
    | inl prepared ↦
        rw (prepared, failed)
          (ap returns (Does-fails _ _ _ (lawful.sets_by_id allocated r.id t) (f.fails r.id)))
  ]

  -- Where no UPDATE of a status by id can be executed on the tables as they are, for a CIDR and an
  -- address that can be quoted. If no row is found, AllocateIP returns the empty text and
  -- MarkIPAsAllocated false. If one is found, both panic where the UPDATE is not prepared; where it is
  -- prepared and its execution fails, AllocateIP returns the address of the row all the same, which
  -- is still free and found again, and MarkIPAsAllocated returns false. Unless they panic, both leave
  -- the tables as they were.
  pub allocate_ip-UpdateFails :
      (cidr ip : Text) (t : Tables)
      → UpdateFails e t
      → range_literal cidr ≡ true
      → range_literal ip ≡ true
      → (allocate_ip e cidr t
          ≡ failed
              (e.prepare (set_by_id_sql allocated) t)
              (select_first (is_free cidr) t.ranges)
              (t, [])
              (t, address_of (select_first (is_free cidr) t.ranges)))
        × (mark_ip_as_allocated e cidr ip t
            ≡ failed
                (e.prepare (set_by_id_sql allocated) t)
                (select_first (is_free_at cidr ip) t.ranges)
                (t, false)
                (t, false))
  unfolding allocate_ip mark_ip_as_allocated
  allocate_ip-UpdateFails cidr ip t f qc qi = (
    ap (λ (x : Tables × Option (List Value)). allocate_row e (scan_string_int x.1) x.0)
          (lawful.finds_free cidr t qc)
        ∙ allocate_row-fails (select_first (is_free cidr) t.ranges) t f,
    ap (λ (x : Tables × Option (List Value)). mark_row e (scan_int x.1) x.0)
          (lawful.finds_free_at cidr ip t qc qi)
        ∙ mark_row-fails (select_first (is_free_at cidr ip) t.ranges) t f,
  )
