-- ===== src/Store/Dbstore.antt =====
-- The methods of DBStore in pkg/provider/sqlite/store.go, over any SQL engine. A store is its
-- tables; log lines are left out. The methods that serve requests, from `allocate_row` on, are those
-- of an engine that prepares each statement, and Store/Prepare has them with the panic of the others.
use f5_ipam_controller_base.Base.{
  ℕ, Bool, false, ◌&&◌, Option, none, some, List, [], ◌∷◌, if◌then◌else◌,
}
use f5_ipam_controller_base.Base.Outcome.{Outcome, returns, panics, and_then}
use f5_ipam_controller_base.Base.Text.{Text}
use f5_ipam_controller_base.Store.Tables.{Tables, empty_tables, allocated, available}
use f5_ipam_controller_base.Store.Engine.{
  create_ranges_sql, create_records_sql, Sqlite, Value, int, string, insert_ip_sql, free_sql,
  free_at_sql, set_by_id_sql, set_by_ip_sql, address_sql, insert_record_sql, delete_record_sql,
  display_sql,
}

-- Row.Scan into a string and an int.
abbrev pub scan_string_int : Option (List Value) → Option (Text × ℕ)
scan_string_int (some (string a ∷ int n ∷ [])) = some (a, n)
scan_string_int _ = none

-- Row.Scan into an int.
abbrev pub scan_int : Option (List Value) → Option ℕ
scan_int (some (int n ∷ [])) = some n
scan_int _ = none

-- Row.Scan into a string.
abbrev pub scan_string : Option (List Value) → Option Text
scan_string (some (string a ∷ [])) = some a
scan_string _ = none

module _ (e : Sqlite) where
  -- `CreateTables`. Where Prepare fails, its error is dropped and the Exec of the nil statement panics.
  unfoldable pub create_tables : Tables → Outcome (Tables × Bool)
  create_tables t =
      if e.prepare create_ranges_sql t
      then (let (t1, made) = e.exec create_ranges_sql [] t in
          if made
          then (if e.prepare create_records_sql t1
              then returns (e.exec create_records_sql [] t1)
              else panics)
          else returns (t1, false))
      else panics

  abbrev store_of : Tables × Bool → Outcome (Option Tables)
  store_of (t, made) = if made then returns (some t) else returns none

  -- `NewStore`; `none` is the nil store.
  unfoldable pub new_store : Outcome (Option Tables)
  unfolding create_tables
  new_store =
      if e.open_ok && e.ping_ok
      then and_then (create_tables empty_tables) store_of
      else returns none

  -- `InsertIP`. A failing INSERT is logged and the loop goes on; one that is not prepared panics.
  unfoldable pub insert_ip : List Text → Text → Tables → Outcome Tables
  insert_ip [] cidr t = returns t
  insert_ip (j ∷ ips) cidr t =
      let rest =
        insert_ip ips cidr
          (e.exec insert_ip_sql (string j ∷ int available ∷ string cidr ∷ []) t).0 in
      if e.prepare insert_ip_sql t then rest else panics

  -- `DisplayIPRecords`, which logs the rows. An error of the query is logged, and the Rows, which are
  -- nil then, are used all the same: `none` is the panic.
  unfoldable pub display_ip_records : Tables → Option Tables
  display_ip_records t =
      let (t1, rows) = e.query display_sql t in elim rows [ none ↦ none | some found ↦ some t1 ]

  -- The row that the query found is marked; the address is returned also where the UPDATE fails.
  unfoldable pub allocate_row : Option (Text × ℕ) → Tables → Tables × Text
  allocate_row none t = (t, [])
  allocate_row (some (ipaddress, id)) t =
      ((e.exec (set_by_id_sql allocated) (int id ∷ []) t).0, ipaddress)

  unfoldable pub allocate_ip : Text → Tables → Tables × Text
  unfolding allocate_row
  allocate_ip cidr t =
      let (t1, row) = e.query_row (free_sql available cidr) t in
      allocate_row (scan_string_int row) t1

  unfoldable pub mark_row : Option ℕ → Tables → Tables × Bool
  mark_row none t = (t, false)
  mark_row (some id) t = e.exec (set_by_id_sql allocated) (int id ∷ []) t

  unfoldable pub mark_ip_as_allocated : Text → Text → Tables → Tables × Bool
  unfolding mark_row
  mark_ip_as_allocated cidr ip t =
      let (t1, row) = e.query_row (free_at_sql available cidr ip) t in mark_row (scan_int row) t1

  abbrev address_or_empty : Option Text → Text
  address_or_empty none = []
  address_or_empty (some a) = a

  unfoldable pub get_ip_address : Text → Tables → Tables × Text
  get_ip_address host t =
      let (t1, row) = e.query_row (address_sql host) t in (t1, address_or_empty (scan_string row))

  unfoldable pub release_ip : Text → Tables → Tables
  release_ip ip t = (e.exec (set_by_ip_sql available) (string ip ∷ []) t).0

  unfoldable pub create_a_record : Text → Text → Tables → Tables × Bool
  create_a_record host ip t = e.exec insert_record_sql (string ip ∷ string host ∷ []) t

  unfoldable pub delete_a_record : Text → Text → Tables → Tables × Bool
  delete_a_record host ip t = e.exec delete_record_sql (string ip ∷ string host ∷ []) t
