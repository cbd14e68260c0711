-- ===== src/Store/Memory.antt =====
-- An engine that keeps the tables in memory: the assumptions on SQLite can be met.
use Prim.Native.String.{String}
use text.Mathlib.Text.{◌==◌ as str_eq}
use f5_ipam_controller_base.Base.{
  ◌≡◌, refl, inl, Bool, true, Option, none, some, map, List, [], ◌∷◌, if◌then◌else◌, arith,
}
use f5_ipam_controller_base.Store.Tables.{
  Tables, RangeRow, insert_range, select_first, is_free, is_free_at, set_status_id, set_status_ip,
  least_address, delete_records,
}
use f5_ipam_controller_base.Store.Engine.{
  Sql, sprintf, Value, int, string, Sqlite, IsSqlite, NeverFails, Prepares, insert_record,
  insert_ip_sql, free_sql, free_at_sql, set_by_id_sql, set_by_ip_sql, address_sql,
  insert_record_sql, delete_record_sql, free_columns, free_at_columns, address_columns,
}

abbrev pub format : Sql → String
format (sprintf f vals) = f

insert_range_args : List Value → Tables → Tables
insert_range_args (string ip ∷ int status ∷ string cidr ∷ []) t = insert_range ip status cidr t
insert_range_args _ t = t

by_id_args : List Value → List Value → Tables → Tables
by_id_args (int status ∷ []) (int id ∷ []) t = record t {
  ranges = set_status_id status id t.ranges;
}
by_id_args _ _ t = t

by_ip_args : List Value → List Value → Tables → Tables
by_ip_args (int status ∷ []) (string ip ∷ []) t = record t {
  ranges = set_status_ip status ip t.ranges;
}
by_ip_args _ _ t = t

insert_record_args : List Value → Tables → Tables
insert_record_args (string ip ∷ string host ∷ []) t = insert_record ip host t
insert_record_args _ t = t

delete_record_args : List Value → Tables → Tables
delete_record_args (string ip ∷ string host ∷ []) t = record t {
  records = delete_records ip host t.records;
}
delete_record_args _ t = t

unfoldable pub memory_exec : Sql → List Value → Tables → Tables × Bool
unfolding insert_range_args by_id_args by_ip_args insert_record_args delete_record_args
memory_exec (sprintf f vals) args t =
    if str_eq f (format insert_ip_sql)
    then (insert_range_args args t, true)
    else if str_eq f (format (set_by_id_sql 0))
    then (by_id_args vals args t, true)
    else if str_eq f (format (set_by_ip_sql 0))
    then (by_ip_args vals args t, true)
    else if str_eq f (format insert_record_sql)
    then (insert_record_args args t, true)
    else if str_eq f (format delete_record_sql)
    then (delete_record_args args t, true)
    else (t, true)

free_args : List Value → Tables → Option (List Value)
free_args (int status ∷ string cidr ∷ []) t = free_columns (select_first (is_free cidr) t.ranges)
free_args _ t = none

free_at_args : List Value → Tables → Option (List Value)
free_at_args (int status ∷ string cidr ∷ string ip ∷ []) t =
    free_at_columns (select_first (is_free_at cidr ip) t.ranges)
free_at_args _ t = none

address_args : List Value → Tables → Option (List Value)
address_args (string host ∷ []) t = address_columns (least_address host t.records)
address_args _ t = none

unfoldable pub memory_query : Sql → Tables → Tables × Option (List Value)
unfolding free_args free_at_args address_args
memory_query (sprintf f vals) t =
    if str_eq f (format (free_sql 0 []))
    then (t, free_args vals t)
    else if str_eq f (format (free_at_sql 0 [] []))
    then (t, free_at_args vals t)
    else if str_eq f (format (address_sql []))
    then (t, address_args vals t)
    else (t, none)

abbrev row_columns : RangeRow → List Value
row_columns r = int r.id ∷ string r.ipaddress ∷ int r.status ∷ string r.cidr ∷ []

abbrev pub memory_rows : Sql → Tables → Tables × Option (List (List Value))
memory_rows q t = (t, some (map row_columns t.ranges))

abbrev pub memory : Sqlite
memory = record {
  open_ok = true;
  ping_ok = true;
  prepare = λ q t. true;
  exec = memory_exec;
  query_row = memory_query;
  query = memory_rows;
}

pub memory-IsSqlite : IsSqlite memory
unfolding memory_exec memory_query
memory-IsSqlite = record {
  creates_ranges = inl refl;
  creates_records = inl refl;
  inserts_range = λ ip cidr status t. inl refl;
  sets_by_id = λ status id t. inl refl;
  sets_by_ip = λ status ip t. inl refl;
  inserts_record = λ ip host t. inl refl;
  deletes_record = λ ip host t. inl refl;
  finds_free = λ cidr t q. refl;
  finds_free_at = λ cidr ip t qc qi. refl;
  finds_address = λ host t q. refl;
  displays = λ t. refl;
}

memory_exec_succeeds : (q : Sql) (args : List Value) (t : Tables) → (memory_exec q args t).1 ≡ true
unfolding memory_exec
memory_exec_succeeds (sprintf f vals) args t = ground arith

pub memory-NeverFails : NeverFails memory
memory-NeverFails = record { succeeds = memory_exec_succeeds }

pub memory-Prepares : Prepares memory
memory-Prepares = record { prepared = λ q t. refl }
