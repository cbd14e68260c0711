-- ===== src/Examples/Failing.antt =====
-- Two engines of which some statements fail, and which are otherwise the one in memory: of one the
-- UPDATE by id, of the other the INSERT of a record and the UPDATE by address.
use package.text.Mathlib.Text.{◌==◌ as str_eq}
use f5_ipam_controller_base.Base.{◌≡◌, refl, inl, inr, Bool, true, false, List, [], if◌then◌else◌}
use f5_ipam_controller_base.Base.Text.{text}
use f5_ipam_controller_base.Store.Tables.{Tables, select_first, is_free, is_free_at}
use f5_ipam_controller_base.Store.Engine.{
  Sql, sprintf, Value, Sqlite, IsSqlite, set_by_id_sql, set_by_ip_sql, insert_record_sql,
  range_literal, NeverLoses, IsReliable,
}
use f5_ipam_controller_base.Store.Prepare.{allocate_ip, mark_ip_as_allocated}
use f5_ipam_controller_base.Store.Failures.{
  UpdateFails, failed, allocate_ip-UpdateFails, address_of,
}
use f5_ipam_controller_base.Store.Exclusive.{IsExclusive}
use f5_ipam_controller_base.Store.Accounted.{IsAccounted}
use f5_ipam_controller_base.Controller.Exclusive.{run-IsExclusive}
use f5_ipam_controller_base.Controller.Accounted.{run-IsAccounted}
use f5_ipam_controller_base.Store.Memory.{memory_exec, memory_query, memory_rows, format}
use f5_ipam_controller_base.Manager.{ipam_manager}
use f5_ipam_controller_base.Controller
use f5_ipam_controller_base.Examples.Serving.{
  pool, provider, requests, requests-IsQuoted, pool-AllIpv4, pool-IsAccounted, pool-IsExclusive,
}

unfoldable failing_exec : Sql → List Value → Tables → Tables × Bool
failing_exec (sprintf f vals) args t =
    if str_eq f (format (set_by_id_sql 0)) then (t, false) else memory_exec (sprintf f vals) args t

abbrev failing : Sqlite
failing = record {
  open_ok = true;
  ping_ok = true;
  prepare = λ q t. true;
  exec = failing_exec;
  query_row = memory_query;
  query = memory_rows;
}

failing-IsSqlite : IsSqlite failing
unfolding failing_exec memory_exec memory_query
failing-IsSqlite = record {
  creates_ranges = inl refl;
  creates_records = inl refl;
  inserts_range = λ ip cidr status t. inl refl;
  sets_by_id = λ status id t. inr refl;
  sets_by_ip = λ status ip t. inl refl;
  inserts_record = λ ip host t. inl refl;
  deletes_record = λ ip host t. inl refl;
  finds_free = λ cidr t q. refl;
  finds_free_at = λ cidr ip t qc qi. refl;
  finds_address = λ host t q. refl;
  displays = λ t. refl;
}

pool-UpdateFails : UpdateFails failing pool
unfolding failing_exec
pool-UpdateFails = record { fails = λ id. refl }

block-IsQuoted : range_literal (text "10.0.0.0/24") ≡ true
unfolding range_literal
block-IsQuoted = refl

address-IsQuoted : range_literal (text "10.0.0.1") ≡ true
unfolding range_literal
address-IsQuoted = refl

allocate_ip-UpdateFails_example :
    (allocate_ip failing (text "10.0.0.0/24") pool
      ≡ failed true
          (select_first (is_free (text "10.0.0.0/24")) pool.ranges)
          (pool, [])
          (pool, address_of (select_first (is_free (text "10.0.0.0/24")) pool.ranges)))
    × (mark_ip_as_allocated failing (text "10.0.0.0/24") (text "10.0.0.1") pool
        ≡ failed true
            (select_first (is_free_at (text "10.0.0.0/24") (text "10.0.0.1")) pool.ranges)
            (pool, false)
            (pool, false))
allocate_ip-UpdateFails_example =
    allocate_ip-UpdateFails failing failing-IsSqlite (text "10.0.0.0/24") (text "10.0.0.1") pool
      pool-UpdateFails block-IsQuoted address-IsQuoted

failing-NeverLoses : NeverLoses failing
unfolding failing_exec memory_exec
failing-NeverLoses = record { records = λ ip host t. refl; releases = λ ip t. refl }

run-IsAccounted_example :
    IsAccounted (Controller.run (ipam_manager failing) requests provider).0.store
run-IsAccounted_example =
    run-IsAccounted failing failing-IsSqlite failing-NeverLoses requests provider requests-IsQuoted
      pool-AllIpv4 pool-IsAccounted

unfoldable losing_exec : Sql → List Value → Tables → Tables × Bool
losing_exec (sprintf f vals) args t =
    if str_eq f (format insert_record_sql)
    then (t, false)
    else if str_eq f (format (set_by_ip_sql 0))
    then (t, false)
    else memory_exec (sprintf f vals) args t

abbrev losing : Sqlite
losing = record {
  open_ok = true;
  ping_ok = true;
  prepare = λ q t. true;
  exec = losing_exec;
  query_row = memory_query;
  query = memory_rows;
}

losing-IsSqlite : IsSqlite losing
unfolding losing_exec memory_exec memory_query
losing-IsSqlite = record {
  creates_ranges = inl refl;
  creates_records = inl refl;
  inserts_range = λ ip cidr status t. inl refl;
  sets_by_id = λ status id t. inl refl;
  sets_by_ip = λ status ip t. inr refl;
  inserts_record = λ ip host t. inr refl;
  deletes_record = λ ip host t. inl refl;
  finds_free = λ cidr t q. refl;
  finds_free_at = λ cidr ip t qc qi. refl;
  finds_address = λ host t q. refl;
  displays = λ t. refl;
}

losing-IsReliable : IsReliable losing
unfolding losing_exec memory_exec
losing-IsReliable = record { marks = λ id t. refl; forgets = λ ip host t. refl }

run-IsExclusive_example :
    IsExclusive (Controller.run (ipam_manager losing) requests provider).0.store
run-IsExclusive_example =
    run-IsExclusive losing losing-IsSqlite losing-IsReliable requests provider requests-IsQuoted
      pool-IsExclusive
