-- ===== src/Store/Engine.antt =====
-- The interface of the SQL engine that pkg/provider/sqlite/store.go calls through database/sql, and
-- the documented behaviour of the statements that it sends.
use Prim.Native.String.{String}
use f5_ipam_controller_base.Base.{
  ℕ, Bool, true, false, Option, none, some, List, [], ◌∷◌, ◌++◌, ◌≡◌, ◌⊎◌, any, not, ◌&&◌,
}
use f5_ipam_controller_base.Base.Text.{Text, text, text_eq, to_lower, contains}
use f5_ipam_controller_base.Store.Tables.{
  Tables, RangeRow, insert_range, select_first, is_free, is_free_at, set_status_id, set_status_ip,
  least_address, delete_records, available, allocated, empty_tables,
}

pub data Value : Type 0 where
  int : ℕ → Value
  string : Text → Value

-- The text fmt.Sprintf makes of a format and its arguments, kept as the two.
pub data Sql : Type 0 where
  sprintf : String → List Value → Sql

-- `prepare` tells whether Prepare returns a statement, and not nil with an error; `exec` is Exec of the
-- statement, and tells whether there was no error; `query_row` is QueryRow, with the
-- columns of the row, or `none` for sql.ErrNoRows or any other error; `query` is Query, with the rows,
-- or `none` for an error. All hand the database on.
pub record Sqlite : Type 0 where
  pub open_ok : Bool
  pub ping_ok : Bool
  pub prepare : Sql → Tables → Bool
  pub exec : Sql → List Value → Tables → Tables × Bool
  pub query_row : Sql → Tables → Tables × Option (List Value)
  pub query : Sql → Tables → Tables × Option (List (List Value))

abbrev pub create_ranges_sql : Sql
create_ranges_sql =
    sprintf
      "CREATE TABLE ipaddress_range (\n\t\t\"id\" integer NOT NULL PRIMARY KEY AUTOINCREMENT,\n\t\t\"ipaddress\" TEXT,\n\t\t\"status\" INT,\n\t\t\"cidr\" TEXT\t\n\t  );"
      []

abbrev pub create_records_sql : Sql
create_records_sql =
    sprintf
      "CREATE TABLE a_records (\n\t\t\"ipaddress\" TEXT PRIMARY_KEY,\n\t\t\"hostname\" TEXT\t\n\t  );"
      []

abbrev pub insert_ip_sql : Sql
insert_ip_sql = sprintf "INSERT INTO ipaddress_range(ipaddress, status, cidr) VALUES (?, ?, ?)" []

abbrev pub free_sql : ℕ → Text → Sql
free_sql status cidr =
    sprintf
      "SELECT ipaddress,id FROM ipaddress_range where status=%d AND cidr=\"%s\" order by id ASC limit 1"
      (int status ∷ string cidr ∷ [])

abbrev pub free_at_sql : ℕ → Text → Text → Sql
free_at_sql status cidr ip =
    sprintf
      "SELECT id FROM ipaddress_range where status=%d AND cidr=\"%s\" AND ipaddress=\"%s\" order by id ASC limit 1"
      (int status ∷ string cidr ∷ string ip ∷ [])

abbrev pub set_by_id_sql : ℕ → Sql
set_by_id_sql status =
    sprintf "UPDATE ipaddress_range set status = %d where id = ?" (int status ∷ [])

abbrev pub set_by_ip_sql : ℕ → Sql
set_by_ip_sql status =
    sprintf "UPDATE ipaddress_range set status = %d where ipaddress = ?" (int status ∷ [])

abbrev pub address_sql : Text → Sql
address_sql host =
    sprintf "SELECT ipaddress FROM a_records where hostname=\"%s\" order by ipaddress ASC limit 1"
      (string host ∷ [])

abbrev pub insert_record_sql : Sql
insert_record_sql = sprintf "INSERT INTO a_records(ipaddress, hostname) VALUES (?, ?)" []

abbrev pub delete_record_sql : Sql
delete_record_sql = sprintf "DELETE FROM a_records WHERE ipaddress=? AND hostname=?" []

abbrev pub display_sql : Sql
display_sql = sprintf "SELECT * FROM ipaddress_range ORDER BY id" []

abbrev pub insert_record : Text → Text → Tables → Tables
insert_record ip host t = record t {
  records = t.records ++ record { ipaddress = ip; hostname = host } ∷ [];
}

-- SQLite reads a text in double quotes as an identifier where a column has that name, and otherwise
-- as a string literal, which a quote inside would end and a NUL byte cut short.
unfoldable pub is_literal : List Text → Text → Bool
unfolding text_eq
is_literal columns s =
    not (contains s b'"') && not (contains s 0) && not (any (text_eq (to_lower s)) columns)

abbrev rowids : List Text
rowids = text "rowid" ∷ text "oid" ∷ text "_rowid_" ∷ []

-- A value that a statement on `ipaddress_range` can quote.
unfoldable pub range_literal : Text → Bool
unfolding is_literal
range_literal = is_literal (text "id" ∷ text "ipaddress" ∷ text "status" ∷ text "cidr" ∷ rowids)

-- A value that a statement on `a_records` can quote.
unfoldable pub host_literal : Text → Bool
unfolding is_literal
host_literal = is_literal (text "ipaddress" ∷ text "hostname" ∷ rowids)

abbrev pub free_columns : Option RangeRow → Option (List Value)
free_columns none = none
free_columns (some r) = some (string r.ipaddress ∷ int r.id ∷ [])

abbrev pub free_at_columns : Option RangeRow → Option (List Value)
free_at_columns none = none
free_at_columns (some r) = some (int r.id ∷ [])

abbrev pub address_columns : Option Text → Option (List Value)
address_columns none = none
address_columns (some a) = some (string a ∷ [])

-- A statement takes its effect, or reports an error and has none.
abbrev pub Does : Tables × Bool → Tables → Tables → Type 0
Does result before after = (result ≡ (after, true)) ⊎ (result ≡ (before, false))

-- What SQLite documents of the statements that the store sends.
pub record IsSqlite (e : Sqlite) : Type 0 where
  -- A database that is new has two empty tables behind the two CREATE statements.
  pub creates_ranges : Does (e.exec create_ranges_sql [] empty_tables) empty_tables empty_tables
  pub creates_records : Does (e.exec create_records_sql [] empty_tables) empty_tables empty_tables
  pub inserts_range :
      (ip cidr : Text) (status : ℕ) (t : Tables)
      → Does
          (e.exec insert_ip_sql (string ip ∷ int status ∷ string cidr ∷ []) t)
          t
          (insert_range ip status cidr t)
  pub sets_by_id :
      (status id : ℕ) (t : Tables)
      → Does
          (e.exec (set_by_id_sql status) (int id ∷ []) t)
          t
          (record t { ranges = set_status_id status id t.ranges })
  pub sets_by_ip :
      (status : ℕ) (ip : Text) (t : Tables)
      → Does
          (e.exec (set_by_ip_sql status) (string ip ∷ []) t)
          t
          (record t { ranges = set_status_ip status ip t.ranges })
  pub inserts_record :
      (ip host : Text) (t : Tables)
      → Does (e.exec insert_record_sql (string ip ∷ string host ∷ []) t) t (insert_record ip host t)
  pub deletes_record :
      (ip host : Text) (t : Tables)
      → Does
          (e.exec delete_record_sql (string ip ∷ string host ∷ []) t)
          t
          (record t { records = delete_records ip host t.records })
  pub finds_free :
      (cidr : Text) (t : Tables)
      → range_literal cidr ≡ true
      → e.query_row (free_sql available cidr) t
        ≡ (t, free_columns (select_first (is_free cidr) t.ranges))
  pub finds_free_at :
      (cidr ip : Text) (t : Tables)
      → range_literal cidr ≡ true
      → range_literal ip ≡ true
      → e.query_row (free_at_sql available cidr ip) t
        ≡ (t, free_at_columns (select_first (is_free_at cidr ip) t.ranges))
  pub finds_address :
      (host : Text) (t : Tables)
      → host_literal host ≡ true
      → e.query_row (address_sql host) t ≡ (t, address_columns (least_address host t.records))
  pub displays : (t : Tables) → (e.query display_sql t).0 ≡ t

-- Every statement is prepared.
pub record Prepares (e : Sqlite) : Type 0 where
  pub prepared : (q : Sql) (t : Tables) → e.prepare q t ≡ true

-- No statement that changes the tables fails.
pub record NeverFails (e : Sqlite) : Type 0 where
  pub succeeds : (q : Sql) (args : List Value) (t : Tables) → (e.exec q args t).1 ≡ true

-- The statements that guard an address do not fail: the UPDATE that takes a row out of the pool, and
-- the DELETE of a record. An INSERT of a record and the UPDATE of a release may.
pub record IsReliable (e : Sqlite) : Type 0 where
  pub marks : (id : ℕ) (t : Tables) → (e.exec (set_by_id_sql allocated) (int id ∷ []) t).1 ≡ true
  pub forgets :
      (ip host : Text) (t : Tables)
      → (e.exec delete_record_sql (string ip ∷ string host ∷ []) t).1 ≡ true

pub NeverFails-IsReliable : {e : Sqlite} → NeverFails e → IsReliable e
NeverFails-IsReliable sure = record {
  marks = λ id t. sure.succeeds _ _ _;
  forgets = λ ip host t. sure.succeeds _ _ _;
}

-- The statements that keep track of an address do not fail: the INSERT of a record and the UPDATE of
-- a release. The UPDATE that takes a row out of the pool and the DELETE of a record may.
pub record NeverLoses (e : Sqlite) : Type 0 where
  pub records :
      (ip host : Text) (t : Tables)
      → (e.exec insert_record_sql (string ip ∷ string host ∷ []) t).1 ≡ true
  pub releases :
      (ip : Text) (t : Tables) → (e.exec (set_by_ip_sql available) (string ip ∷ []) t).1 ≡ true

pub NeverFails-NeverLoses : {e : Sqlite} → NeverFails e → NeverLoses e
NeverFails-NeverLoses sure = record {
  records = λ ip host t. sure.succeeds _ _ _;
  releases = λ ip t. sure.succeeds _ _ _;
}
