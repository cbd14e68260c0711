-- ===== src/Store/Tables.antt =====
-- The two tables that pkg/provider/sqlite/store.go creates, and what its statements mean on them.
use f5_ipam_controller_base.Base.{
  ℕ, suc, Bool, true, false, ◌&&◌, ◌||◌, Option, none, some, List, [], ◌∷◌, ◌++◌, ltb, ◌==◌,
  if◌then◌else◌,
}
use f5_ipam_controller_base.Base.Text.{Text, text_eq}

abbrev pub allocated : ℕ
allocated = 0

abbrev pub available : ℕ
available = 1

-- A row of `ipaddress_range`.
pub record RangeRow : Type 0 where
  pub id : ℕ
  pub ipaddress : Text
  pub status : ℕ
  pub cidr : Text

-- A row of `a_records`. PRIMARY_KEY, with its underscore, is no constraint to SQLite but part of the
-- column's type name, so nothing makes `ipaddress` unique.
pub record ARecord : Type 0 where
  pub ipaddress : Text
  pub hostname : Text

-- `next_id` is the next value of the AUTOINCREMENT column.
pub record Tables : Type 0 where
  pub ranges : List RangeRow
  pub next_id : ℕ
  pub records : List ARecord

abbrev pub empty_tables : Tables
empty_tables = record { ranges = []; next_id = 1; records = [] }

-- INSERT INTO ipaddress_range
abbrev pub insert_range : Text → ℕ → Text → Tables → Tables
insert_range ip status cidr t = record t {
  ranges = t.ranges ++ record { id = t.next_id; ipaddress = ip; status = status; cidr = cidr } ∷ [];
  next_id = suc t.next_id;
}

abbrev earlier : RangeRow → Option RangeRow → RangeRow
earlier r none = r
earlier r (some s) = if ltb s.id r.id then s else r

-- SELECT … order by id ASC limit 1
unfoldable pub select_first : (RangeRow → Bool) → List RangeRow → Option RangeRow
select_first p [] = none
select_first p (r ∷ rows) =
    let rest = select_first p rows in if p r then some (earlier r rest) else rest

abbrev pub is_free : Text → RangeRow → Bool
is_free cidr r = (r.status == available) && text_eq r.cidr cidr

abbrev pub is_free_at : Text → Text → RangeRow → Bool
is_free_at cidr ip r = is_free cidr r && text_eq r.ipaddress ip

-- UPDATE ipaddress_range set status = … where id = …
unfoldable pub set_status_id : ℕ → ℕ → List RangeRow → List RangeRow
set_status_id status id [] = []
set_status_id status id (r ∷ rows) =
    (if r.id == id then record r { status = status } else r) ∷ set_status_id status id rows

-- UPDATE ipaddress_range set status = … where ipaddress = …
unfoldable pub set_status_ip : ℕ → Text → List RangeRow → List RangeRow
set_status_ip status ip [] = []
set_status_ip status ip (r ∷ rows) =
    (if text_eq r.ipaddress ip then record r { status = status } else r)
    ∷ set_status_ip status ip rows

-- The order of SQLite's BINARY collation.
pub text_less : Text → Text → Bool
text_less [] [] = false
text_less [] (d ∷ t) = true
text_less (c ∷ s) [] = false
text_less (c ∷ s) (d ∷ t) = ltb c d || ((c == d) && text_less s t)

abbrev lesser : Text → Option Text → Text
lesser a none = a
lesser a (some b) = if text_less b a then b else a

-- SELECT ipaddress FROM a_records where hostname=… order by ipaddress ASC limit 1
unfoldable pub least_address : Text → List ARecord → Option Text
unfolding text_less
least_address host [] = none
least_address host (r ∷ records) =
    let rest = least_address host records in
    if text_eq r.hostname host then some (lesser r.ipaddress rest) else rest

-- DELETE FROM a_records WHERE ipaddress=? AND hostname=?
unfoldable pub delete_records : Text → Text → List ARecord → List ARecord
delete_records ip host [] = []
delete_records ip host (r ∷ records) =
    let rest = delete_records ip host records in
    if text_eq r.ipaddress ip && text_eq r.hostname host then rest else r ∷ rest
