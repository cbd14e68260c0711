-- ===== src/Store/Seeded.antt =====
-- The store before its first request: what NewStore opens and InsertIP fills, also where an INSERT
-- fails.
use f5_ipam_controller_base.Base.{
  ℕ, suc, ◌<◌, ◌≡◌, ◌≢◌, refl, sym, inl, inr, some, List, [], ◌∷◌, ◌++◌, arith, All, Bool-cases,
}
use f5_ipam_controller_base.Base.Outcome.{returns, Returned}
use f5_ipam_controller_base.Base.Text.{Text}
use f5_ipam_controller_base.Store.Tables.{
  Tables, RangeRow, ARecord, insert_range, available, empty_tables,
}
use f5_ipam_controller_base.Store.Engine.{Sqlite, IsSqlite, insert_ip_sql}
use f5_ipam_controller_base.Store.Dbstore.{insert_ip, create_tables, new_store}
use f5_ipam_controller_base.Store.Exclusive.{NoRow, DistinctRows, IsExclusive}
use f5_ipam_controller_base.Store.Accounted.{NoId, DistinctIds, AllHeld, IsAccounted}

-- A row of a fresh pool, with an id that is in use.
abbrev pub IsFreshRow : ℕ → RangeRow → Type 0
IsFreshRow n r = (r.id < n) × (r.status ≡ available)

-- All rows are free, their ids are distinct and in use, and nothing is held.
pub record IsSeeded (t : Tables) : Type 0 where
  pub ids : DistinctIds t.ranges
  pub rows : All (IsFreshRow t.next_id) t.ranges
  pub unheld : t.records ≡ []

fresh-NoId : (n : ℕ) (rows : List RangeRow) → All (IsFreshRow n) rows → NoId n rows
fresh-NoId n [] h = tt
fresh-NoId n (r ∷ rows) h = (ground arith, fresh-NoId n rows h.1)

fresh-suc : (n : ℕ) (rows : List RangeRow) → All (IsFreshRow n) rows → All (IsFreshRow (suc n)) rows
fresh-suc n [] h = tt
fresh-suc n (r ∷ rows) h = ((omega arith, h.0.1), fresh-suc n rows h.1)

All-snoc :
    (n : ℕ) (rows : List RangeRow) (r : RangeRow)
    → All (IsFreshRow n) rows
    → IsFreshRow n r
    → All (IsFreshRow n) (rows ++ r ∷ [])
All-snoc n [] r h k = (k, tt)
All-snoc n (x ∷ rows) r h k = (h.0, All-snoc n rows r h.1 k)

NoId-snoc :
    (n : ℕ) (rows : List RangeRow) (r : RangeRow) → NoId n rows → r.id ≢ n → NoId n (rows ++ r ∷ [])
NoId-snoc n [] r h k = (k, tt)
NoId-snoc n (x ∷ rows) r h k = (h.0, NoId-snoc n rows r h.1 k)

DistinctIds-snoc :
    (rows : List RangeRow) (r : RangeRow)
    → DistinctIds rows
    → NoId r.id rows
    → DistinctIds (rows ++ r ∷ [])
DistinctIds-snoc [] r d n = (tt, tt)
DistinctIds-snoc (x ∷ rows) r d n =
    (NoId-snoc x.id rows r d.0 (λ e. n.0 (sym e)), DistinctIds-snoc rows r d.1 n.1)

insert_range-IsSeeded :
    (ip cidr : Text) (t : Tables) → IsSeeded t → IsSeeded (insert_range ip available cidr t)
insert_range-IsSeeded ip cidr t s = record {
  ids = DistinctIds-snoc t.ranges _ s.ids (fresh-NoId t.next_id t.ranges s.rows);
  rows =
      All-snoc (suc t.next_id) t.ranges _ (fresh-suc t.next_id t.ranges s.rows) (omega arith, refl);
  unheld = s.unheld;
}

NoRow-snoc :
    (a : Text) (rows : List RangeRow) (r : RangeRow)
    → NoRow a rows
    → r.ipaddress ≢ a
    → NoRow a (rows ++ r ∷ [])
NoRow-snoc a [] r h k = (k, tt)
NoRow-snoc a (x ∷ rows) r h k = (h.0, NoRow-snoc a rows r h.1 k)

DistinctRows-snoc :
    (rows : List RangeRow) (r : RangeRow)
    → DistinctRows rows
    → NoRow r.ipaddress rows
    → DistinctRows (rows ++ r ∷ [])
DistinctRows-snoc [] r d n = (tt, tt)
DistinctRows-snoc (x ∷ rows) r d n =
    (NoRow-snoc x.ipaddress rows r d.0 (λ e. n.0 (sym e)), DistinctRows-snoc rows r d.1 n.1)

-- Texts that are new to a pool, and differ from one another.
abbrev pub AllNew : List RangeRow → List Text → Type 0
AllNew rows [] = Unit
AllNew rows (a ∷ as') = NoRow a rows × All (λ b. a ≢ b) as' × AllNew rows as'

AllNew-snoc :
    (rows : List RangeRow) (r : RangeRow) (ips : List Text)
    → AllNew rows ips
    → All (λ b. r.ipaddress ≢ b) ips
    → AllNew (rows ++ r ∷ []) ips
AllNew-snoc rows r [] h k = tt
AllNew-snoc rows r (a ∷ ips) h k =
    (NoRow-snoc a rows r h.0 k.0, h.1, AllNew-snoc rows r ips h.2 k.1)

AllAvailable-AllHeld :
    (n : ℕ) (records : List ARecord) (rows : List RangeRow)
    → All (IsFreshRow n) rows
    → AllHeld records rows
AllAvailable-AllHeld n records [] h = tt
AllAvailable-AllHeld n records (r ∷ rows) h = (inl h.0.1, AllAvailable-AllHeld n records rows h.1)

pub seeded-IsAccounted : (t : Tables) → IsSeeded t → IsAccounted t
seeded-IsAccounted t s = record {
  ids = s.ids;
  rows_held = AllAvailable-AllHeld t.next_id t.records t.ranges s.rows;
}

pub seeded-IsExclusive : (t : Tables) → IsSeeded t → DistinctRows t.ranges → IsExclusive t
seeded-IsExclusive t s d = record { pool = d; held = rw s.unheld tt; taken = rw s.unheld tt }

module _ (e : Sqlite) (lawful : IsSqlite e) where
  pub insert_ip-IsSeeded :
      (ips : List Text) (cidr : Text) (t : Tables)
      → IsSeeded t
      → Returned IsSeeded (insert_ip e ips cidr t)
  unfolding insert_ip
  insert_ip-IsSeeded [] cidr t s = s
  insert_ip-IsSeeded (ip ∷ ips) cidr t s = elim (Bool-cases (e.prepare insert_ip_sql t)) [
    | inr unprepared ↦ rw (unprepared, Returned) tt
    | inl prepared ↦ rw prepared (elim (lawful.inserts_range ip cidr available t) [
      | inl done ↦ rw done (insert_ip-IsSeeded ips cidr _ (insert_range-IsSeeded ip cidr t s))
      | inr failed ↦ rw failed (insert_ip-IsSeeded ips cidr t s)
    ])
  ]

  pub insert_ip-DistinctRows :
      (ips : List Text) (cidr : Text) (t : Tables)
      → DistinctRows t.ranges
      → AllNew t.ranges ips
      → Returned (λ u. DistinctRows u.ranges) (insert_ip e ips cidr t)
  unfolding insert_ip
  insert_ip-DistinctRows [] cidr t d n = d
  insert_ip-DistinctRows (ip ∷ ips) cidr t d n = elim (Bool-cases (e.prepare insert_ip_sql t)) [
    | inr unprepared ↦ rw (unprepared, Returned) tt
    | inl prepared ↦ rw prepared (elim (lawful.inserts_range ip cidr available t) [
      | inl done ↦ rw done (
          insert_ip-DistinctRows ips cidr _ (DistinctRows-snoc t.ranges _ d n.0)
            (AllNew-snoc t.ranges _ ips n.2 n.1))
      | inr failed ↦ rw failed (insert_ip-DistinctRows ips cidr t d n.2)
    ])
  ]

  -- A store that opens is empty.
  pub new_store_empty : (t : Tables) → new_store e ≡ returns (some t) → t ≡ empty_tables
  unfolding new_store create_tables
  new_store_empty t h = ground (arith, lawful.creates_ranges, lawful.creates_records)
