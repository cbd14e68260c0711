-- ===== src/Store/Exclusive.antt =====
-- An address is held by at most one A record, and a held address is out of the pool: the invariant
-- of the tables, and what keeps it.
use f5_ipam_controller_base.Base.{
  ℕ, ◌≡◌, sym, ◌≢◌, inl, inr, Bool, true, some, List, [], ◌∷◌, ◌++◌, arith, In, Option-cases,
}
use f5_ipam_controller_base.Base.Text.{Text, text_eq_iff}
use f5_ipam_controller_base.Store.Tables.{
  Tables, RangeRow, ARecord, select_first, set_status_id, set_status_ip, allocated, available,
}
use f5_ipam_controller_base.Store.Engine.{insert_record}

-- Every row of the address is allocated.
abbrev pub Taken : Text → List RangeRow → Type 0
Taken a [] = Unit
Taken a (r ∷ rows) = (r.ipaddress ≡ a → r.status ≡ allocated) × Taken a rows

-- No row has the address.
abbrev pub NoRow : Text → List RangeRow → Type 0
NoRow a [] = Unit
NoRow a (r ∷ rows) = (r.ipaddress ≢ a) × NoRow a rows

-- No two rows have one address.
abbrev pub DistinctRows : List RangeRow → Type 0
DistinctRows [] = Unit
DistinctRows (r ∷ rows) = NoRow r.ipaddress rows × DistinctRows rows

-- No A record has the address.
abbrev pub NoRecord : Text → List ARecord → Type 0
NoRecord a [] = Unit
NoRecord a (r ∷ records) = (r.ipaddress ≢ a) × NoRecord a records

-- No two A records have one address.
abbrev pub DistinctRecords : List ARecord → Type 0
DistinctRecords [] = Unit
DistinctRecords (r ∷ records) = NoRecord r.ipaddress records × DistinctRecords records

-- The address of every record is taken.
abbrev pub HeldTaken : List RangeRow → List ARecord → Type 0
HeldTaken rows [] = Unit
HeldTaken rows (r ∷ records) = Taken r.ipaddress rows × HeldTaken rows records

pub record IsExclusive (t : Tables) : Type 0 where
  pub pool : DistinctRows t.ranges
  pub held : DistinctRecords t.records
  pub taken : HeldTaken t.ranges t.records

-- A row that the query finds is in the table and passes the test.
pub select_first_sound :
    (p : RangeRow → Bool) (rows : List RangeRow) (r : RangeRow)
    → select_first p rows ≡ some r
    → In r rows × (p r ≡ true)
unfolding select_first
select_first_sound p [] r h = cc
select_first_sound p (x ∷ rows) r h = elim (Option-cases (select_first p rows)) [
  | inl e ↦ ground arith
  | inr (y, e) ↦ ground (arith, select_first_sound p rows y e)
]

module _ (a : Text) where
  pub set_status_id-Taken :
      (id : ℕ) (rows : List RangeRow) → Taken a rows → Taken a (set_status_id allocated id rows)
  unfolding set_status_id
  set_status_id-Taken id [] h = tt
  set_status_id-Taken id (r ∷ rows) h = (ground arith, set_status_id-Taken id rows h.1)

  NoRow-Taken :
      (id : ℕ) (rows : List RangeRow) → NoRow a rows → Taken a (set_status_id allocated id rows)
  unfolding set_status_id
  NoRow-Taken id [] h = tt
  NoRow-Taken id (r ∷ rows) h = (ground arith, NoRow-Taken id rows h.1)

  In-NoRow : (r : RangeRow) (rows : List RangeRow) → In r rows → NoRow a rows → r.ipaddress ≢ a
  In-NoRow r [] h k = elim h [ ]
  In-NoRow r (x ∷ rows) (inl e) k = ground arith
  In-NoRow r (x ∷ rows) (inr h) k = In-NoRow r rows h k.1

  In-Taken :
      (r : RangeRow) (rows : List RangeRow)
      → In r rows
      → Taken a rows
      → r.ipaddress ≡ a
      → r.status ≡ allocated
  In-Taken r [] h k e = elim h [ ]
  In-Taken r (x ∷ rows) (inl p) k e = ground arith
  In-Taken r (x ∷ rows) (inr h) k e = In-Taken r rows h k.1 e

  pub set_status_ip-Taken :
      (b : Text) (rows : List RangeRow)
      → a ≢ b
      → Taken a rows
      → Taken a (set_status_ip available b rows)
  unfolding set_status_ip
  set_status_ip-Taken b [] n h = tt
  set_status_ip-Taken b (r ∷ rows) n h =
      (ground (arith, text_eq_iff r.ipaddress b), set_status_ip-Taken b rows n h.1)

  NoRow-set_status_id :
      (s id : ℕ) (rows : List RangeRow) → NoRow a rows → NoRow a (set_status_id s id rows)
  unfolding set_status_id
  NoRow-set_status_id s id [] h = tt
  NoRow-set_status_id s id (r ∷ rows) h = (ground arith, NoRow-set_status_id s id rows h.1)

  NoRow-set_status_ip :
      (s : ℕ) (b : Text) (rows : List RangeRow) → NoRow a rows → NoRow a (set_status_ip s b rows)
  unfolding set_status_ip
  NoRow-set_status_ip s b [] h = tt
  NoRow-set_status_ip s b (r ∷ rows) h = (ground arith, NoRow-set_status_ip s b rows h.1)

pub set_status_id-DistinctRows :
    (s id : ℕ) (rows : List RangeRow) → DistinctRows rows → DistinctRows (set_status_id s id rows)
unfolding set_status_id
set_status_id-DistinctRows s id [] h = tt
set_status_id-DistinctRows s id (r ∷ rows) h = (
  ground (arith, NoRow-set_status_id r.ipaddress s id rows h.0),
  set_status_id-DistinctRows s id rows h.1,
)

pub set_status_ip-DistinctRows :
    (s : ℕ) (b : Text) (rows : List RangeRow)
    → DistinctRows rows
    → DistinctRows (set_status_ip s b rows)
unfolding set_status_ip
set_status_ip-DistinctRows s b [] h = tt
set_status_ip-DistinctRows s b (r ∷ rows) h = (
  ground (arith, NoRow-set_status_ip r.ipaddress s b rows h.0),
  set_status_ip-DistinctRows s b rows h.1,
)

-- Where the row is marked, its address is taken: no other row has it.
reserved-Taken :
    (r : RangeRow) (rows : List RangeRow)
    → In r rows
    → DistinctRows rows
    → Taken r.ipaddress (set_status_id allocated r.id rows)
unfolding set_status_id
reserved-Taken r [] h d = elim h [ ]
reserved-Taken r (x ∷ rows) (inl e) d =
    (ground arith, NoRow-Taken r.ipaddress r.id rows (ground arith))
reserved-Taken r (x ∷ rows) (inr h) d =
    (ground (arith, In-NoRow x.ipaddress r rows h d.0), reserved-Taken r rows h d.1)

HeldTaken-set_status_id :
    (id : ℕ) (rows : List RangeRow) (records : List ARecord)
    → HeldTaken rows records
    → HeldTaken (set_status_id allocated id rows) records
HeldTaken-set_status_id id rows [] h = tt
HeldTaken-set_status_id id rows (r ∷ records) h =
    (set_status_id-Taken r.ipaddress id rows h.0, HeldTaken-set_status_id id rows records h.1)

-- A free row's address has no record.
free-NoRecord :
    (r : RangeRow) (rows : List RangeRow) (records : List ARecord)
    → In r rows
    → r.status ≡ available
    → HeldTaken rows records
    → NoRecord r.ipaddress records
free-NoRecord r rows [] i f h = tt
free-NoRecord r rows (x ∷ records) i f h =
    (ground (arith, In-Taken x.ipaddress r rows i h.0), free-NoRecord r rows records i f h.1)

-- Marking a row as allocated keeps the invariant.
pub reserve-IsExclusive :
    (id : ℕ) (t : Tables)
    → IsExclusive t
    → IsExclusive (record t { ranges = set_status_id allocated id t.ranges })
reserve-IsExclusive id t x = record {
  pool = set_status_id-DistinctRows allocated id t.ranges x.pool;
  held = x.held;
  taken = HeldTaken-set_status_id id t.ranges t.records x.taken;
}

NoRecord-append :
    (a b host : Text) (records : List ARecord)
    → NoRecord a records
    → b ≢ a
    → NoRecord a (records ++ record { ipaddress = b; hostname = host } ∷ [])
NoRecord-append a b host [] h n = (n, tt)
NoRecord-append a b host (r ∷ records) h n = (h.0, NoRecord-append a b host records h.1 n)

DistinctRecords-append :
    (b host : Text) (records : List ARecord)
    → DistinctRecords records
    → NoRecord b records
    → DistinctRecords (records ++ record { ipaddress = b; hostname = host } ∷ [])
DistinctRecords-append b host [] d n = (tt, tt)
DistinctRecords-append b host (r ∷ records) d n = (
  NoRecord-append r.ipaddress b host records d.0 (λ e. n.0 (sym e)),
  DistinctRecords-append b host records d.1 n.1,
)

HeldTaken-append :
    (b host : Text) (rows : List RangeRow) (records : List ARecord)
    → HeldTaken rows records
    → Taken b rows
    → HeldTaken rows (records ++ record { ipaddress = b; hostname = host } ∷ [])
HeldTaken-append b host rows [] h k = (k, tt)
HeldTaken-append b host rows (r ∷ records) h k = (h.0, HeldTaken-append b host rows records h.1 k)

-- A free row is marked and its address recorded for a host.
abbrev pub grant : RangeRow → Text → Tables → Tables
grant r host t =
    insert_record r.ipaddress host (record t { ranges = set_status_id allocated r.id t.ranges })

pub grant-IsExclusive :
    (r : RangeRow) (host : Text) (t : Tables)
    → In r t.ranges
    → r.status ≡ available
    → IsExclusive t
    → IsExclusive (grant r host t)
grant-IsExclusive r host t i f x = record {
  pool = set_status_id-DistinctRows allocated r.id t.ranges x.pool;
  held =
      DistinctRecords-append r.ipaddress host t.records x.held
        (free-NoRecord r t.ranges t.records i f x.taken);
  taken =
      HeldTaken-append r.ipaddress host (set_status_id allocated r.id t.ranges) t.records
        (HeldTaken-set_status_id r.id t.ranges t.records x.taken)
        (reserved-Taken r t.ranges i x.pool);
}
