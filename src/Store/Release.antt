-- ===== src/Store/Release.antt =====
-- Releasing an address: the record goes and every row of the address is free again.
use f5_ipam_controller_base.Base.{◌≡◌, ◌≢◌, ◌⊎◌, inl, inr, some, List, [], ◌∷◌, arith, Option-cases}
use f5_ipam_controller_base.Base.Text.{Text, text_eq_iff}
use f5_ipam_controller_base.Store.Tables.{
  Tables, RangeRow, ARecord, set_status_ip, least_address, delete_records, available,
}
use f5_ipam_controller_base.Store.Exclusive.{
  NoRecord, DistinctRecords, HeldTaken, IsExclusive, set_status_ip-Taken,
  set_status_ip-DistinctRows,
}

-- The host has a record with the address.
abbrev pub Holds : Text → Text → List ARecord → Type 0
Holds a host [] = ⊥
Holds a host (r ∷ records) = ((r.ipaddress ≡ a) × (r.hostname ≡ host)) ⊎ Holds a host records

-- The address that the query finds is held by the host.
pub least_address-Holds :
    (host a : Text) (records : List ARecord)
    → least_address host records ≡ some a
    → Holds a host records
unfolding least_address
least_address-Holds host a [] h = cc
least_address-Holds host a (r ∷ records) h = elim (Option-cases (least_address host records)) [
  | inl e ↦ ground (arith, text_eq_iff r.hostname host)
  | inr (b, e) ↦ ground (arith, text_eq_iff r.hostname host, least_address-Holds host b records e)
]

Holds-NoRecord :
    (a b host : Text) (records : List ARecord) → Holds a host records → NoRecord b records → a ≢ b
Holds-NoRecord a b host [] h n = elim h [ ]
Holds-NoRecord a b host (r ∷ records) (inl (p, q)) n = ground arith
Holds-NoRecord a b host (r ∷ records) (inr h) n = Holds-NoRecord a b host records h n.1

module _ (a host : Text) where
  delete_records-NoRecord_keep :
      (b : Text) (records : List ARecord)
      → NoRecord b records
      → NoRecord b (delete_records a host records)
  unfolding delete_records
  delete_records-NoRecord_keep b [] n = tt
  delete_records-NoRecord_keep b (r ∷ records) n =
      ground (arith, delete_records-NoRecord_keep b records n.1)

  -- After the deletion nobody holds the address.
  pub delete_records-NoRecord :
      (records : List ARecord)
      → DistinctRecords records
      → Holds a host records
      → NoRecord a (delete_records a host records)
  unfolding delete_records
  delete_records-NoRecord [] d h = elim h [ ]
  delete_records-NoRecord (r ∷ records) d (inl (p, q)) = ground (
    arith,
    text_eq_iff r.ipaddress a,
    text_eq_iff r.hostname host,
    delete_records-NoRecord_keep r.ipaddress records d.0,
  )
  delete_records-NoRecord (r ∷ records) d (inr h) = ground (
    arith,
    text_eq_iff r.ipaddress a,
    Holds-NoRecord a r.ipaddress host records h d.0,
    delete_records-NoRecord records d.1 h,
  )

  delete_records-DistinctRecords :
      (records : List ARecord)
      → DistinctRecords records
      → DistinctRecords (delete_records a host records)
  unfolding delete_records
  delete_records-DistinctRecords [] d = tt
  delete_records-DistinctRecords (r ∷ records) d = ground (
    arith,
    delete_records-DistinctRecords records d.1,
    delete_records-NoRecord_keep r.ipaddress records d.0,
  )

  delete_records-HeldTaken :
      (rows : List RangeRow) (records : List ARecord)
      → HeldTaken rows records
      → HeldTaken rows (delete_records a host records)
  unfolding delete_records
  delete_records-HeldTaken rows [] h = tt
  delete_records-HeldTaken rows (r ∷ records) h =
      ground (arith, delete_records-HeldTaken rows records h.1)

HeldTaken-set_status_ip :
    (a : Text) (rows : List RangeRow) (records : List ARecord)
    → HeldTaken rows records
    → NoRecord a records
    → HeldTaken (set_status_ip available a rows) records
HeldTaken-set_status_ip a rows [] h n = tt
HeldTaken-set_status_ip a rows (r ∷ records) h n =
    (set_status_ip-Taken r.ipaddress a rows n.0 h.0, HeldTaken-set_status_ip a rows records h.1 n.1)

-- The host's record goes and the rows of its address are free.
abbrev pub give_back : Text → Text → Tables → Tables
give_back a host t = record t {
  ranges = set_status_ip available a t.ranges;
  records = delete_records a host t.records;
}

pub give_back-IsExclusive :
    (a host : Text) (t : Tables)
    → Holds a host t.records
    → IsExclusive t
    → IsExclusive (give_back a host t)
give_back-IsExclusive a host t h x = record {
  pool = set_status_ip-DistinctRows available a t.ranges x.pool;
  held = delete_records-DistinctRecords a host t.records x.held;
  taken =
      HeldTaken-set_status_ip a t.ranges (delete_records a host t.records)
        (delete_records-HeldTaken a host t.ranges t.records x.taken)
        (delete_records-NoRecord a host t.records x.held h);
}

-- A record goes while the rows of its address stay allocated.
abbrev pub forget : Text → Text → Tables → Tables
forget a host t = record t { records = delete_records a host t.records }

pub forget-IsExclusive :
    (a host : Text) (t : Tables) → IsExclusive t → IsExclusive (forget a host t)
forget-IsExclusive a host t x = record {
  pool = x.pool;
  held = delete_records-DistinctRecords a host t.records x.held;
  taken = delete_records-HeldTaken a host t.ranges t.records x.taken;
}
