-- ===== src/Store/Accounted.antt =====
-- No address is lost: a row of the pool is free or its address is held by an A record.
use f5_ipam_controller_base.Base.{ℕ, ◌≡◌, refl, ◌≢◌, ◌⊎◌, inl, inr, List, [], ◌∷◌, ◌++◌, arith, In}
use f5_ipam_controller_base.Base.Text.{Text, text_eq_iff}
use f5_ipam_controller_base.Store.Tables.{
  Tables, RangeRow, ARecord, set_status_id, set_status_ip, delete_records, allocated, available,
}
use f5_ipam_controller_base.Store.Engine.{insert_record}
use f5_ipam_controller_base.Store.Exclusive.{grant}
use f5_ipam_controller_base.Store.Release.{give_back}

-- Some A record has the address.
abbrev pub IsHeld : Text → List ARecord → Type 0
IsHeld a [] = ⊥
IsHeld a (r ∷ records) = (r.ipaddress ≡ a) ⊎ IsHeld a records

-- Every row is free or held.
abbrev pub AllHeld : List ARecord → List RangeRow → Type 0
AllHeld records [] = Unit
AllHeld records (r ∷ rows) =
    ((r.status ≡ available) ⊎ IsHeld r.ipaddress records) × AllHeld records rows

abbrev pub NoId : ℕ → List RangeRow → Type 0
NoId n [] = Unit
NoId n (r ∷ rows) = (r.id ≢ n) × NoId n rows

-- No two rows have one id.
abbrev pub DistinctIds : List RangeRow → Type 0
DistinctIds [] = Unit
DistinctIds (r ∷ rows) = NoId r.id rows × DistinctIds rows

pub record IsAccounted (t : Tables) : Type 0 where
  pub ids : DistinctIds t.ranges
  pub rows_held : AllHeld t.records t.ranges

module _ (n : ℕ) where
  NoId-set_status_id :
      (s id : ℕ) (rows : List RangeRow) → NoId n rows → NoId n (set_status_id s id rows)
  unfolding set_status_id
  NoId-set_status_id s id [] h = tt
  NoId-set_status_id s id (r ∷ rows) h = (ground arith, NoId-set_status_id s id rows h.1)

  NoId-set_status_ip :
      (s : ℕ) (a : Text) (rows : List RangeRow) → NoId n rows → NoId n (set_status_ip s a rows)
  unfolding set_status_ip
  NoId-set_status_ip s a [] h = tt
  NoId-set_status_ip s a (r ∷ rows) h = (ground arith, NoId-set_status_ip s a rows h.1)

  -- A change of the rows with an id that no row has is none.
  pub set_status_id_absent :
      (s : ℕ) (rows : List RangeRow) → NoId n rows → set_status_id s n rows ≡ rows
  unfolding set_status_id
  set_status_id_absent s [] h = refl
  set_status_id_absent s (r ∷ rows) h = ground (arith, set_status_id_absent s rows h.1)

  pub In-NoId : (r : RangeRow) (rows : List RangeRow) → In r rows → NoId n rows → r.id ≢ n
  In-NoId r [] i h = elim i [ ]
  In-NoId r (x ∷ rows) (inl e) h = ground arith
  In-NoId r (x ∷ rows) (inr i) h = In-NoId r rows i h.1

pub set_status_id-DistinctIds :
    (s id : ℕ) (rows : List RangeRow) → DistinctIds rows → DistinctIds (set_status_id s id rows)
unfolding set_status_id
set_status_id-DistinctIds s id [] h = tt
set_status_id-DistinctIds s id (r ∷ rows) h =
    (ground (arith, NoId-set_status_id r.id s id rows h.0), set_status_id-DistinctIds s id rows h.1)

set_status_ip-DistinctIds :
    (s : ℕ) (a : Text) (rows : List RangeRow)
    → DistinctIds rows
    → DistinctIds (set_status_ip s a rows)
unfolding set_status_ip
set_status_ip-DistinctIds s a [] h = tt
set_status_ip-DistinctIds s a (r ∷ rows) h =
    (ground (arith, NoId-set_status_ip r.id s a rows h.0), set_status_ip-DistinctIds s a rows h.1)

module _ (b host : Text) where
  IsHeld-append :
      (a : Text) (records : List ARecord)
      → IsHeld a records
      → IsHeld a (records ++ record { ipaddress = b; hostname = host } ∷ [])
  IsHeld-append a [] h = elim h [ ]
  IsHeld-append a (r ∷ records) (inl e) = inl e
  IsHeld-append a (r ∷ records) (inr h) = inr (IsHeld-append a records h)

  IsHeld-append_self :
      (records : List ARecord)
      → IsHeld b (records ++ record { ipaddress = b; hostname = host } ∷ [])
  IsHeld-append_self [] = inl refl
  IsHeld-append_self (r ∷ records) = inr (IsHeld-append_self records)

  IsHeld-delete_records :
      (a : Text) (records : List ARecord)
      → a ≢ b
      → IsHeld a records
      → IsHeld a (delete_records b host records)
  unfolding delete_records
  IsHeld-delete_records a [] n h = elim h [ ]
  IsHeld-delete_records a (r ∷ records) n (inl e) = ground (arith, text_eq_iff r.ipaddress b)
  IsHeld-delete_records a (r ∷ records) n (inr h) =
      ground (arith, IsHeld-delete_records a records n h)

  AllHeld-append :
      (records : List ARecord) (rows : List RangeRow)
      → AllHeld records rows
      → AllHeld (records ++ record { ipaddress = b; hostname = host } ∷ []) rows
  AllHeld-append records [] h = tt
  AllHeld-append records (r ∷ rows) h =
      (ground (arith, IsHeld-append r.ipaddress records), AllHeld-append records rows h.1)

  AllHeld-give_back :
      (records : List ARecord) (rows : List RangeRow)
      → AllHeld records rows
      → AllHeld (delete_records b host records) (set_status_ip available b rows)
  unfolding set_status_ip
  AllHeld-give_back records [] h = tt
  AllHeld-give_back records (r ∷ rows) h = (
    ground (arith, text_eq_iff r.ipaddress b, IsHeld-delete_records r.ipaddress records),
    AllHeld-give_back records rows h.1,
  )

AllHeld-grant :
    (r : RangeRow) (host : Text) (records : List ARecord) (rows : List RangeRow)
    → In r rows
    → DistinctIds rows
    → AllHeld records rows
    → AllHeld
        (records ++ record { ipaddress = r.ipaddress; hostname = host } ∷ [])
        (set_status_id allocated r.id rows)
unfolding set_status_id
AllHeld-grant r host records [] i d h = elim i [ ]
AllHeld-grant r host records (x ∷ rows) (inl e) d h = (
  inr (ground (arith, IsHeld-append_self r.ipaddress host records)),
  rw (set_status_id_absent r.id allocated rows (ground arith))
      (AllHeld-append r.ipaddress host records rows h.1),
)
AllHeld-grant r host records (x ∷ rows) (inr i) d h = (
  ground (arith, In-NoId x.id r rows i d.0, IsHeld-append r.ipaddress host x.ipaddress records),
  AllHeld-grant r host records rows i d.1 h.1,
)

pub grant-IsAccounted :
    (r : RangeRow) (host : Text) (t : Tables)
    → In r t.ranges
    → IsAccounted t
    → IsAccounted (grant r host t)
grant-IsAccounted r host t i x = record {
  ids = set_status_id-DistinctIds allocated r.id t.ranges x.ids;
  rows_held = AllHeld-grant r host t.records t.ranges i x.ids x.rows_held;
}

pub give_back-IsAccounted :
    (a host : Text) (t : Tables) → IsAccounted t → IsAccounted (give_back a host t)
give_back-IsAccounted a host t x = record {
  ids = set_status_ip-DistinctIds available a t.ranges x.ids;
  rows_held = AllHeld-give_back a host t.records t.ranges x.rows_held;
}

-- An address is recorded once more.
pub insert_record-IsAccounted :
    (a host : Text) (t : Tables) → IsAccounted t → IsAccounted (insert_record a host t)
insert_record-IsAccounted a host t x = record {
  ids = x.ids;
  rows_held = AllHeld-append a host t.records t.ranges x.rows_held;
}

AllHeld-release :
    (a : Text) (records : List ARecord) (rows : List RangeRow)
    → AllHeld records rows
    → AllHeld records (set_status_ip available a rows)
unfolding set_status_ip
AllHeld-release a records [] h = tt
AllHeld-release a records (r ∷ rows) h = (ground arith, AllHeld-release a records rows h.1)

-- The rows of an address are free, while its record stays.
pub release-IsAccounted :
    (a : Text) (t : Tables)
    → IsAccounted t
    → IsAccounted (record t { ranges = set_status_ip available a t.ranges })
release-IsAccounted a t x = record {
  ids = set_status_ip-DistinctIds available a t.ranges x.ids;
  rows_held = AllHeld-release a t.records t.ranges x.rows_held;
}
