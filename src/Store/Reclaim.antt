-- ===== src/Store/Reclaim.antt =====
-- Rows that stay to be found while others are taken.
use f5_ipam_controller_base.Base.{
  ◌≡◌, ◌≢◌, refl, subst, sym, ap, ◌∙◌, inl, inr, List, [], ◌∷◌, ◌++◌, In, arith,
}
use f5_ipam_controller_base.Base.Text.{Text, text_eq_iff}
use f5_ipam_controller_base.Store.Tables.{
  RangeRow, ARecord, select_first, is_free_at, set_status_id, allocated,
}
use f5_ipam_controller_base.Store.Accounted.{DistinctIds, NoId, In-NoId, set_status_id_absent}
use f5_ipam_controller_base.Store.Release.{Holds}

first-set_status_id :
    (cidr ip : Text) (x : RangeRow) (rows : List RangeRow)
    → NoId x.id rows
    → x.ipaddress ≢ ip
    → select_first (is_free_at cidr ip) (set_status_id allocated x.id (x ∷ rows))
      ≡ select_first (is_free_at cidr ip) (x ∷ rows)
unfolding select_first set_status_id
first-set_status_id cidr ip x rows d n =
    ground (arith, set_status_id_absent x.id allocated rows d, text_eq_iff x.ipaddress ip)

-- Taking a row does not change what a query for another address finds.
pub select_first-set_status_id :
    (cidr ip : Text) (r : RangeRow) (rows : List RangeRow)
    → DistinctIds rows
    → In r rows
    → r.ipaddress ≢ ip
    → select_first (is_free_at cidr ip) (set_status_id allocated r.id rows)
      ≡ select_first (is_free_at cidr ip) rows
unfolding select_first set_status_id
select_first-set_status_id cidr ip r [] d i n = refl
select_first-set_status_id cidr ip r (x ∷ rows) d (inl same) n =
    subst
      (λ (y : RangeRow).
        select_first (is_free_at cidr ip) (set_status_id allocated y.id (x ∷ rows))
        ≡ select_first (is_free_at cidr ip) (x ∷ rows))
      (sym same)
      (first-set_status_id cidr ip x rows d.0
        (λ e. n (ap (λ (y : RangeRow). y.ipaddress) same ∙ e)))
select_first-set_status_id cidr ip r (x ∷ rows) d (inr i) n =
    let other = In-NoId x.id r rows i d.0 in
    let rest = select_first-set_status_id cidr ip r rows d.1 i n in ground (arith, other, rest)

pub Holds-append_left :
    (a host : Text) (records more : List ARecord)
    → Holds a host records
    → Holds a host (records ++ more)
Holds-append_left a host [] more h = elim h [ ]
Holds-append_left a host (r ∷ records) more (inl e) = inl e
Holds-append_left a host (r ∷ records) more (inr h) = inr (Holds-append_left a host records more h)
