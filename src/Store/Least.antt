-- ===== src/Store/Least.antt =====
-- The order of AllocateIP: the free row of a CIDR with the least id.
use f5_ipam_controller_base.Base.{
  ◌≤◌, ◌≡◌, sym, ap, ◌∙◌, ◌⊎◌, inl, inr, Bool, true, false, Option, some, none, List, [], ◌∷◌, In,
  arith, Option-cases,
}
use f5_ipam_controller_base.Base.Text.{Text}
use f5_ipam_controller_base.Store.Tables.{
  Tables, RangeRow, select_first, is_free, set_status_id, allocated,
}
use f5_ipam_controller_base.Store.Engine.{Sqlite, IsSqlite, IsReliable, range_literal}
use f5_ipam_controller_base.Store.Exact.{reserve, allocate_ip_lem}
use f5_ipam_controller_base.Store.Exclusive.{select_first_sound}
use f5_ipam_controller_base.Store.Dbstore.{allocate_ip}

module _ (p : RangeRow → Bool) where
  select_first-none :
      (rows : List RangeRow) (x : RangeRow) → select_first p rows ≡ none → In x rows → p x ≡ false
  unfolding select_first
  select_first-none [] x h i = elim i [ ]
  select_first-none (r ∷ rows) x h (inl e) = rw e (ground arith)
  select_first-none (r ∷ rows) x h (inr i) = select_first-none rows x (ground arith) i

  select_first-least :
      (rows : List RangeRow) (r x : RangeRow)
      → select_first p rows ≡ some r
      → In x rows
      → p x ≡ true
      → r.id ≤ x.id
  unfolding select_first
  select_first-least [] r x h i t = elim i [ ]
  select_first-least (y ∷ rows) r x h (inl same) t =
      let here : p y ≡ true = ap p (sym same) ∙ t in
      let number : x.id ≡ y.id = ap (λ (z : RangeRow). z.id) same in
      elim (Option-cases (select_first p rows)) [ inl e ↦ ground arith | inr (z, e) ↦ ground arith ]
  select_first-least (y ∷ rows) r x h (inr i) t = elim (Option-cases (select_first p rows)) [
    | inl e ↦ cc (select_first-none rows x e i, t)
    | inr (z, e) ↦ ground (arith, select_first-least rows z x e i t)
  ]

-- The row is the free one of the CIDR with the least id.
pub record IsFirstFree (cidr : Text) (rows : List RangeRow) (r : RangeRow) : Type 0 where
  pub present : In r rows
  pub free : is_free cidr r ≡ true
  pub least : (x : RangeRow) → In x rows → is_free cidr x ≡ true → r.id ≤ x.id

module _ (e : Sqlite) (lawful : IsSqlite e) (sure : IsReliable e) where
  -- Over an SQLite engine of which the UPDATE that takes a row out of the pool and the DELETE of a
  -- record never fail, for a CIDR that a statement can quote: AllocateIP returns the empty text and
  -- changes nothing, and then no row of the CIDR is free, or it returns the address of the free row of
  -- the CIDR with the least id, and marks that row.
  pub allocate_ip-least :
      (cidr : Text) (t : Tables)
      → range_literal cidr ≡ true
      → ((allocate_ip e cidr t ≡ (t, []))
          × ((x : RangeRow) → In x t.ranges → is_free cidr x ≡ false))
        ⊎ ((r : RangeRow) × IsFirstFree cidr t.ranges r
            × (allocate_ip e cidr t
                ≡ (record t { ranges = set_status_id allocated r.id t.ranges }, r.ipaddress)))
  allocate_ip-least cidr t q =
      let done = allocate_ip_lem e lawful sure cidr t q in
      elim (Option-cases (select_first (is_free cidr) t.ranges)) [
        | inl missing ↦ inl (
          done ∙ ap (λ (o : Option RangeRow). reserve o t) missing,
          λ x i. select_first-none (is_free cidr) t.ranges x missing i,
        )
        | inr (r, found) ↦
            let (i, free) = select_first_sound (is_free cidr) t.ranges r found in
            inr (
              r,
              record {
                present = i;
                free = free;
                least = λ x j f. select_first-least (is_free cidr) t.ranges r x found j f;
              },
              done ∙ ap (λ (o : Option RangeRow). reserve o t) found,
            )
      ]
