-- ===== src/Provider/Fresh.antt =====
-- The store of the provider that NewProvider returns.
use f5_ipam_controller_base.Base.{
  arith, ℕ, All, ap, ◌∙◌, ◌≡◌, refl, subst, inl, inr, Option, none, some, List, [], ◌∷◌, ◌++◌, map,
  Bool-cases, Option-cases,
}
use f5_ipam_controller_base.Base.Outcome.{
  Outcome, returns, Returned, and_then-Returned, and_then-returns,
}
use f5_ipam_controller_base.Base.Text.{Text, split, trim, text_eq}
use f5_ipam_controller_base.Net.Address.{Ip, IpNet}
use f5_ipam_controller_base.Net.Print.{print_ip}
use f5_ipam_controller_base.Net.Parse.{parse_cidr}
use f5_ipam_controller_base.Store.Tables.{Tables, RangeRow, available, empty_tables}
use f5_ipam_controller_base.Store.Engine.{display_sql, Sqlite, IsSqlite}
use f5_ipam_controller_base.Store.Dbstore.{display_ip_records, insert_ip, new_store}
use f5_ipam_controller_base.Store.Accounted.{DistinctIds, IsAccounted}
use f5_ipam_controller_base.Store.Seeded.{
  IsSeeded, IsFreshRow, insert_ip-IsSeeded, new_store_empty, seeded-IsAccounted,
}
use f5_ipam_controller_base.Provider.Ranges.{
  Provider, displayed, fill_from, fill_to, fill_parts, fill_range, insert_found, add_range,
  add_ranges, generate_external_ip_addr, new_provider, parse_ip_range, collect, all_addresses,
  finished,
}

-- The provider that is returned, if one is, has a store with the property.
abbrev pub Yields : (Tables → Type 0) → Outcome Provider → Type 0
Yields P = Returned (λ prov. P prov.store)

module _ (e : Sqlite) (P : Tables → Type 0)
    (keeps : (ips : List Text) (cidr : Text) (t : Tables)
      → P t
      → Returned P (insert_ip e ips cidr t)) where
  insert_found-Yields :
      (found : Option (List Text)) (cidr : Text) (prov : Provider)
      → P prov.store
      → Yields P (insert_found e found cidr prov)
  unfolding insert_found
  insert_found-Yields none cidr prov h = tt
  insert_found-Yields (some ips) cidr prov h =
      and_then-Returned P (λ p. P p.store) (insert_ip e ips cidr prov.store) _
        (keeps ips cidr prov.store h) (λ t k. k)

  fill_from-Yields :
      (start : Option (Ip × IpNet)) (last : Ip) (cidr : Text) (prov : Provider)
      → P prov.store
      → Yields P (fill_from e start last cidr prov)
  unfolding fill_from
  fill_from-Yields none last cidr prov h = h
  fill_from-Yields (some (ip, net)) last cidr prov h =
      insert_found-Yields (collect all_addresses net ip (print_ip last)) cidr prov h

  fill_to-Yields :
      (last : Option (Ip × IpNet)) (start subnet : Text) (prov : Provider)
      → P prov.store
      → Yields P (fill_to e last start subnet prov)
  unfolding fill_to
  fill_to-Yields none start subnet prov h = h
  fill_to-Yields (some (ip, net)) start subnet prov h =
      fill_from-Yields (parse_cidr (start ++ b'/' ∷ subnet)) ip _ _ h

  fill_parts-Yields :
      (first last : List Text) (prov : Provider)
      → P prov.store
      → Yields P (fill_parts e first last prov)
  unfolding fill_parts
  fill_parts-Yields (start ∷ subnet ∷ []) (last ∷ subnet_last ∷ []) prov h =
      elim (Bool-cases (text_eq subnet subnet_last)) [
        | inl same ↦ rw same (fill_to-Yields _ start subnet prov h)
        | inr differ ↦ rw differ h
      ]
  fill_parts-Yields _ _ prov h = h

  fill_range-Yields :
      (parts : List Text) (prov : Provider) → P prov.store → Yields P (fill_range e parts prov)
  unfolding fill_range
  fill_range-Yields (first ∷ last ∷ []) prov h = fill_parts-Yields _ _ prov h
  fill_range-Yields _ prov h = h

  add_range-Yields : (ip : Text) (prov : Provider) → P prov.store → Yields P (add_range e ip prov)
  unfolding add_range
  add_range-Yields ip prov h = fill_range-Yields _ prov h

  add_ranges-Yields :
      (ranges : List Text) (prov : Provider) → P prov.store → Yields P (add_ranges e ranges prov)
  unfolding add_ranges
  add_ranges-Yields [] prov h = h
  add_ranges-Yields (ip ∷ ips) prov h =
      and_then-Returned (λ p. P p.store) (λ p. P p.store) (add_range e ip prov) (add_ranges e ips)
        (add_range-Yields ip prov h) (add_ranges-Yields ips)

module _ (e : Sqlite) (lawful : IsSqlite e) where
  displayed-returns :
      (p prov : Provider)
      → displayed e p (display_ip_records e p.store) ≡ returns (some prov)
      → p ≡ prov
  unfolding display_ip_records
  displayed-returns p prov h = elim (Option-cases (e.query display_sql p.store).1) [
    | inl failed ↦ ground arith
    | inr (rows, found) ↦ ground (arith, lawful.displays p.store)
  ]

  finished-returns :
      (o : Outcome Provider) (prov : Provider)
      → finished e o ≡ returns (some prov)
      → o ≡ returns prov
  unfolding finished
  finished-returns o prov h =
      let (p, filled, shown) = and_then-returns o _ _ h in
      filled ∙ ap returns (displayed-returns p prov shown)

  generate-returns :
      (ranges : List Text) (store : Option Tables) (prov : Provider)
      → generate_external_ip_addr e ranges store ≡ returns (some prov)
      → (t : Tables) × (store ≡ some t)
        × (add_ranges e ranges (record { store = t; cidrs = [] }) ≡ returns prov)
  unfolding generate_external_ip_addr
  generate-returns [] store prov h = cc
  generate-returns (ip ∷ ips) none prov h = cc
  generate-returns (ip ∷ ips) (some t) prov h = (t, refl, finished-returns _ prov h)

  -- What NewProvider returns, it has filled a store with that opened.
  pub new_provider-returns :
      (range : Text) (prov : Provider)
      → new_provider e range ≡ returns (some prov)
      → (t : Tables) × (new_store e ≡ returns (some t))
        × (add_ranges e
              (map (λ r. trim r b' ') (split range b','))
              (record { store = t; cidrs = [] })
            ≡ returns prov)
  unfolding new_provider parse_ip_range
  new_provider-returns [] prov h = cc
  new_provider-returns (c ∷ range) prov h =
      let (store, opened, filled) = and_then-returns (new_store e) _ _ h in
      let (t, there, all) = generate-returns _ store prov filled in
      (t, opened ∙ ap returns there, all)

empty-IsSeeded : IsSeeded empty_tables
empty-IsSeeded = record { ids = tt; rows = tt; unheld = refl }

-- Every row is free.
abbrev pub AllFree : List RangeRow → Type 0
AllFree = All (λ r. r.status ≡ available)

module _ (e : Sqlite) (lawful : IsSqlite e) where
  pub new_provider-IsSeeded :
      (range : Text) (prov : Provider)
      → new_provider e range ≡ returns (some prov)
      → IsSeeded prov.store
  new_provider-IsSeeded range prov h =
      let (t, opened, filled) = new_provider-returns e lawful range prov h in
      let seeded : IsSeeded t = rw (new_store_empty e lawful t opened) empty-IsSeeded in
      subst (Yields IsSeeded) filled (
        add_ranges-Yields e IsSeeded (insert_ip-IsSeeded e lawful) _
          (record { store = t; cidrs = [] }) seeded)

  fresh-AllFree : (n : ℕ) (rows : List RangeRow) → All (IsFreshRow n) rows → AllFree rows
  fresh-AllFree n [] h = tt
  fresh-AllFree n (r ∷ rows) h = (h.0.1, fresh-AllFree n rows h.1)

  -- Whatever the ranges, and whichever INSERT fails: every row of the store of a provider that is
  -- returned is free, the rows have distinct ids, and there is no A record.
  pub new_provider-AllFree :
      (range : Text) (prov : Provider)
      → new_provider e range ≡ returns (some prov)
      → AllFree prov.store.ranges × DistinctIds prov.store.ranges × (prov.store.records ≡ [])
  new_provider-AllFree range prov h =
      let seeded = new_provider-IsSeeded range prov h in
      (fresh-AllFree prov.store.next_id prov.store.ranges seeded.rows, seeded.ids, seeded.unheld)

  -- So every row is free or held.
  pub new_provider-IsAccounted :
      (range : Text) (prov : Provider)
      → new_provider e range ≡ returns (some prov)
      → IsAccounted prov.store
  new_provider-IsAccounted range prov h =
      seeded-IsAccounted prov.store (new_provider-IsSeeded range prov h)
