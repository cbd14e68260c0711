-- ===== src/Provider/Filled.antt =====
-- Which pool NewProvider fills, beside what the ranges name.
use mathlib.Core.List.{append-nil, append_assoc}
use f5_ipam_controller_base.Base.{
  ◌≡◌, ◌≢◌, refl, sym, ap, ◌∙◌, inl, inr, true, Option, none, some, List, [], ◌∷◌, ◌++◌, map, arith,
  Bool-cases, Option-cases, if◌then◌else◌,
}
use f5_ipam_controller_base.Base.Outcome.{Outcome, returns, and_then}
use f5_ipam_controller_base.Base.Text.{Text, text_eq, split, trim, split-cons}
use f5_ipam_controller_base.Net.Address.{Ip, IpNet}
use f5_ipam_controller_base.Net.Parse.{parse_cidr}
use f5_ipam_controller_base.Net.Print.{print_ip}
use f5_ipam_controller_base.Net.Cidr.{print_block}
use f5_ipam_controller_base.Net.Shapes.{IsAddress, parse_cidr-IsAddress}
use f5_ipam_controller_base.Store.Tables.{Tables, available, empty_tables, insert_range}
use f5_ipam_controller_base.Store.Engine.{
  Sqlite, IsSqlite, NeverFails, Prepares, create_ranges_sql, create_records_sql, display_sql,
}
use f5_ipam_controller_base.Store.Dbstore.{create_tables, new_store, display_ip_records}
use f5_ipam_controller_base.Store.Exact.{insert_all, insert_ip_lem}
use f5_ipam_controller_base.Controller.Addresses.{addresses}
use f5_ipam_controller_base.Controller.Fresh.{addresses-append}
use f5_ipam_controller_base.Provider.Loop.{collect-all}
use f5_ipam_controller_base.Provider.Ranges.{
  Provider, fill_from, fill_to, fill_parts, fill_range, insert_found, add_range, add_ranges,
  generate_external_ip_addr, new_provider, parse_ip_range, finished, collect, all_addresses,
}

-- Addresses with their CIDRs.
abbrev pub Pool : Type 0
Pool = List (Text × Text)

abbrev in_block : Text → List Text → Pool
in_block cidr ips = map (λ ip. (ip, cidr)) ips

abbrev collected : Option (List Text) → List Text
collected none = []
collected (some ips) = ips

-- What the parts of a range name: nothing, where one of them cannot be read, or where the two lengths
-- of the prefix differ, and else the addresses from the start on, in the block of the end.
abbrev pool_from : Option (Ip × IpNet) → Ip → Text → Pool
pool_from none last cidr = []
pool_from (some (ip, net)) last cidr =
    in_block cidr (collected (collect all_addresses net ip (print_ip last)))

abbrev pool_to : Option (Ip × IpNet) → Text → Text → Pool
pool_to none start subnet = []
pool_to (some (last, block)) start subnet =
    pool_from (parse_cidr (start ++ b'/' ∷ subnet)) last (print_block block)

abbrev pool_parts : List Text → List Text → Pool
pool_parts (start ∷ subnet ∷ []) (last ∷ subnet_last ∷ []) =
    if text_eq subnet subnet_last
    then pool_to (parse_cidr (last ++ b'/' ∷ subnet)) start subnet
    else []
pool_parts _ _ = []

abbrev pool_range : List Text → Pool
pool_range (first ∷ last ∷ []) = pool_parts (split first b'/') (split last b'/')
pool_range _ = []

abbrev pool_ranges : List Text → Pool
pool_ranges [] = []
pool_ranges (r ∷ ranges) = pool_range (split (trim r b'"') b'-') ++ pool_ranges ranges

-- The pool that a text of ranges names: those of its ranges, in their order.
abbrev pub pool_of : Text → Pool
pool_of range = pool_ranges (map (λ r. trim r b' ') (split range b','))

-- A provider is returned, which has the pool behind what the one before had.
abbrev Fills : Outcome Provider → Provider → Pool → Type 0
Fills o prov pool =
    (after : Provider) × (o ≡ returns after)
    × (addresses after.store.ranges ≡ addresses prov.store.ranges ++ pool)

insert_all-addresses :
    (ips : List Text) (cidr : Text) (t : Tables)
    → addresses (insert_all ips cidr t).ranges ≡ addresses t.ranges ++ in_block cidr ips
insert_all-addresses [] cidr t = sym (append-nil (addresses t.ranges))
insert_all-addresses (ip ∷ ips) cidr t =
    insert_all-addresses ips cidr (insert_range ip available cidr t)
    ∙ ap (λ l. l ++ in_block cidr ips) (addresses-append t.ranges _)
    ∙ append_assoc (addresses t.ranges) ((ip, cidr) ∷ []) (in_block cidr ips)

Fills-none : (prov : Provider) → Fills (returns prov) prov []
Fills-none prov = (prov, refl, sym (append-nil (addresses prov.store.ranges)))

module _ (e : Sqlite) (lawful : IsSqlite e) (sure : NeverFails e) (ready : Prepares e) where
  insert_found-Fills :
      (found : Option (List Text)) (ips : List Text) (cidr : Text) (prov : Provider)
      → found ≡ some ips
      → Fills (insert_found e found cidr prov) prov (in_block cidr (collected found))
  unfolding insert_found
  insert_found-Fills none ips cidr prov h = cc
  insert_found-Fills (some found) ips cidr prov h = (
    record prov { store = insert_all found cidr prov.store },
    ap (λ o. and_then o (λ t. returns (record prov { store = t })))
        (insert_ip_lem e lawful sure ready found cidr prov.store),
    insert_all-addresses found cidr prov.store,
  )

  fill_from-Fills :
      (start : Option (Ip × IpNet)) (last : Ip) (cidr : Text) (prov : Provider)
      → ((ip : Ip) (net : IpNet) → start ≡ some (ip, net) → IsAddress ip)
      → IsAddress last
      → Fills (fill_from e start last cidr prov) prov (pool_from start last cidr)
  unfolding fill_from
  fill_from-Fills none last cidr prov h k = Fills-none prov
  fill_from-Fills (some (ip, net)) last cidr prov h k =
      let (ips, done) = collect-all net ip last (h ip net refl) k in
      insert_found-Fills _ ips cidr prov done

  fill_to-Fills :
      (last : Option (Ip × IpNet)) (start subnet : Text) (prov : Provider)
      → ((ip : Ip) (net : IpNet) → last ≡ some (ip, net) → IsAddress ip)
      → Fills (fill_to e last start subnet prov) prov (pool_to last start subnet)
  unfolding fill_to
  fill_to-Fills none start subnet prov h = Fills-none prov
  fill_to-Fills (some (ip, net)) start subnet prov h =
      fill_from-Fills _ ip _ _ (parse_cidr-IsAddress _) (h ip net refl)

  fill_parts-Fills :
      (first last : List Text) (prov : Provider)
      → Fills (fill_parts e first last prov) prov (pool_parts first last)
  unfolding fill_parts
  fill_parts-Fills (start ∷ subnet ∷ []) (last ∷ subnet_last ∷ []) prov =
      elim (Bool-cases (text_eq subnet subnet_last)) [
        | inl same ↦ rw same (fill_to-Fills _ start subnet prov (parse_cidr-IsAddress _))
        | inr differ ↦ rw differ (Fills-none prov)
      ]
  fill_parts-Fills _ _ prov = Fills-none prov

  fill_range-Fills :
      (parts : List Text) (prov : Provider)
      → Fills (fill_range e parts prov) prov (pool_range parts)
  unfolding fill_range
  fill_range-Fills (first ∷ last ∷ []) prov = fill_parts-Fills _ _ prov
  fill_range-Fills _ prov = Fills-none prov

  add_ranges-Fills :
      (ranges : List Text) (prov : Provider)
      → Fills (add_ranges e ranges prov) prov (pool_ranges ranges)
  unfolding add_ranges add_range
  add_ranges-Fills [] prov = Fills-none prov
  add_ranges-Fills (r ∷ ranges) prov =
      let (next, one, pool) = fill_range-Fills (split (trim r b'"') b'-') prov in
      let (last, all, more) = add_ranges-Fills ranges next in
      (
        last,
        ap (λ o. and_then o (add_ranges e ranges)) one ∙ all,
        more
            ∙ ap (λ l. l ++ pool_ranges ranges) pool
            ∙ append_assoc (addresses prov.store.ranges) (pool_range (split (trim r b'"') b'-'))
                (pool_ranges ranges),
      )

  pub new_store-opens :
      e.open_ok ≡ true → e.ping_ok ≡ true → new_store e ≡ returns (some empty_tables)
  unfolding new_store create_tables
  new_store-opens o p = ground (
    arith,
    o,
    p,
    lawful.creates_ranges,
    lawful.creates_records,
    sure.succeeds create_ranges_sql [] empty_tables,
    sure.succeeds create_records_sql [] empty_tables,
    ready.prepared create_ranges_sql empty_tables,
    ready.prepared create_records_sql empty_tables,
  )

  shown :
      (prov : Provider)
      → display_ip_records e prov.store ≢ none
      → finished e (returns prov) ≡ returns (some prov)
  unfolding finished display_ip_records
  shown prov h = elim (Option-cases (e.query display_sql prov.store).1) [
    | inl failed ↦ ground (arith, failed)
    | inr (rows, found) ↦ ground (arith, lawful.displays prov.store)
  ]

  pub new_provider-fills :
      (range : Text)
      → range ≢ []
      → e.open_ok ≡ true
      → e.ping_ok ≡ true
      → ((t : Tables) → display_ip_records e t ≢ none)
      → (prov : Provider) × (new_provider e range ≡ returns (some prov))
        × (addresses prov.store.ranges ≡ pool_of range)
  unfolding new_provider parse_ip_range generate_external_ip_addr
  new_provider-fills [] some_range o p shows = absurd (some_range refl)
  new_provider-fills (c ∷ range) some_range o p shows =
      let (f, fs, fields) = split-cons (c ∷ range) b',' in
      let parts = map (λ r. trim r b' ') (f ∷ fs) in
      let (prov, done, pool) =
        add_ranges-Fills parts (record { store = empty_tables; cidrs = [] }) in
      (
        prov,
        rw (fields, new_store-opens o p) (ap (finished e) done ∙ shown prov (shows prov.store)),
        pool ∙ ap (λ l. pool_ranges (map (λ r. trim r b' ') l)) (sym fields),
      )
