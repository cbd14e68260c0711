-- ===== src/Provider/Distinct.antt =====
-- The addresses of the pool that one range of IPv4 addresses fills.
use f5_ipam_controller_base.Base.{
  ℕ, zero, suc, ◌+◌, ◌<◌, ◌≤◌, ◌≡◌, ◌≢◌, sym, ap, subst, ◌∙◌, some, List, [], ◌∷◌, map, arith, All,
}
use f5_ipam_controller_base.Base.Outcome.{returns, Returned, and_then-returns}
use f5_ipam_controller_base.Base.Text.{Text, split, trim}
use f5_ipam_controller_base.Base.Absent.{Absent, Absent-trim, Absent-split, split-Absent}
use f5_ipam_controller_base.Net.Print.{print_ip}
use f5_ipam_controller_base.Net.Ipv4.{all_v4, v4, print_ip-injective}
use f5_ipam_controller_base.Store.Tables.{Tables}
use f5_ipam_controller_base.Store.Engine.{Sqlite, IsSqlite}
use f5_ipam_controller_base.Store.Exclusive.{DistinctRows, IsExclusive}
use f5_ipam_controller_base.Store.Seeded.{
  AllNew, insert_ip-DistinctRows, new_store_empty, seeded-IsExclusive,
}
use f5_ipam_controller_base.Provider.Ranges.{
  Provider, fill_range, add_range, add_ranges, new_provider,
}
use f5_ipam_controller_base.Provider.Counted.{IsCounted, fill_range-Counted}
use f5_ipam_controller_base.Store.Dbstore.{insert_ip}
use f5_ipam_controller_base.Provider.Pool.{counted}
use f5_ipam_controller_base.Provider.Fresh.{Yields, new_provider-returns, new_provider-IsSeeded}

counted-ne : (m n k : ℕ) → m < n → n + k ≤ all_v4 → All (λ b. print_ip (v4 m) ≢ b) (counted n k)
counted-ne m n zero h l = tt
counted-ne m n (suc k) h l = (
  λ same. absurd (omega (arith, print_ip-injective m n (omega arith) (omega arith) same)),
  counted-ne m (n + 1) k (omega arith) (omega arith),
)

counted-AllNew : (n k : ℕ) → n + k ≤ all_v4 → AllNew [] (counted n k)
counted-AllNew n zero l = tt
counted-AllNew n (suc k) l =
    (tt, counted-ne n (n + 1) k (omega arith) (omega arith), counted-AllNew (n + 1) k (omega arith))

abbrev HasDistinctRows : Tables → Type 0
HasDistinctRows t = DistinctRows t.ranges

IsCounted-AllNew : (ips : List Text) → IsCounted ips → AllNew [] ips
IsCounted-AllNew ips (n, k, same, bound) = subst (AllNew []) (sym same) (counted-AllNew n k bound)

module _ (e : Sqlite) (lawful : IsSqlite e) where
  insert_ip-Distinct :
      (ips : List Text) (cidr : Text) (t : Tables)
      → IsCounted ips
      → t.ranges ≡ []
      → Returned HasDistinctRows (insert_ip e ips cidr t)
  insert_ip-Distinct ips cidr t c z =
      insert_ip-DistinctRows e lawful ips cidr t (subst DistinctRows (sym z) tt)
        (subst (λ rows. AllNew rows ips) (sym z) (IsCounted-AllNew ips c))

  one_range-Distinct :
      (range : Text) (prov prov' : Provider)
      → prov.store.ranges ≡ []
      → Absent b':' range
      → add_ranges e (range ∷ []) prov ≡ returns prov'
      → DistinctRows prov'.store.ranges
  unfolding add_ranges add_range
  one_range-Distinct range prov prov' z c h =
      let (p, filled, last) =
        and_then-returns (fill_range e (split (trim range b'"') b'-') prov) returns prov' h in
      subst (Yields HasDistinctRows) (filled ∙ last) (
        fill_range-Counted e (λ t. t.ranges ≡ []) HasDistinctRows
          (λ t none_yet. subst DistinctRows (sym none_yet) tt) insert_ip-Distinct
          (split (trim range b'"') b'-') prov z
          (Absent-split b':' b'-' _ (Absent-trim b':' b'"' range c)))

  -- From one range, which has no comma, and of IPv4 addresses, since it has no colon: whichever INSERT
  -- fails, no two rows of the store of a provider that is returned have one address, and there is no A
  -- record.
  pub new_provider-DistinctRows :
      (range : Text) (prov : Provider)
      → Absent b',' range
      → Absent b':' range
      → new_provider e range ≡ returns (some prov)
      → DistinctRows prov.store.ranges × (prov.store.records ≡ [])
  new_provider-DistinctRows range prov one v4_only h =
      let (t, opened, filled) = new_provider-returns e lawful range prov h in
      let alone =
        ap (λ parts. add_ranges e (map (λ r. trim r b' ') parts) (record { store = t; cidrs = [] }))
          (sym (split-Absent b',' range one)) in
      (
        one_range-Distinct (trim range b' ') (record { store = t; cidrs = [] }) prov
            (ap (λ (u : Tables). u.ranges) (new_store_empty e lawful t opened))
            (Absent-trim b':' b' ' range v4_only) (alone ∙ filled),
        (new_provider-IsSeeded e lawful range prov h).unheld,
      )

  pub new_provider-IsExclusive :
      (range : Text) (prov : Provider)
      → Absent b',' range
      → Absent b':' range
      → new_provider e range ≡ returns (some prov)
      → IsExclusive prov.store
  new_provider-IsExclusive range prov one v4_only h =
      seeded-IsExclusive prov.store (new_provider-IsSeeded e lawful range prov h)
        (new_provider-DistinctRows range prov one v4_only h).0
