-- ===== src/Controller/Fresh.antt =====
-- The addresses that NewProvider puts into the pool, as isIPV4Addr of the manager reads them.
use f5_ipam_controller_base.Base.{
  Bool, ℕ, zero, suc, ◌+◌, ◌<◌, ◌≤◌, ◌≡◌, refl, sym, ap, subst, inl, inr, true, some, List, [], ◌∷◌,
  ◌++◌, map, All, All-append, arith, Bool-cases,
}
use f5_ipam_controller_base.Base.Outcome.{returns, Returned, and_then-Returned}
use f5_ipam_controller_base.Base.Text.{Text, split, trim}
use f5_ipam_controller_base.Base.Absent.{Absent, Absent-trim, Absent-split}
use f5_ipam_controller_base.Net.Print.{print_ip}
use f5_ipam_controller_base.Net.Ipv4.{all_v4, v4}
use f5_ipam_controller_base.Net.Dotted.{print_ip-Absent, parse_ip-print_ip}
use f5_ipam_controller_base.Store.Tables.{Tables, RangeRow, insert_range, available}
use f5_ipam_controller_base.Store.Engine.{Sqlite, IsSqlite, insert_ip_sql}
use f5_ipam_controller_base.Store.Dbstore.{insert_ip}
use f5_ipam_controller_base.Store.Seeded.{new_store_empty}
use f5_ipam_controller_base.Provider.Ranges.{Provider, new_provider, add_ranges, add_range}
use f5_ipam_controller_base.Provider.Fresh.{Yields, new_provider-returns}
use f5_ipam_controller_base.Provider.Pool.{counted}
use f5_ipam_controller_base.Provider.Counted.{IsCounted, fill_range-Counted}
use f5_ipam_controller_base.Manager.{is_ipv4_addr}
use f5_ipam_controller_base.Controller.Addresses.{addresses, AllIpv4}

abbrev HasIpv4 : Tables → Type 0
HasIpv4 t = AllIpv4 (addresses t.ranges)

print_ip-is_ipv4 : (n : ℕ) → n < all_v4 → is_ipv4_addr (print_ip (v4 n)) ≡ true
unfolding is_ipv4_addr
print_ip-is_ipv4 n h = rw (parse_ip-print_ip n h, print_ip-Absent n h) refl

abbrev AllReadable : List Text → Type 0
AllReadable = All (λ a. is_ipv4_addr a ≡ true)

counted-AllReadable : (n k : ℕ) → n + k ≤ all_v4 → AllReadable (counted n k)
counted-AllReadable n zero h = tt
counted-AllReadable n (suc k) h =
    (print_ip-is_ipv4 n (omega arith), counted-AllReadable (n + 1) k (omega arith))

pub addresses-append :
    (rows more : List RangeRow) → addresses (rows ++ more) ≡ addresses rows ++ addresses more
addresses-append [] more = refl
addresses-append (r ∷ rows) more = ap (◌∷◌ (r.ipaddress, r.cidr)) (addresses-append rows more)

module _ (e : Sqlite) (lawful : IsSqlite e) where
  insert_ip-HasIpv4 :
      (ips : List Text) (cidr : Text) (t : Tables)
      → AllReadable ips
      → HasIpv4 t
      → Returned HasIpv4 (insert_ip e ips cidr t)
  unfolding insert_ip
  insert_ip-HasIpv4 [] cidr t v x = x
  insert_ip-HasIpv4 (ip ∷ ips) cidr t (v, vs) x = elim (Bool-cases (e.prepare insert_ip_sql t)) [
    | inr unprepared ↦ rw (unprepared, Returned) tt
    | inl prepared ↦ rw prepared (elim (lawful.inserts_range ip cidr available t) [
      | inl done ↦
          let joined : HasIpv4 (insert_range ip available cidr t) =
            subst AllIpv4 (sym (addresses-append t.ranges _)) (All-append _ _ _ x (v, tt)) in
          subst (λ (x : Tables × Bool). Returned HasIpv4 (insert_ip e ips cidr x.0)) (sym done)
            (insert_ip-HasIpv4 ips cidr _ vs joined)
      | inr failed ↦
          subst (λ (y : Tables × Bool). Returned HasIpv4 (insert_ip e ips cidr y.0)) (sym failed)
            (insert_ip-HasIpv4 ips cidr t vs x)
    ])
  ]

  counted-HasIpv4 :
      (ips : List Text) (cidr : Text) (t : Tables)
      → IsCounted ips
      → HasIpv4 t
      → Returned HasIpv4 (insert_ip e ips cidr t)
  counted-HasIpv4 ips cidr t (n, k, same, bound) x =
      insert_ip-HasIpv4 ips cidr t (subst AllReadable (sym same) (counted-AllReadable n k bound)) x

  add_range-HasIpv4 :
      (ip : Text) (prov : Provider)
      → Absent b':' ip
      → HasIpv4 prov.store
      → Yields HasIpv4 (add_range e ip prov)
  unfolding add_range
  add_range-HasIpv4 ip prov c x =
      fill_range-Counted e HasIpv4 HasIpv4 (λ t h. h) counted-HasIpv4 _ prov x
        (Absent-split b':' b'-' _ (Absent-trim b':' b'"' ip c))

  add_ranges-HasIpv4 :
      (ips : List Text) (prov : Provider)
      → All (Absent b':') ips
      → HasIpv4 prov.store
      → Yields HasIpv4 (add_ranges e ips prov)
  unfolding add_ranges
  add_ranges-HasIpv4 [] prov c x = x
  add_ranges-HasIpv4 (ip ∷ ips) prov (c, cs) x =
      and_then-Returned (λ p. HasIpv4 p.store) (λ p. HasIpv4 p.store) (add_range e ip prov)
        (add_ranges e ips) (add_range-HasIpv4 ip prov c x) (λ p. add_ranges-HasIpv4 ips p cs)

  trimmed-Absent :
      (parts : List Text)
      → All (Absent b':') parts
      → All (Absent b':') (map (λ r. trim r b' ') parts)
  trimmed-Absent [] h = tt
  trimmed-Absent (p ∷ parts) (h, hs) = (Absent-trim b':' b' ' p h, trimmed-Absent parts hs)

  pub new_provider-AllIpv4 :
      (range : Text) (prov : Provider)
      → Absent b':' range
      → new_provider e range ≡ returns (some prov)
      → AllIpv4 (addresses prov.store.ranges)
  new_provider-AllIpv4 range prov c h =
      let (t, opened, filled) = new_provider-returns e lawful range prov h in
      let none_yet : HasIpv4 t = subst HasIpv4 (sym (new_store_empty e lawful t opened)) tt in
      subst (Yields HasIpv4) filled (
        add_ranges-HasIpv4 _ (record { store = t; cidrs = [] })
          (trimmed-Absent (split range b',') (Absent-split b':' b',' range c)) none_yet)
