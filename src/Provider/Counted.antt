-- ===== src/Provider/Counted.antt =====
-- What a range of IPv4 addresses puts into the store, for any property of what it finds there.
use f5_ipam_controller_base.Base.{
  ℕ, ◌+◌, ◌≤◌, ◌≡◌, refl, sym, ap, ◌∙◌, inl, inr, Option, none, some, List, [], ◌∷◌, ◌++◌, All,
  Bool-cases, Option-cases,
}
use f5_ipam_controller_base.Base.Outcome.{Returned, and_then-Returned}
use f5_ipam_controller_base.Base.Text.{Text, text_eq}
use f5_ipam_controller_base.Base.Absent.{Absent, Absent-append, Absent-split}
use f5_ipam_controller_base.Net.Address.{Ip, IpNet}
use f5_ipam_controller_base.Net.Parse.{parse_cidr}
use f5_ipam_controller_base.Net.Ipv4.{all_v4, IsV4}
use f5_ipam_controller_base.Net.NoColon.{IsV4Block, parse_cidr-IsV4}
use f5_ipam_controller_base.Store.Tables.{Tables}
use f5_ipam_controller_base.Store.Engine.{Sqlite}
use f5_ipam_controller_base.Provider.Ranges.{
  Provider, fill_from, fill_to, fill_parts, fill_range, insert_found, collect, all_addresses,
}
use f5_ipam_controller_base.Store.Dbstore.{insert_ip}
use f5_ipam_controller_base.Provider.Pool.{counted, collect-counted}
use f5_ipam_controller_base.Provider.Fresh.{Yields}

-- Consecutive IPv4 addresses.
abbrev pub IsCounted : List Text → Type 0
IsCounted ips = (n : ℕ) × (k : ℕ) × (ips ≡ counted n k) × (n + k ≤ all_v4)

collected-IsCounted :
    (net : IpNet) (ip : Ip) (stop : Text) (ips : List Text)
    → IsV4 ip
    → IsV4Block net
    → collect all_addresses net ip stop ≡ some ips
    → IsCounted ips
collected-IsCounted net ip stop ips (n, small, is) block done =
    let (k, same, bound) =
      collect-counted all_addresses net n stop ips block small
        (ap (λ i. collect all_addresses net i stop) (sym is) ∙ done) in
    (n, k, same, bound)

-- `Q` is what a store is like before a range, and `P` what the addresses make of it.
module _ (e : Sqlite) (Q P : Tables → Type 0) (weaken : (t : Tables) → Q t → P t)
    (fills : (ips : List Text) (cidr : Text) (t : Tables)
      → IsCounted ips
      → Q t
      → Returned P (insert_ip e ips cidr t)) where
  found-Counted :
      (found : Option (List Text)) (cidr : Text) (prov : Provider)
      → Q prov.store
      → ((ips : List Text) → found ≡ some ips → IsCounted ips)
      → Yields P (insert_found e found cidr prov)
  unfolding insert_found
  found-Counted none cidr prov z h = tt
  found-Counted (some ips) cidr prov z h =
      and_then-Returned P (λ p. P p.store) (insert_ip e ips cidr prov.store) _
        (fills ips cidr prov.store (h ips refl) z) (λ t k. k)

  fill_from-Counted :
      (start : Text) (last : Ip) (cidr : Text) (prov : Provider)
      → Q prov.store
      → Absent b':' start
      → Yields P (fill_from e (parse_cidr start) last cidr prov)
  unfolding fill_from
  fill_from-Counted start last cidr prov z c = elim (Option-cases (parse_cidr start)) [
    | inl bad ↦ rw (bad, Yields) (weaken prov.store z)
    | inr ((ip, net), good) ↦
        let (v, block) = parse_cidr-IsV4 start ip net c good in
        rw (good, Yields)
          (found-Counted _ cidr prov z (λ ips done. collected-IsCounted net ip _ ips v block done))
  ]

  fill_to-Counted :
      (last : Option (Ip × IpNet)) (start subnet : Text) (prov : Provider)
      → Q prov.store
      → Absent b':' start
      → Absent b':' subnet
      → Yields P (fill_to e last start subnet prov)
  unfolding fill_to
  fill_to-Counted none start subnet prov z c d = weaken prov.store z
  fill_to-Counted (some (ip, net)) start subnet prov z c d =
      fill_from-Counted (start ++ b'/' ∷ subnet) ip _ _ z
        (Absent-append b':' start (b'/' ∷ subnet) c d)

  fill_parts-Counted :
      (first last : List Text) (prov : Provider)
      → Q prov.store
      → All (Absent b':') first
      → Yields P (fill_parts e first last prov)
  unfolding fill_parts
  fill_parts-Counted (start ∷ subnet ∷ []) (last ∷ subnet_last ∷ []) prov z c =
      elim (Bool-cases (text_eq subnet subnet_last)) [
        | inl same ↦ rw same (fill_to-Counted _ start subnet prov z c.0 c.1.0)
        | inr differ ↦ rw differ (weaken prov.store z)
      ]
  fill_parts-Counted _ _ prov z c = weaken prov.store z

  pub fill_range-Counted :
      (parts : List Text) (prov : Provider)
      → Q prov.store
      → All (Absent b':') parts
      → Yields P (fill_range e parts prov)
  unfolding fill_range
  fill_range-Counted (first ∷ last ∷ []) prov z c =
      fill_parts-Counted _ _ prov z (Absent-split b':' b'/' first c.0)
  fill_range-Counted _ prov z c = weaken prov.store z
