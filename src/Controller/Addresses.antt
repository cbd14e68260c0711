-- ===== src/Controller/Addresses.antt =====
-- The addresses of the provider's pool over a run of the controller.
use f5_ipam_controller_base.Base.{
  ℕ, ◌≡◌, refl, ◌∙◌, true, false, List, [], ◌∷◌, All, arith, In, inl, inr,
}
use f5_ipam_controller_base.Base.Text.{Text, is_empty}
use f5_ipam_controller_base.Ipamspec.{IpamRequest}
use f5_ipam_controller_base.Store.Tables.{RangeRow, set_status_id, set_status_ip}
use f5_ipam_controller_base.Store.Engine.{Sqlite, IsSqlite}
use f5_ipam_controller_base.Provider.Ranges.{Provider}
use f5_ipam_controller_base.Manager.{ipam_manager, is_ipv4_addr}
use f5_ipam_controller_base.Net.Parse.{parse_ip}
use f5_ipam_controller_base.Controller.Serve.{IsQuoted}
use f5_ipam_controller_base.Controller
use f5_ipam_controller_base.Manager.Faults.{IsStable}
use f5_ipam_controller_base.Controller.Faults.{run-keeps}

-- The addresses of the pool with their CIDRs, in the order of the table.
abbrev pub addresses : List RangeRow → List (Text × Text)
addresses [] = []
addresses (r ∷ rows) = (r.ipaddress, r.cidr) ∷ addresses rows

abbrev pub AllIpv4 : List (Text × Text) → Type 0
AllIpv4 = All (λ a. is_ipv4_addr a.0 ≡ true)

addresses-set_status_id :
    (s id : ℕ) (rows : List RangeRow) → addresses (set_status_id s id rows) ≡ addresses rows
unfolding set_status_id
addresses-set_status_id s id [] = refl
addresses-set_status_id s id (r ∷ rows) = ground (arith, addresses-set_status_id s id rows)

addresses-set_status_ip :
    (s : ℕ) (ip : Text) (rows : List RangeRow)
    → addresses (set_status_ip s ip rows) ≡ addresses rows
unfolding set_status_ip
addresses-set_status_ip s ip [] = refl
addresses-set_status_ip s ip (r ∷ rows) = ground (arith, addresses-set_status_ip s ip rows)

pub In-AllIpv4 :
    (r : RangeRow) (rows : List RangeRow)
    → In r rows
    → AllIpv4 (addresses rows)
    → is_ipv4_addr r.ipaddress ≡ true
In-AllIpv4 r [] i v = elim i [ ]
In-AllIpv4 r (x ∷ rows) (inl e) v = rw e v.0
In-AllIpv4 r (x ∷ rows) (inr i) v = In-AllIpv4 r rows i v.1

-- An IPv4 address is not the empty text.
pub Ipv4-there : (a : Text) → is_ipv4_addr a ≡ true → is_empty a ≡ false
unfolding is_ipv4_addr parse_ip
Ipv4-there [] h = cc
Ipv4-there (c ∷ a) h = refl

-- No statement of the loop changes which addresses the pool has.
pub addresses-IsStable : (pool : List (Text × Text)) → IsStable (λ t. addresses t.ranges ≡ pool)
addresses-IsStable pool = record {
  sets_by_id = λ s id t x. addresses-set_status_id s id t.ranges ∙ x;
  sets_by_ip = λ s ip t x. addresses-set_status_ip s ip t.ranges ∙ x;
  inserts_record = λ ip host t x. x;
  deletes_record = λ ip host t x. x;
}

module _ (e : Sqlite) (lawful : IsSqlite e) where
  -- Over an SQLite engine, whichever of its statements fail: after any requests whose texts a
  -- statement can quote, the pool has the addresses that it had, with their CIDRs and in their order.
  pub addresses-run :
      (reqs : List IpamRequest) (prov : Provider)
      → All IsQuoted reqs
      → addresses (Controller.run (ipam_manager e) reqs prov).0.store.ranges
        ≡ addresses prov.store.ranges
  addresses-run reqs prov q =
      run-keeps e lawful _ (addresses-IsStable (addresses prov.store.ranges)) reqs prov q refl
