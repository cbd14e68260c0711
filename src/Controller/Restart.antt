-- ===== src/Controller/Restart.antt =====
-- A restart: the requests for the addresses of a resource's status.
use f5_ipam_controller_base.Base.{
  ◌≡◌, ◌≢◌, refl, sym, ap, subst, ◌∙◌, true, some, List, [], ◌∷◌, map, All, arith, Option, In,
}
use f5_ipam_controller_base.Base.Text.{Text, text_eq_refl, text_eq_iff}
use f5_ipam_controller_base.Fic.{IpSpec, F5Ipam}
use f5_ipam_controller_base.Ipamspec.{IpamResponse, create_op}
use f5_ipam_controller_base.Net.Address.{Ip, IpNet, net_contains}
use f5_ipam_controller_base.Net.Parse.{parse_cidr, parse_ip}
use f5_ipam_controller_base.Store.Tables.{RangeRow, select_first, is_free_at, allocated}
use f5_ipam_controller_base.Store.Engine.{
  Sqlite, IsSqlite, NeverFails, NeverFails-IsReliable, NeverFails-NeverLoses, insert_record,
  range_literal,
}
use f5_ipam_controller_base.Store.Exact.{mark_ip_as_allocated_lem}
use f5_ipam_controller_base.Store.Exclusive.{select_first_sound}
use f5_ipam_controller_base.Store.Accounted.{DistinctIds, set_status_id-DistinctIds}
use f5_ipam_controller_base.Store.Release.{Holds}
use f5_ipam_controller_base.Store.Reclaim.{select_first-set_status_id, Holds-append_left}
use f5_ipam_controller_base.Provider.Ranges.{Provider}
use f5_ipam_controller_base.Provider.Ipam
use f5_ipam_controller_base.Provider.Ipam.{has_cidr}
use f5_ipam_controller_base.Manager
use f5_ipam_controller_base.Manager.{ipam_manager, is_ipv4_addr}
use f5_ipam_controller_base.Manager.Cases.{marked, manager_create_a_record_lem}
use f5_ipam_controller_base.Orchestration.Resource.{status_request}
use f5_ipam_controller_base.Controller
use f5_ipam_controller_base.Controller.Retry.{ipv4-ne_empty}
use f5_ipam_controller_base.Controller.Answers.{Holds-append}

-- An entry of a status whose address is free in the pool, under the entry's CIDR.
pub record IsClaimable (prov : Provider) (s : IpSpec) : Type 0 where
  pub known : has_cidr prov s.cidr ≡ true
  pub block : (net : Ip × IpNet) × (parse_cidr s.cidr ≡ some net)
  pub address : (ip : Ip) × (parse_ip s.ip ≡ some ip)
  pub inside : net_contains block.0.1 address.0 ≡ true
  pub ipv4 : is_ipv4_addr s.ip ≡ true
  pub there : (r : RangeRow) × (select_first (is_free_at s.cidr s.ip) prov.store.ranges ≡ some r)
  pub quoted_cidr : range_literal s.cidr ≡ true
  pub quoted_ip : range_literal s.ip ≡ true

-- No two entries have one address.
abbrev pub DistinctEntries : List IpSpec → Type 0
DistinctEntries [] = Unit
DistinctEntries (s ∷ specs) = All (λ x. s.ip ≢ x.ip) specs × DistinctEntries specs

-- The provider with the row marked and the address recorded for the host.
abbrev claimed : RangeRow → IpSpec → Provider → Provider
claimed row s prov = record prov { store = insert_record s.ip s.host (marked row prov).store }

abbrev pub confirmed : F5Ipam → IpSpec → IpamResponse
confirmed r s = record { request = status_request create_op r s; ip_addr = s.ip; status = true }

module _ (prov : Provider) (s x : IpSpec) (row : RangeRow) where
  claimed-IsClaimable :
      DistinctIds prov.store.ranges
      → In row prov.store.ranges
      → row.ipaddress ≢ x.ip
      → IsClaimable prov x
      → IsClaimable (claimed row s prov) x
  claimed-IsClaimable d i n c = record {
    known = c.known;
    block = c.block;
    address = c.address;
    inside = c.inside;
    ipv4 = c.ipv4;
    there =
        (c.there.0, select_first-set_status_id x.cidr x.ip row prov.store.ranges d i n ∙ c.there.1);
    quoted_cidr = c.quoted_cidr;
    quoted_ip = c.quoted_ip;
  }

module _ (e : Sqlite) (lawful : IsSqlite e) (sure : NeverFails e) where
  allocate-claims :
      (s : IpSpec) (prov : Provider) (c : IsClaimable prov s)
      → Manager.allocate_ip_address e s.cidr s.ip prov ≡ (marked c.there.0 prov, true)
  unfolding Manager.allocate_ip_address Ipam.allocate_ip_address
  allocate-claims s prov c =
      rw
        (
          c.known,
          c.block.1,
          c.address.1,
          c.inside,
          mark_ip_as_allocated_lem e lawful (NeverFails-IsReliable sure) s.cidr s.ip prov.store
              c.quoted_cidr c.quoted_ip,
          c.there.1,
        )
        refl

  handle-claims :
      (r : F5Ipam) (s : IpSpec) (prov : Provider) (c : IsClaimable prov s)
      → Controller.handle (ipam_manager e) (status_request create_op r s) prov
        ≡ (claimed c.there.0 s prov, some (confirmed r s))
  unfolding Controller.handle Controller.create_asked
  handle-claims r s prov c =
      rw
        (
          text_eq_refl create_op,
          ipv4-ne_empty s.ip c.ipv4,
          allocate-claims s prov c,
          manager_create_a_record_lem e lawful (NeverFails-NeverLoses sure) s.host s.ip
              (marked c.there.0 prov),
          c.ipv4,
        )
        refl

  claimed-row :
      (s : IpSpec) (prov : Provider) (c : IsClaimable prov s)
      → In c.there.0 prov.store.ranges × (c.there.0.ipaddress ≡ s.ip)
  claimed-row s prov c =
      let (i, at) =
        select_first_sound (is_free_at s.cidr s.ip) prov.store.ranges c.there.0 c.there.1 in
      (i, ground (arith, text_eq_iff c.there.0.ipaddress s.ip))

  All-claimed-IsClaimable :
      (s : IpSpec) (specs : List IpSpec) (prov : Provider) (c : IsClaimable prov s)
      → DistinctIds prov.store.ranges
      → All (λ x. s.ip ≢ x.ip) specs
      → All (IsClaimable prov) specs
      → All (IsClaimable (claimed c.there.0 s prov)) specs
  All-claimed-IsClaimable s [] prov c d n cs = tt
  All-claimed-IsClaimable s (x ∷ specs) prov c d n cs =
      let (i, at) = claimed-row s prov c in
      (
        claimed-IsClaimable prov s x c.there.0 d i (λ same. n.0 (sym at ∙ same)) cs.0,
        All-claimed-IsClaimable s specs prov c d n.1 cs.1,
      )

  abbrev restarted : F5Ipam → List IpSpec → Provider → Provider × List IpamResponse
  restarted r specs prov =
      Controller.run (ipam_manager e) (map (status_request create_op r) specs) prov

  restarted_next :
      (r : F5Ipam) (s : IpSpec) (specs : List IpSpec) (prov : Provider) (c : IsClaimable prov s)
      → restarted r (s ∷ specs) prov ≡ (
        (restarted r specs (claimed c.there.0 s prov)).0,
        confirmed r s ∷ (restarted r specs (claimed c.there.0 s prov)).1,
      )
  unfolding Controller.run
  restarted_next r s specs prov c =
      ap
        (λ (x : Provider × Option IpamResponse).
          let rest = Controller.run (ipam_manager e) (map (status_request create_op r) specs) x.0 in
          (rest.0, Controller.sent (ipam_manager e) x.1 rest.1))
        (handle-claims r s prov c)

  -- What a run of such claims has recorded, later claims leave.
  restarted-Holds :
      (r : F5Ipam) (specs : List IpSpec) (prov : Provider) (a host : Text)
      → DistinctIds prov.store.ranges
      → DistinctEntries specs
      → All (IsClaimable prov) specs
      → Holds a host prov.store.records
      → Holds a host (restarted r specs prov).0.store.records
  unfolding Controller.run
  restarted-Holds r [] prov a host d n cs h = h
  restarted-Holds r (s ∷ specs) prov a host d n (c, cs) h =
      subst (λ x. Holds a host x.0.store.records) (sym (restarted_next r s specs prov c))
        (restarted-Holds r specs (claimed c.there.0 s prov) a host
          (set_status_id-DistinctIds allocated c.there.0.id prov.store.ranges d) n.1
          (All-claimed-IsClaimable s specs prov c d n.0 cs)
          (Holds-append_left a host prov.store.records _ h))

  -- Over an engine of which no statement fails: the requests that processResource makes of a
  -- resource's status on a restart, where the entries have different addresses, each free in the pool
  -- under the entry's CIDR, are all answered with success and the entry's address, and afterwards each
  -- entry's host holds it.
  pub restart-confirms :
      (r : F5Ipam) (specs : List IpSpec) (prov : Provider)
      → DistinctIds prov.store.ranges
      → DistinctEntries specs
      → All (IsClaimable prov) specs
      → ((restarted r specs prov).1 ≡ map (confirmed r) specs)
        × All (λ s. Holds s.ip s.host (restarted r specs prov).0.store.records) specs
  unfolding Controller.run
  restart-confirms r [] prov d n cs = (refl, tt)
  restart-confirms r (s ∷ specs) prov d n (c, cs) =
      let next = claimed c.there.0 s prov in
      let ids = set_status_id-DistinctIds allocated c.there.0.id prov.store.ranges d in
      let claims = All-claimed-IsClaimable s specs prov c d n.0 cs in
      let (answers, held) = restart-confirms r specs next ids n.1 claims in
      subst
        (λ x.
          (x.1 ≡ map (confirmed r) (s ∷ specs))
          × All (λ y. Holds y.ip y.host x.0.store.records) (s ∷ specs))
        (sym (restarted_next r s specs prov c))
        (
          ap (◌∷◌ (confirmed r s)) answers,
          (
            restarted-Holds r specs next s.ip s.host ids n.1 claims
                (Holds-append s.ip s.host prov.store.records),
            held,
          ),
        )
