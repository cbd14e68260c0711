-- ===== src/Orchestration/Cluster.antt =====
-- What a response does to the resources that the cluster stores.
use mathlib.Core.Path.{ap₂}
use f5_ipam_controller_base.Base.{
  ◌≡◌, refl, ◌∙◌, inl, inr, Bool, true, false, ◌&&◌, Option, none, some, List, arith, Bool-cases,
  Option-cases, if◌then◌else◌,
}
use f5_ipam_controller_base.Base.Text.{Text, text_eq, text_eq_iff}
use f5_ipam_controller_base.Fic.{IpSpec, F5Ipam, zero_ipam}
use f5_ipam_controller_base.Ipamspec.{IpamResponse, create_op, delete_op}
use f5_ipam_controller_base.Machinery.Client.{
  RestClient, get_request, update_request, client_get, client_update,
}
use f5_ipam_controller_base.Orchestration.Response.{
  add_entry, remove_entry, with_status, store_address, drop_address, process_response,
}

abbrev pub at_key : Text → Text → Text → Text → Bool
at_key ns name n m = text_eq n ns && text_eq m name

-- The API server as the client sees it: `stored` is the resource of a namespace and name. A GET
-- returns it and changes nothing; a PUT of a resource that exists, at its own namespace, replaces it.
pub record IsCluster {W : Type 0} (rest : RestClient W) (stored : W → Text → Text → Option F5Ipam)
    : Type 0 where
  pub named :
      (w : W) (ns name : Text) (r : F5Ipam)
      → stored w ns name ≡ some r
      → (r.namespace ≡ ns) × (r.name ≡ name)
  pub gets :
      (w : W) (ns name : Text) (r : F5Ipam)
      → stored w ns name ≡ some r
      → rest.send (get_request ns name) w ≡ (w, r, true)
  pub gets_missing :
      (w : W) (ns name : Text)
      → stored w ns name ≡ none
      → rest.send (get_request ns name) w ≡ (w, zero_ipam, false)
  pub puts :
      (w : W) (ns : Text) (obj old : F5Ipam) (n m : Text)
      → obj.namespace ≡ ns
      → stored w ns obj.name ≡ some old
      → stored (rest.send (update_request ns obj) w).0 n m
        ≡ (if at_key ns obj.name n m then some obj else stored w n m)

abbrev pub removed : Option (List IpSpec) → List IpSpec → List IpSpec
removed none specs = specs
removed (some rest) specs = rest

-- The status that a response calls for.
abbrev pub next_status : IpamResponse → List IpSpec → List IpSpec
next_status resp specs =
    let gone = removed (remove_entry resp.request.host_name resp.request.cidr specs) specs in
    if text_eq resp.request.operation create_op
    then (if resp.status
        then add_entry resp.request.host_name resp.request.cidr resp.ip_addr specs
        else gone)
    else if text_eq resp.request.operation delete_op
    then (if resp.status then gone else specs)
    else specs

abbrev pub update_status : (List IpSpec → List IpSpec) → Option F5Ipam → Option F5Ipam
update_status f none = none
update_status f (some r) = some (with_status r (f r.status.ip_status))

module _ {W : Type 0} (rest : RestClient W) (stored : W → Text → Text → Option F5Ipam)
    (cluster : IsCluster rest stored) where
  stored_same :
      (w : W) (ns name : Text) (r : F5Ipam) (n m : Text)
      → stored w ns name ≡ some r
      → stored w n m ≡ (if at_key ns name n m then some r else stored w n m)
  stored_same w ns name r n m h = ground (arith, text_eq_iff n ns, text_eq_iff m name)

  -- A write of a resource's new status, at its own namespace and name.
  put_status :
      (w : W) (ns name : Text) (r : F5Ipam) (specs : List IpSpec) (n m : Text)
      → stored w ns name ≡ some r
      → stored (client_update rest r.namespace (with_status r specs) w).0 n m
        ≡ (if at_key ns name n m then some (with_status r specs) else stored w n m)
  unfolding client_update
  put_status w ns name r specs n m h =
      let (same_ns, same_name) = cluster.named w ns name r h in
      let there : stored w r.namespace r.name ≡ some r = ap₂ (stored w) same_ns same_name ∙ h in
      cluster.puts w r.namespace (with_status r specs) r n m refl there
      ∙ ap₂ (λ a b. if at_key a b n m then some (with_status r specs) else stored w n m) same_ns
          same_name

  store_address-stored :
      (resp : IpamResponse) (w : W) (r : F5Ipam) (n m : Text)
      → stored w resp.request.metadata.namespace resp.request.metadata.name ≡ some r
      → stored (store_address rest resp w) n m ≡ (
          if at_key resp.request.metadata.namespace resp.request.metadata.name n m
          then some (
              with_status r (
                add_entry resp.request.host_name resp.request.cidr resp.ip_addr r.status.ip_status))
          else stored w n m)
  unfolding store_address client_get
  store_address-stored resp w r n m h = rw (cluster.gets w _ _ r h) (put_status w _ _ r _ n m h)

  drop_address-stored :
      (resp : IpamResponse) (w : W) (r : F5Ipam) (n m : Text)
      → stored w resp.request.metadata.namespace resp.request.metadata.name ≡ some r
      → stored (drop_address rest resp w) n m ≡ (
          if at_key resp.request.metadata.namespace resp.request.metadata.name n m
          then some (
              with_status r (
                removed
                  (remove_entry resp.request.host_name resp.request.cidr r.status.ip_status)
                  r.status.ip_status))
          else stored w n m)
  unfolding drop_address client_get
  drop_address-stored resp w r n m h =
      rw (cluster.gets w _ _ r h)
        (elim (Option-cases
          (remove_entry resp.request.host_name resp.request.cidr r.status.ip_status)) [
            | inl missing ↦ rw missing (stored_same w _ _ r n m h)
            | inr (specs, found) ↦ rw found (put_status w _ _ r specs n m h)
          ])

  missing-unchanged :
      (resp : IpamResponse) (w : W)
      → stored w resp.request.metadata.namespace resp.request.metadata.name ≡ none
      → process_response rest resp w ≡ w
  unfolding process_response client_get remove_entry
  missing-unchanged resp w h =
      ground
        (arith, cluster.gets_missing w resp.request.metadata.namespace resp.request.metadata.name h)

  there-stored :
      (resp : IpamResponse) (w : W) (r : F5Ipam) (n m : Text)
      → stored w resp.request.metadata.namespace resp.request.metadata.name ≡ some r
      → stored (process_response rest resp w) n m ≡ (
          if at_key resp.request.metadata.namespace resp.request.metadata.name n m
          then some (with_status r (next_status resp r.status.ip_status))
          else stored w n m)
  unfolding process_response
  there-stored resp w r n m h = elim (Bool-cases (text_eq resp.request.operation create_op)) [
    | inl creates ↦ rw creates (elim (Bool-cases resp.status) [
      | inl good ↦ rw good (store_address-stored resp w r n m h)
      | inr bad ↦ rw bad (drop_address-stored resp w r n m h)
    ])
    | inr other ↦ rw other (elim (Bool-cases (text_eq resp.request.operation delete_op)) [
      | inl deletes ↦ rw deletes (elim (Bool-cases resp.status) [
        | inl good ↦ rw good (drop_address-stored resp w r n m h)
        | inr bad ↦ rw bad (stored_same w _ _ r n m h)
      ])
      | inr unknown ↦ rw unknown (stored_same w _ _ r n m h)
    ])
  ]

  at_key_eq :
      (w : W) (ns name n m : Text) → at_key ns name n m ≡ true → stored w n m ≡ stored w ns name
  at_key_eq w ns name n m h = ground (arith, text_eq_iff n ns, text_eq_iff m name)

  -- A response changes the status of the resource that its request came from, and nothing else in
  -- the cluster. A successful CREATE sets the address of the host and CIDR, a failed CREATE and a
  -- successful DELETE take the last entry of the host and CIDR away, and all else changes nothing. A
  -- resource that is gone stays so.
  pub stored-process_response :
      (resp : IpamResponse) (w : W) (n m : Text)
      → stored (process_response rest resp w) n m ≡ (
          if at_key resp.request.metadata.namespace resp.request.metadata.name n m
          then update_status (next_status resp) (stored w n m)
          else stored w n m)
  stored-process_response resp w n m =
      elim (Option-cases (stored w resp.request.metadata.namespace resp.request.metadata.name)) [
        | inl missing ↦ rw (missing-unchanged resp w missing) (
            ground (
              arith,
              missing,
              at_key_eq w resp.request.metadata.namespace resp.request.metadata.name n m,
            ))
        | inr (r, there) ↦
            there-stored resp w r n m there
            ∙ ground (
              arith,
              there,
              at_key_eq w resp.request.metadata.namespace resp.request.metadata.name n m,
            )
      ]
