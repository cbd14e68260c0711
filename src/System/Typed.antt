-- ===== src/System/Typed.antt =====
-- What the requests and the responses on their way are of.
use f5_ipam_controller_base.Base.{
  ◌≡◌, refl, ◌⊎◌, ◌↔◌, inl, inr, Bool, Option, none, some, List, map, keep, In, All, All-append,
  Bool-cases, not,
}
use f5_ipam_controller_base.Base.Text.{Text, text_eq}
use f5_ipam_controller_base.Fic.{HostSpec, IpSpec, F5Ipam}
use f5_ipam_controller_base.Ipamspec.{IpamRequest, create_op, delete_op}
use f5_ipam_controller_base.Orchestration.Resource.{
  RqKey, meta_of, process_resource, process_update, update_key, spec_set, status_request,
  spec_request, update_op, in_set, resource, tombstone, enqueue_ipam, enqueue_updated_ipam,
  enqueue_deleted_ipam,
}
use f5_ipam_controller_base.Orchestration.Updates.{In-spec_set}
use f5_ipam_controller_base.System.{Event, added, updated, deleted}
use f5_ipam_controller_base.System.Quoted.{All-of, All-keep, All-map, All-last, Some-inj}

-- The resource has a host spec or a status entry of the host and CIDR.
abbrev pub Names : Text → Text → F5Ipam → Type 0
Names h c r =
    ((s : HostSpec) × In s r.spec.host_specs × (s.host ≡ h) × (s.cidr ≡ c))
    ⊎ ((s : IpSpec) × In s r.status.ip_status × (s.host ≡ h) × (s.cidr ≡ c))

module _ (p : F5Ipam → Type 0) where
  -- A CREATE or a DELETE, for a resource with `p`, of a host and CIDR that a resource with `p` names.
  pub record IsTyped (req : IpamRequest) : Type 0 where
    pub known : (req.operation ≡ create_op) ⊎ (req.operation ≡ delete_op)
    pub owner : (r : F5Ipam) × p r × (req.metadata ≡ meta_of r)
    pub named : (r : F5Ipam) × p r × Names req.host_name req.cidr r

  abbrev pub IsTypedOld : Option F5Ipam → Type 0
  IsTypedOld none = Unit
  IsTypedOld (some r) = p r

  pub record IsTypedKey (key : RqKey) : Type 0 where
    pub rsc : p key.rsc
    pub old : IsTypedOld key.old_rsc

  abbrev pub AllTyped : Option (List IpamRequest) → Type 0
  AllTyped none = Unit
  AllTyped (some reqs) = All IsTyped reqs

  module _ (op : Text) (known : (op ≡ create_op) ⊎ (op ≡ delete_op)) (r : F5Ipam) (seen : p r) where
    status_requests-IsTyped : All IsTyped (map (status_request op r) r.status.ip_status)
    status_requests-IsTyped =
        All-map (λ s. In s r.status.ip_status) IsTyped (status_request op r)
          (λ s i. record {
            known = known;
            owner = (r, seen, refl);
            named = (r, seen, inr (s, i, refl, refl));
          })
          r.status.ip_status (All-of (λ s. In s r.status.ip_status) r.status.ip_status (λ s i. i))

    spec_requests-IsTyped :
        (old : F5Ipam) (specs : List HostSpec)
        → p old
        → All (λ s. In s old.spec.host_specs) specs
        → All IsTyped (map (spec_request op r) specs)
    spec_requests-IsTyped old specs was =
        All-map (λ s. In s old.spec.host_specs) IsTyped (spec_request op r)
          (λ s i. record {
            known = known;
            owner = (r, seen, refl);
            named = (old, was, inl (s, i, refl, refl));
          })
          specs

  module _ (iterate : List HostSpec → List HostSpec)
      (complete : (s : HostSpec) (l : List HostSpec) → In s (iterate l) ↔ In s l) where
    ranged :
        (keeps : HostSpec → Bool) (specs : List HostSpec)
        → All (λ s. In s specs) (keep keeps (iterate (spec_set specs)))
    ranged keeps specs =
        All-keep (λ s. In s specs) keeps _
          (All-of (λ s. In s specs) _
            (λ s i. (In-spec_set s specs).0 ((complete s (spec_set specs)).0 i)))

    update_key-AllTyped :
        (old : Option F5Ipam) (r : F5Ipam)
        → IsTypedOld old
        → p r
        → AllTyped (update_key iterate old r)
    unfolding update_key process_update
    update_key-AllTyped none r q seen = tt
    update_key-AllTyped (some old) r was seen =
        All-append IsTyped _ _
          (spec_requests-IsTyped delete_op (inr refl) r seen old _ was
            (ranged (λ s. not (in_set s (spec_set r.spec.host_specs))) old.spec.host_specs))
          (spec_requests-IsTyped create_op (inl refl) r seen r _ seen
            (ranged (λ s. not (in_set s (spec_set old.spec.host_specs))) r.spec.host_specs))

    pub process_resource-AllTyped :
        (key : RqKey) → IsTypedKey key → AllTyped (process_resource iterate key)
    unfolding process_resource
    process_resource-AllTyped key k = elim (Bool-cases (text_eq key.operation create_op)) [
      | inl creates ↦ rw creates (
          All-append IsTyped _ _ (status_requests-IsTyped create_op (inl refl) key.rsc k.rsc) (
            spec_requests-IsTyped create_op (inl refl) key.rsc k.rsc key.rsc key.rsc.spec.host_specs
              k.rsc
              (All-of (λ s. In s key.rsc.spec.host_specs) key.rsc.spec.host_specs (λ s i. i))))
      | inr other ↦ rw other (elim (Bool-cases (text_eq key.operation delete_op)) [
        | inl deletes ↦ rw deletes (status_requests-IsTyped delete_op (inr refl) key.rsc k.rsc)
        | inr others ↦ rw others (elim (Bool-cases (text_eq key.operation update_op)) [
          | inl updates ↦ rw updates (update_key-AllTyped key.old_rsc key.rsc k.old k.rsc)
          | inr unknown ↦ rw unknown tt
        ])
      ])
    ]

  pub Event-IsTyped :
      {queue later : List RqKey} → Event p queue later → All IsTypedKey queue → All IsTypedKey later
  unfolding enqueue_ipam enqueue_updated_ipam enqueue_deleted_ipam
  Event-IsTyped (added (resource r) q h) k =
      Some-inj (All IsTypedKey) _ _ h (All-last IsTypedKey _ _ k (record { rsc = q; old = tt }))
  Event-IsTyped (added (tombstone r) q h) k = cc
  Event-IsTyped (updated (resource o) (resource r) q q' h) k =
      Some-inj (All IsTypedKey) _ _ h (All-last IsTypedKey _ _ k (record { rsc = q'; old = q }))
  Event-IsTyped (updated (resource o) (tombstone r) q q' h) k = cc
  Event-IsTyped (updated (tombstone o) cur q q' h) k = cc
  Event-IsTyped (deleted (resource r) q h) k =
      Some-inj (All IsTypedKey) _ _ h (All-last IsTypedKey _ _ k (record { rsc = q; old = tt }))
  Event-IsTyped (deleted (tombstone r) q h) k = cc
