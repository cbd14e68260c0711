-- ===== src/Orchestration/Refused.antt =====
-- What the responses do to the cluster where the API server refuses some of the requests.
use mathlib.Core.Path.{ap₂}
use f5_ipam_controller_base.Base.{
  ◌⊎◌, ◌≡◌, refl, ap, ◌∙◌, inl, inr, true, false, Option, none, some, List, [], ◌∷◌, arith,
  Bool-cases, Option-cases, if◌then◌else◌,
}
use f5_ipam_controller_base.Base.Text.{Text, text_eq, text_eq_iff}
use f5_ipam_controller_base.Fic.{IpSpec, F5Ipam, zero_ipam}
use f5_ipam_controller_base.Ipamspec.{IpamResponse, create_op, delete_op}
use f5_ipam_controller_base.Machinery.Client.{
  RestClient, get_request, update_request, client_get, client_update,
}
use f5_ipam_controller_base.Orchestration.Response.{
  add_entry, remove_entry, with_status, store_address, drop_address, process_response,
  process_responses,
}
use f5_ipam_controller_base.Orchestration.Cluster.{at_key, removed, next_status, update_status}

-- The API server, which may refuse any GET and any PUT, and then changes nothing: `stored` is the
-- resource of a namespace and name.
pub record MayRefuse {W : Type 0} (rest : RestClient W) (stored : W → Text → Text → Option F5Ipam)
    : Type 0 where
  pub named :
      (w : W) (ns name : Text) (r : F5Ipam)
      → stored w ns name ≡ some r
      → (r.namespace ≡ ns) × (r.name ≡ name)
  pub gets :
      (w : W) (ns name : Text) (r : F5Ipam)
      → stored w ns name ≡ some r
      → (rest.send (get_request ns name) w ≡ (w, r, true))
        ⊎ (rest.send (get_request ns name) w ≡ (w, zero_ipam, false))
  pub gets_missing :
      (w : W) (ns name : Text)
      → stored w ns name ≡ none
      → rest.send (get_request ns name) w ≡ (w, zero_ipam, false)
  pub puts :
      (w : W) (ns : Text) (obj old : F5Ipam)
      → obj.namespace ≡ ns
      → stored w ns obj.name ≡ some old
      → ((n m : Text) → stored (rest.send (update_request ns obj) w).0 n m ≡ stored w n m)
        ⊎ ((n m : Text)
            → stored (rest.send (update_request ns obj) w).0 n m
              ≡ (if at_key ns obj.name n m then some obj else stored w n m))

-- What a response calls for at a namespace and name.
abbrev pub effect : IpamResponse → Text → Text → Option F5Ipam → Option F5Ipam
effect resp n m o =
    if at_key resp.request.metadata.namespace resp.request.metadata.name n m
    then update_status (next_status resp) o
    else o

abbrev pub effects : List IpamResponse → Text → Text → Option F5Ipam → Option F5Ipam
effects [] n m o = o
effects (resp ∷ resps) n m o = effects resps n m (effect resp n m o)

-- The first list is the second one without some of its items.
pub data Among : List IpamResponse → List IpamResponse → Type 0 where
  no_more : Among [] []
  left_out : {xs ys : List IpamResponse} (x : IpamResponse) → Among xs ys → Among xs (x ∷ ys)
  kept : {xs ys : List IpamResponse} (x : IpamResponse) → Among xs ys → Among (x ∷ xs) (x ∷ ys)

module _ {W : Type 0} (rest : RestClient W) (stored : W → Text → Text → Option F5Ipam)
    (server : MayRefuse rest stored) where
  abbrev IsUntouched : W → W → Type 0
  IsUntouched w after = (n m : Text) → stored after n m ≡ stored w n m

  -- Untouched, or the resource of a namespace and name has the status.
  abbrev Ends : Text → Text → F5Ipam → List IpSpec → W → W → Type 0
  Ends ns name r specs w after =
      IsUntouched w after
      ⊎ ((n m : Text)
          → stored after n m
            ≡ (if at_key ns name n m then some (with_status r specs) else stored w n m))

  put_status :
      (w : W) (ns name : Text) (r : F5Ipam) (specs : List IpSpec)
      → stored w ns name ≡ some r
      → Ends ns name r specs w (client_update rest r.namespace (with_status r specs) w).0
  unfolding client_update
  put_status w ns name r specs h =
      let (same_ns, same_name) = server.named w ns name r h in
      let there : stored w r.namespace r.name ≡ some r = ap₂ (stored w) same_ns same_name ∙ h in
      elim (server.puts w r.namespace (with_status r specs) r refl there) [
        | inl refused ↦ inl refused
        | inr written ↦ inr (λ n m.
            written n m
            ∙ ap₂ (λ a b. if at_key a b n m then some (with_status r specs) else stored w n m)
                same_ns same_name)
      ]

  failed_get-same :
      (resp : IpamResponse) (w : W)
      → rest.send (get_request resp.request.metadata.namespace resp.request.metadata.name) w
        ≡ (w, zero_ipam, false)
      → process_response rest resp w ≡ w
  unfolding process_response client_get remove_entry
  failed_get-same resp w h = ground (arith, h)

  store_address-Ends :
      (resp : IpamResponse) (w : W) (r : F5Ipam)
      → stored w resp.request.metadata.namespace resp.request.metadata.name ≡ some r
      → rest.send (get_request resp.request.metadata.namespace resp.request.metadata.name) w
        ≡ (w, r, true)
      → Ends resp.request.metadata.namespace resp.request.metadata.name r
          (add_entry resp.request.host_name resp.request.cidr resp.ip_addr r.status.ip_status)
          w
          (store_address rest resp w)
  unfolding store_address client_get
  store_address-Ends resp w r h got = rw got (put_status w _ _ r _ h)

  drop_address-Ends :
      (resp : IpamResponse) (w : W) (r : F5Ipam)
      → stored w resp.request.metadata.namespace resp.request.metadata.name ≡ some r
      → rest.send (get_request resp.request.metadata.namespace resp.request.metadata.name) w
        ≡ (w, r, true)
      → Ends resp.request.metadata.namespace resp.request.metadata.name r
          (removed
            (remove_entry resp.request.host_name resp.request.cidr r.status.ip_status)
            r.status.ip_status)
          w
          (drop_address rest resp w)
  unfolding drop_address client_get
  drop_address-Ends resp w r h got =
      rw got
        (elim (Option-cases
          (remove_entry resp.request.host_name resp.request.cidr r.status.ip_status)) [
            | inl missing ↦ rw missing (inl (λ n m. refl))
            | inr (specs, found) ↦ rw found (put_status w _ _ r specs h)
          ])

  found-Ends :
      (resp : IpamResponse) (w : W) (r : F5Ipam)
      → stored w resp.request.metadata.namespace resp.request.metadata.name ≡ some r
      → rest.send (get_request resp.request.metadata.namespace resp.request.metadata.name) w
        ≡ (w, r, true)
      → Ends resp.request.metadata.namespace resp.request.metadata.name r
          (next_status resp r.status.ip_status)
          w
          (process_response rest resp w)
  unfolding process_response
  found-Ends resp w r h got = elim (Bool-cases (text_eq resp.request.operation create_op)) [
    | inl creates ↦ rw creates (elim (Bool-cases resp.status) [
      | inl good ↦ rw good (store_address-Ends resp w r h got)
      | inr bad ↦ rw bad (drop_address-Ends resp w r h got)
    ])
    | inr other ↦ rw other (elim (Bool-cases (text_eq resp.request.operation delete_op)) [
      | inl deletes ↦ rw deletes (elim (Bool-cases resp.status) [
        | inl good ↦ rw good (drop_address-Ends resp w r h got)
        | inr bad ↦ rw bad (inl (λ n m. refl))
      ])
      | inr unknown ↦ rw unknown (inl (λ n m. refl))
    ])
  ]

  written-effect :
      (resp : IpamResponse) (w : W) (r : F5Ipam) (n m : Text)
      → stored w resp.request.metadata.namespace resp.request.metadata.name ≡ some r
      → (if at_key resp.request.metadata.namespace resp.request.metadata.name n m
          then some (with_status r (next_status resp r.status.ip_status))
          else stored w n m)
        ≡ effect resp n m (stored w n m)
  written-effect resp w r n m there = ground (
    arith,
    there,
    text_eq_iff n resp.request.metadata.namespace,
    text_eq_iff m resp.request.metadata.name,
  )

  -- A response has its whole effect or none.
  process_response-effect :
      (resp : IpamResponse) (w : W)
      → IsUntouched w (process_response rest resp w)
        ⊎ ((n m : Text)
            → stored (process_response rest resp w) n m ≡ effect resp n m (stored w n m))
  process_response-effect resp w =
      let ns = resp.request.metadata.namespace in
      let name = resp.request.metadata.name in
      elim (Option-cases (stored w ns name)) [
        | inl missing ↦ inl (λ n m.
            ap (λ v. stored v n m) (failed_get-same resp w (server.gets_missing w ns name missing)))
        | inr (r, there) ↦ elim (server.gets w ns name r there) [
          | inr refused ↦ inl (λ n m. ap (λ v. stored v n m) (failed_get-same resp w refused))
          | inl got ↦ elim (found-Ends resp w r there got) [
            | inl untouched ↦ inl untouched
            | inr written ↦ inr (λ n m. written n m ∙ written-effect resp w r n m there)
          ]
        ]
      ]

  -- Whichever requests the API server refuses, the cluster ends with the effects of some of the
  -- responses, in their order: each has its whole effect or none.
  pub process_responses-effects :
      (resps : List IpamResponse) (w : W)
      → (taken : List IpamResponse) × Among taken resps
        × ((n m : Text)
            → stored (process_responses rest resps w) n m ≡ effects taken n m (stored w n m))
  unfolding process_responses
  process_responses-effects [] w = ([], no_more, λ n m. refl)
  process_responses-effects (resp ∷ resps) w =
      let (taken, among, ends) = process_responses-effects resps (process_response rest resp w) in
      elim (process_response-effect resp w) [
        | inl untouched ↦
            (taken, left_out resp among, λ n m. ends n m ∙ ap (effects taken n m) (untouched n m))
        | inr written ↦
            (resp ∷ taken, kept resp among, λ n m. ends n m ∙ ap (effects taken n m) (written n m))
      ]
