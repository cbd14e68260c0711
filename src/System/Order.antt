-- ===== src/System/Order.antt =====
-- The order in which the goroutines deliver the responses of a CREATE and of the DELETE behind it.
use f5_ipam_controller_base.Base.{
  ◌≡◌, refl, ap, ◌∙◌, Option, none, some, List, [], ◌∷◌, arith, any, false, true,
}
use f5_ipam_controller_base.Base.Text.{Text, text_eq, text_eq_refl}
use f5_ipam_controller_base.Fic.{HostSpec, IpSpec, F5Ipam}
use f5_ipam_controller_base.Ipamspec.{IpamRequest, IpamResponse, create_op, delete_op}
use f5_ipam_controller_base.Store.Engine.{Sqlite}
use f5_ipam_controller_base.Machinery.Client.{RestClient}
use f5_ipam_controller_base.Orchestration.Response.{
  is_entry, add_entry, remove_entry, with_status, process_response,
}
use f5_ipam_controller_base.Orchestration.Entries.{remove_entry-add_entry}
use f5_ipam_controller_base.Orchestration.Cluster.{IsCluster, next_status, stored-process_response}
use f5_ipam_controller_base.System.{System, delivers, Reach, start, later, deliver}

-- A successful response to a request with the operation, for one host and CIDR of one resource.
abbrev pub answer_to : Text → IpamRequest → Text → IpamResponse
answer_to op req ip = record {
  request = record req { operation = op };
  ip_addr = ip;
  status = true;
}

remove_entry_new :
    (host cidr : Text) (specs : List IpSpec)
    → any (is_entry host cidr) specs ≡ false
    → remove_entry host cidr specs ≡ none
unfolding remove_entry
remove_entry_new host cidr [] n = refl
remove_entry_new host cidr (s ∷ specs) n = ground (arith, remove_entry_new host cidr specs)

pub created_status :
    (req : IpamRequest) (ip : Text) (specs : List IpSpec)
    → next_status (answer_to create_op req ip) specs ≡ add_entry req.host_name req.cidr ip specs
created_status req ip specs = rw (text_eq_refl create_op) refl

deleted_status :
    (req : IpamRequest) (ip : Text) (specs rest : List IpSpec)
    → remove_entry req.host_name req.cidr specs ≡ some rest
    → next_status (answer_to delete_op req ip) specs ≡ rest
unfolding text_eq
deleted_status req ip specs rest h = rw h refl

kept_status :
    (req : IpamRequest) (ip : Text) (specs : List IpSpec)
    → remove_entry req.host_name req.cidr specs ≡ none
    → next_status (answer_to delete_op req ip) specs ≡ specs
unfolding text_eq
kept_status req ip specs h = rw h refl

module _ {W : Type 0} (e : Sqlite) (rest : RestClient W) (stored : W → Text → Text → Option F5Ipam)
    (cluster : IsCluster rest stored) (iterate : List HostSpec → List HostSpec)
    (p : F5Ipam → Type 0) (others : W → W → Type 0) where
  pub stored-answer :
      (op : Text) (req : IpamRequest) (ip : Text) (w : W) (r : F5Ipam)
      → stored w req.metadata.namespace req.metadata.name ≡ some r
      → stored
          (process_response rest (answer_to op req ip) w)
          req.metadata.namespace
          req.metadata.name
        ≡ some (with_status r (next_status (answer_to op req ip) r.status.ip_status))
  stored-answer op req ip w r h =
      stored-process_response rest stored cluster (answer_to op req ip) w req.metadata.namespace
        req.metadata.name
      ∙ rw (text_eq_refl req.metadata.namespace, text_eq_refl req.metadata.name, h) refl

  both :
      (first last : IpamResponse) (s : System W)
      → s.answers ≡ first ∷ last ∷ []
      → Reach e rest iterate p others s
          (deliver e rest iterate last [] (deliver e rest iterate first (last ∷ []) s))
  unfolding deliver
  both first last s h =
      later (later start (delivers first [] (last ∷ []) h)) (delivers last [] [] refl)

  both_swapped :
      (first last : IpamResponse) (s : System W)
      → s.answers ≡ first ∷ last ∷ []
      → Reach e rest iterate p others s
          (deliver e rest iterate first [] (deliver e rest iterate last (first ∷ []) s))
  unfolding deliver
  both_swapped first last s h =
      later (later start (delivers last (first ∷ []) [] h)) (delivers first [] [] refl)

  -- While the responses to a CREATE and to the DELETE behind it, for a host and CIDR that are new to
  -- the resource, are both on their way, the system can deliver them in either order: in that of
  -- the requests the resource is in the end as it was, in the other one it keeps an entry with the
  -- address of the CREATE.
  pub deliveries-diverge :
      (req : IpamRequest) (ip : Text) (s : System W) (r : F5Ipam)
      → s.answers ≡ answer_to delete_op req [] ∷ answer_to create_op req ip ∷ []
      → stored s.world req.metadata.namespace req.metadata.name ≡ some r
      → any (is_entry req.host_name req.cidr) r.status.ip_status ≡ false
      → ((t : System W) × Reach e rest iterate p others s t
          × (stored t.world req.metadata.namespace req.metadata.name ≡ some r))
        × ((t : System W) × Reach e rest iterate p others s t
            × (stored t.world req.metadata.namespace req.metadata.name
                ≡ some (with_status r (add_entry req.host_name req.cidr ip r.status.ip_status))))
  unfolding deliver
  deliveries-diverge req ip s r h there n =
      let specs = r.status.ip_status in
      let created = stored-answer create_op req ip s.world r there in
      let deleted = stored-answer delete_op req [] s.world r there in
      let removed = remove_entry-add_entry req.host_name req.cidr ip specs n in
      let kept = kept_status req [] specs (remove_entry_new req.host_name req.cidr specs n) in
      (
        (
          _,
          both_swapped _ _ s h,
          stored-answer delete_op req [] _ _ created
              ∙ ap (λ l. some (with_status r l))
                  (ap (next_status (answer_to delete_op req [])) (created_status req ip specs)
                    ∙ deleted_status req [] _ specs removed),
        ),
        (
          _,
          both _ _ s h,
          stored-answer create_op req ip _ _ deleted
              ∙ ap (λ l. some (with_status r l))
                  (ap (next_status (answer_to create_op req ip)) kept
                    ∙ created_status req ip specs),
        ),
      )
