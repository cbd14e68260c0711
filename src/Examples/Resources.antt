-- ===== src/Examples/Resources.antt =====
-- Updates of a resource and of its status at concrete data, over the cluster in memory.
use f5_ipam_controller_base.Base.{◌≡◌, ◌↔◌, refl, List, [], ◌∷◌, some, In, true, if◌then◌else◌}
use f5_ipam_controller_base.Base.Text.{Text, text, text_eq}
use f5_ipam_controller_base.Fic.{HostSpec, IpSpec, F5Ipam}
use f5_ipam_controller_base.Ipamspec.{IpamResponse, create_op, delete_op}
use f5_ipam_controller_base.Orchestration.Resource.{spec_request, process_update}
use f5_ipam_controller_base.Orchestration.Response.{add_entry, remove_entry, process_response}
use f5_ipam_controller_base.Orchestration.Updates.{process_update-exact}
use f5_ipam_controller_base.Orchestration.Entries.{address_of, remove_entry-add_entry}
use f5_ipam_controller_base.Orchestration.Mapped.{address_of-next_status}
use f5_ipam_controller_base.Orchestration.Cluster.{
  at_key, update_status, next_status, stored-process_response,
}
use f5_ipam_controller_base.Orchestration.Memory.{find, memory_cluster, memory-IsCluster}

abbrev pub host : Text → HostSpec
host h = record { host = h; cidr = text "10.0.0.0/24" }

abbrev pub entry : Text → Text → IpSpec
entry h a = record { host = h; cidr = text "10.0.0.0/24"; ip = a }

abbrev pub resource : List HostSpec → List IpSpec → F5Ipam
resource specs entries = record {
  name = text "crd";
  namespace = text "kube-system";
  spec = record { host_specs = specs };
  status = record { ip_status = entries };
}

abbrev pub before : F5Ipam
before =
    resource (host (text "a.com") ∷ host (text "b.com") ∷ [])
      (entry (text "a.com") (text "10.0.0.1") ∷ [])

abbrev pub after : F5Ipam
after = resource (host (text "b.com") ∷ host (text "c.com") ∷ []) []

abbrev response : IpamResponse
response = record {
  request = spec_request create_op before (host (text "b.com"));
  ip_addr = text "10.0.0.2";
  status = true;
}

process_update-exact_example :
    (In (spec_request delete_op after (host (text "a.com"))) (process_update (λ l. l) before after)
      ↔ (In (host (text "a.com")) before.spec.host_specs
          × (¬ In (host (text "a.com")) after.spec.host_specs)))
    × (In
          (spec_request create_op after (host (text "a.com")))
          (process_update (λ l. l) before after)
        ↔ (In (host (text "a.com")) after.spec.host_specs
            × (¬ In (host (text "a.com")) before.spec.host_specs)))
process_update-exact_example =
    process_update-exact (λ l. l) (λ s l. (λ h. h, λ h. h)) before after (host (text "a.com"))

address_of-next_status_example :
    address_of (text "b.com") (text "10.0.0.0/24") (next_status response before.status.ip_status)
    ≡ some (text "10.0.0.2")
unfolding text_eq address_of
address_of-next_status_example =
    address_of-next_status response (text "b.com") (text "10.0.0.0/24") before.status.ip_status
      (refl, tt)

remove_entry-add_entry_example :
    remove_entry
      (text "b.com")
      (text "10.0.0.0/24")
      (add_entry (text "b.com") (text "10.0.0.0/24") (text "10.0.0.2") before.status.ip_status)
    ≡ some before.status.ip_status
unfolding text_eq
remove_entry-add_entry_example =
    remove_entry-add_entry (text "b.com") (text "10.0.0.0/24") (text "10.0.0.2")
      before.status.ip_status refl

stored-process_response_example :
    find (process_response memory_cluster response (before ∷ [])) (text "kube-system") (text "crd")
    ≡ (if at_key (text "kube-system") (text "crd") (text "kube-system") (text "crd")
        then update_status
            (next_status response)
            (find (before ∷ []) (text "kube-system") (text "crd"))
        else find (before ∷ []) (text "kube-system") (text "crd"))
stored-process_response_example =
    stored-process_response memory_cluster find memory-IsCluster response (before ∷ [])
      (text "kube-system") (text "crd")
