-- ===== src/Examples/Running.antt =====
-- A resource with one host comes to its address: the system over the engine and the cluster in memory.
use f5_ipam_controller_base.Base.{true, ◌≡◌, refl, List, [], ◌∷◌, some, none}
use f5_ipam_controller_base.Base.Text.{text, text_eq}
use f5_ipam_controller_base.Fic.{HostSpec, F5Ipam}
use f5_ipam_controller_base.Ipamspec.{IpamRequest, IpamResponse, create_op, delete_op}
use f5_ipam_controller_base.Store.Engine.{range_literal, host_literal}
use f5_ipam_controller_base.Store.Exclusive.{IsExclusive}
use f5_ipam_controller_base.Store.Accounted.{IsAccounted}
use f5_ipam_controller_base.Store.Engine.{NeverFails-IsReliable, NeverFails-NeverLoses}
use f5_ipam_controller_base.Store.Memory.{memory, memory-IsSqlite, memory-NeverFails}
use f5_ipam_controller_base.Manager.{ipam_manager}
use f5_ipam_controller_base.Controller
use f5_ipam_controller_base.Controller.Addresses.{addresses}
use f5_ipam_controller_base.Orchestration.Resource.{
  RqKey, enqueue_ipam, spec_request, process_resource,
}
use f5_ipam_controller_base.Orchestration.Response.{with_status, add_entry}
use f5_ipam_controller_base.Orchestration.Memory.{find, memory_cluster, memory-IsCluster}
use f5_ipam_controller_base.System.{
  System, Step, Reach, start, later, observes, added, takes, serves, delivers, new_system, take_key,
  serve, deliver,
}
use f5_ipam_controller_base.System.Quoted.{IsQuotedResource}
use f5_ipam_controller_base.System.Safety.{
  started-IsExclusive, started-addresses, started-IsAccounted,
}
use f5_ipam_controller_base.System.Rest.{Unseen, pending, at_rest-outcome}
use f5_ipam_controller_base.System.Typed.{IsTyped}
use f5_ipam_controller_base.System.Traffic.{started-IsTyped}
use f5_ipam_controller_base.Base.{All}
use f5_ipam_controller_base.System.Order.{answer_to, deliveries-diverge}
use f5_ipam_controller_base.Orchestration.Resource.{Object}
use f5_ipam_controller_base.Examples.Pools.{range, filled, range-filled}
use f5_ipam_controller_base.Examples.Resources.{resource, host}

abbrev Cluster : Type 0
Cluster = List F5Ipam

abbrev fresh : F5Ipam
fresh = resource (host (text "a.com") ∷ []) []

abbrev iterate : List HostSpec → List HostSpec
iterate l = l

abbrev Alone : Cluster → Cluster → Type 0
Alone w v = ⊥

abbrev key : RqKey
key = record { rsc = fresh; old_rsc = none; operation = create_op }

abbrev asked : IpamRequest
asked = spec_request create_op fresh (host (text "a.com"))

abbrev observed : System Cluster
observed = record {
  queue = key ∷ [];
  sending = [];
  provider = filled;
  answers = [];
  world = fresh ∷ [];
}

abbrev taken : System Cluster
taken = record observed { queue = []; sending = asked ∷ [] }

abbrev served : System Cluster
served = serve memory memory_cluster iterate asked [] taken

abbrev answer : IpamResponse
answer = record { request = asked; ip_addr = text "10.0.0.1"; status = true }

abbrev delivered : System Cluster
delivered = deliver memory memory_cluster iterate answer [] served

key-taken : take_key memory memory_cluster iterate key [] observed ≡ some taken
unfolding take_key process_resource text_eq f5_ipam_controller_base.System.begin
key-taken = refl

served-answers : served.answers ≡ answer ∷ []
unfolding serve text_eq Controller.handle f5_ipam_controller_base.Manager.get_ip_address
    f5_ipam_controller_base.Provider.Ipam.get_ip_address
    f5_ipam_controller_base.Store.Dbstore.get_ip_address
    f5_ipam_controller_base.Store.Memory.memory_query
    f5_ipam_controller_base.Store.Tables.least_address
    f5_ipam_controller_base.Manager.get_next_ip_address f5_ipam_controller_base.Net.Parse.parse_cidr
    f5_ipam_controller_base.Net.Parse.cut_slash f5_ipam_controller_base.Net.Parse.parse_ipv4
    f5_ipam_controller_base.Net.Parse.dtoi f5_ipam_controller_base.Net.Parse.with_mask
    f5_ipam_controller_base.Net.Parse.with_ones f5_ipam_controller_base.Provider.Ipam.get_next_addr
    f5_ipam_controller_base.Store.Dbstore.allocate_ip
    f5_ipam_controller_base.Store.Tables.select_first
served-answers = refl

asked-delivered :
    {p : F5Ipam → Type 0} {s : System Cluster}
    → Reach memory memory_cluster iterate p Alone s observed
    → Reach memory memory_cluster iterate p Alone s delivered
asked-delivered r =
    later (later (later r (takes key [] refl refl key-taken)) (serves asked [] refl))
      (delivers answer [] [] served-answers)

fresh-IsQuoted : IsQuotedResource fresh
unfolding range_literal host_literal text_eq
fresh-IsQuoted = record { specs = (record { cidr = refl; host = refl }, tt); entries = tt }

observed-reached :
    Reach memory memory_cluster iterate IsQuotedResource Alone
      (new_system filled (fresh ∷ []))
      observed
unfolding new_system enqueue_ipam
observed-reached = later start (observes (added (Object.resource fresh) fresh-IsQuoted refl))

started-IsExclusive_example : IsExclusive delivered.provider.store
started-IsExclusive_example =
    started-IsExclusive memory memory-IsSqlite memory_cluster iterate (λ s l. (λ h. h, λ h. h))
      Alone range filled (fresh ∷ []) delivered (NeverFails-IsReliable memory-NeverFails) refl refl
      range-filled (asked-delivered observed-reached)

started-addresses_example :
    addresses delivered.provider.store.ranges ≡ addresses filled.store.ranges
started-addresses_example =
    started-addresses memory memory-IsSqlite memory_cluster iterate (λ s l. (λ h. h, λ h. h)) Alone
      filled (fresh ∷ []) delivered (asked-delivered observed-reached)

started-IsAccounted_example : IsAccounted delivered.provider.store
started-IsAccounted_example =
    started-IsAccounted memory memory-IsSqlite memory_cluster iterate (λ s l. (λ h. h, λ h. h))
      Alone range filled (fresh ∷ []) delivered (NeverFails-NeverLoses memory-NeverFails) refl
      range-filled (asked-delivered observed-reached)

at_rest-outcome_example :
    delivered.provider ≡ (Controller.run (ipam_manager memory) (pending iterate observed) filled).0
unfolding serve deliver
at_rest-outcome_example =
    at_rest-outcome memory memory_cluster iterate Alone observed delivered (asked-delivered start)
      (record { queue = refl; sending = refl; answers = refl })

abbrev crossing : System Cluster
crossing = record observed {
  queue = [];
  answers = answer_to delete_op asked [] ∷ answer_to create_op asked (text "10.0.0.1") ∷ [];
}

deliveries-diverge_example :
    ((t : System Cluster) × Reach memory memory_cluster iterate Unseen Alone crossing t
      × (find t.world (text "kube-system") (text "crd") ≡ some fresh))
    × ((t : System Cluster) × Reach memory memory_cluster iterate Unseen Alone crossing t
        × (find t.world (text "kube-system") (text "crd")
            ≡ some (
                with_status fresh
                  (add_entry (text "a.com") (text "10.0.0.0/24") (text "10.0.0.1") []))))
unfolding find text_eq
deliveries-diverge_example =
    deliveries-diverge memory memory_cluster find memory-IsCluster iterate Unseen Alone asked
      (text "10.0.0.1") crossing fresh refl refl refl

started-IsTyped_example :
    All (IsTyped IsQuotedResource) served.sending
    × All (λ resp. IsTyped IsQuotedResource resp.request) served.answers
started-IsTyped_example =
    started-IsTyped memory memory_cluster iterate (λ s l. (λ h. h, λ h. h)) IsQuotedResource Alone
      filled (fresh ∷ []) served
      (later (later observed-reached (takes key [] refl refl key-taken)) (serves asked [] refl))
