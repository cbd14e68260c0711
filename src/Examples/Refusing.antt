-- ===== src/Examples/Refusing.antt =====
-- An API server that refuses the first of two PUTs.
use f5_ipam_controller_base.Base.{
  if◌then◌else◌, ◌⊎◌, ◌≡◌, refl, ap, inl, inr, Bool, true, false, Option, some, List, [], ◌∷◌,
}
use f5_ipam_controller_base.Base.Text.{Text, text}
use f5_ipam_controller_base.Fic.{F5Ipam, zero_ipam}
use f5_ipam_controller_base.Ipamspec.{IpamResponse}
use f5_ipam_controller_base.Machinery.Client.{RestClient, RestRequest, Verb, update_request}
use f5_ipam_controller_base.Orchestration.Cluster.{at_key}
use f5_ipam_controller_base.Orchestration.Memory.{find, memory_send, memory-IsCluster}
use f5_ipam_controller_base.Orchestration.Response.{process_responses}
use f5_ipam_controller_base.Orchestration.Refused.{
  MayRefuse, Among, effects, process_responses-effects,
}
use f5_ipam_controller_base.Examples.Delivering.{named, answered}

-- For each PUT whether it is accepted, and the resources.
abbrev Script : Type 0
Script = List Bool × List F5Ipam

abbrev stored : Script → Text → Text → Option F5Ipam
stored (bs, rs) = find rs

abbrev beside : List Bool → List F5Ipam × F5Ipam × Bool → Script × F5Ipam × Bool
beside bs (rs, r, ok) = ((bs, rs), r, ok)

abbrev scripted : RestRequest → Script → Script × F5Ipam × Bool
scripted q ([], rs) = beside [] (memory_send q rs)
scripted q (true ∷ bs, rs) = beside bs (memory_send q rs)
scripted q (false ∷ bs, rs) = ((bs, rs), zero_ipam, false)

abbrev scripted_send : RestRequest → Script → Script × F5Ipam × Bool
scripted_send q (bs, rs) = elim q.verb [
  | Verb.put ↦ scripted q (bs, rs)
  | Verb.post ↦ beside bs (memory_send q rs)
  | Verb.get ↦ beside bs (memory_send q rs)
  | Verb.delete ↦ beside bs (memory_send q rs)
  | Verb.patch ↦ beside bs (memory_send q rs)
]

abbrev refusing : RestClient Script
refusing = record { send = scripted_send; send_list = λ q w. (w, w.1, true) }

scripted-puts :
    (bs : List Bool) (rs : List F5Ipam) (ns : Text) (obj old : F5Ipam)
    → obj.namespace ≡ ns
    → find rs ns obj.name ≡ some old
    → ((n m : Text) → stored (scripted (update_request ns obj) (bs, rs)).0 n m ≡ find rs n m)
      ⊎ ((n m : Text)
          → stored (scripted (update_request ns obj) (bs, rs)).0 n m
            ≡ (if at_key ns obj.name n m then some obj else find rs n m))
scripted-puts [] rs ns obj old e h = inr (λ n m. memory-IsCluster.puts rs ns obj old n m e h)
scripted-puts (true ∷ bs) rs ns obj old e h =
    inr (λ n m. memory-IsCluster.puts rs ns obj old n m e h)
scripted-puts (false ∷ bs) rs ns obj old e h = inl (λ n m. refl)

refusing-MayRefuse : MayRefuse refusing stored
refusing-MayRefuse = record {
  named = λ w. memory-IsCluster.named w.1;
  gets = λ w ns name r h. inl (ap (beside w.0) (memory-IsCluster.gets w.1 ns name r h));
  gets_missing = λ w ns name h. ap (beside w.0) (memory-IsCluster.gets_missing w.1 ns name h);
  puts = λ w. scripted-puts w.0 w.1;
}

abbrev two : List IpamResponse
two = answered (text "a.com") (text "10.0.0.1") ∷ answered (text "b.com") (text "10.0.0.2") ∷ []

abbrev world : Script
world = (false ∷ true ∷ [], named ∷ [])

process_responses-effects_example :
    (taken : List IpamResponse) × Among taken two
    × ((n m : Text)
        → stored (process_responses refusing two world) n m ≡ effects taken n m (stored world n m))
process_responses-effects_example =
    process_responses-effects refusing stored refusing-MayRefuse two world
