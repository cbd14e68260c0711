-- ===== src/Examples/Delivering.antt =====
-- Two responses to two hosts of one resource, delivered in both orders.
use f5_ipam_controller_base.Base.{◌≡◌, refl, List, [], ◌∷◌, arith}
use f5_ipam_controller_base.Base.Text.{Text, text, text_eq}
use f5_ipam_controller_base.Fic.{HostSpec, F5Ipam}
use f5_ipam_controller_base.Ipamspec.{IpamResponse, create_op}
use f5_ipam_controller_base.Store.Memory.{memory}
use f5_ipam_controller_base.Orchestration.Resource.{spec_request}
use f5_ipam_controller_base.Orchestration.Memory.{find, memory_cluster, memory-IsCluster}
use f5_ipam_controller_base.System.{System, deliver}
use f5_ipam_controller_base.System.Order.{answer_to}
use f5_ipam_controller_base.System.Effects.{DistinctTargets}
use f5_ipam_controller_base.System.Confluent.{
  Drains, drained, next, AllMapped, shown, deliveries-agree,
}
use f5_ipam_controller_base.Examples.Pools.{filled}
use f5_ipam_controller_base.Examples.Resources.{resource, host}

abbrev iterate : List HostSpec → List HostSpec
iterate l = l

abbrev pub named : F5Ipam
named = resource (host (text "a.com") ∷ host (text "b.com") ∷ []) []

abbrev pub answered : Text → Text → IpamResponse
answered name ip = answer_to create_op (spec_request create_op named (host name)) ip

abbrev waiting : System (List F5Ipam)
waiting = record {
  queue = [];
  sending = [];
  provider = filled;
  answers =
      answered (text "a.com") (text "10.0.0.1") ∷ answered (text "b.com") (text "10.0.0.2") ∷ [];
  world = named ∷ [];
}

abbrev in_turn : System (List F5Ipam)
in_turn = deliver memory memory_cluster iterate (answered (text "b.com") (text "10.0.0.2")) [] (
    deliver memory memory_cluster iterate (answered (text "a.com") (text "10.0.0.1"))
      (answered (text "b.com") (text "10.0.0.2") ∷ []) waiting)

abbrev crossed : System (List F5Ipam)
crossed = deliver memory memory_cluster iterate (answered (text "a.com") (text "10.0.0.1")) [] (
    deliver memory memory_cluster iterate (answered (text "b.com") (text "10.0.0.2"))
      (answered (text "a.com") (text "10.0.0.1") ∷ []) waiting)

in_turn-Drains : Drains memory memory_cluster iterate in_turn waiting
unfolding deliver
in_turn-Drains =
    next _ [] (answered (text "b.com") (text "10.0.0.2") ∷ []) refl (next _ [] [] refl drained)

crossed-Drains : Drains memory memory_cluster iterate crossed waiting
unfolding deliver
crossed-Drains =
    next _ (answered (text "a.com") (text "10.0.0.1") ∷ []) [] refl (next _ [] [] refl drained)

waiting-AllMapped : AllMapped memory_cluster find memory-IsCluster waiting.world
unfolding find
waiting-AllMapped n m r there = ground arith

waiting-DistinctTargets : DistinctTargets waiting.answers
unfolding text_eq
waiting-DistinctTargets = ((refl, tt), (tt, tt))

answers-empty : (in_turn.answers ≡ []) × (crossed.answers ≡ [])
unfolding deliver
answers-empty = (refl, refl)

deliveries-agree_example :
    shown memory_cluster find memory-IsCluster in_turn.world
      (text "kube-system")
      (text "crd")
      (text "b.com")
      (text "10.0.0.0/24")
    ≡ shown memory_cluster find memory-IsCluster crossed.world
        (text "kube-system")
        (text "crd")
        (text "b.com")
        (text "10.0.0.0/24")
deliveries-agree_example =
    deliveries-agree memory_cluster find memory-IsCluster memory iterate waiting in_turn crossed
      (text "kube-system") (text "crd") (text "b.com") (text "10.0.0.0/24") waiting-AllMapped
      waiting-DistinctTargets in_turn-Drains crossed-Drains answers-empty.0 answers-empty.1
