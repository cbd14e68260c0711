-- ===== src/Examples/Processing.antt =====
-- The controller from its start to its end at concrete inputs.
use f5_ipam_controller_base.Base.{◌≡◌, refl, true, false, List, [], ◌∷◌, none, some}
use f5_ipam_controller_base.Base.Text.{Text, text}
use f5_ipam_controller_base.Base.Maps.{Map}
use f5_ipam_controller_base.Provider.Ranges.{returns, panics}
use f5_ipam_controller_base.Machinery.Informers.{IpamClient, IpamInformer}
use f5_ipam_controller_base.Machinery.Setup.{
  Constructors, EventHandlers, k8s_event_handlers, new_ipam_client, default_namespace,
}
use f5_ipam_controller_base.Machinery.Made.{made_for}
use f5_ipam_controller_base.Cmd.Process.{
  K8sIpamClient, Controller, Goroutine, AreConnected, AllClosed, new_controller, start_controller,
  shut_down, start_controller-shut_down,
}

abbrev made : Constructors
made = record { config = true; kube_client = true; resource_client = true; rest_client = true }

abbrev iterate : List Text → List Text
iterate l = l

abbrev order : Map (IpamInformer EventHandlers) → Map (IpamInformer EventHandlers)
order m = m

abbrev watching : IpamClient EventHandlers
watching = record {
  ipam_informers = (default_namespace, made_for default_namespace k8s_event_handlers) ∷ [];
  namespaces = default_namespace ∷ [];
}

made-watching :
    new_ipam_client iterate made (default_namespace ∷ []) k8s_event_handlers ≡ some watching
unfolding new_ipam_client f5_ipam_controller_base.Machinery.Setup.setup_clients
    f5_ipam_controller_base.Machinery.Informers.setup_informers
    f5_ipam_controller_base.Machinery.Setup.namespace_keys
    f5_ipam_controller_base.Machinery.Informers.add_namespaced_informer
    f5_ipam_controller_base.Machinery.Informers.watching_all_namespaces
    f5_ipam_controller_base.Base.Maps.lookup f5_ipam_controller_base.Base.Maps.put
made-watching = refl

start_controller-shut_down_example :
    (start_controller order (new_controller none (text "requests") (text "responses")) ≡ panics)
    × ((ctlr : Controller Text Text) × (gs : List (Goroutine Text Text)) × (start_controller order (
            new_controller
              (some (record { ipam_cli = watching; req_chan = none; resp_chan = none }))
              (text "requests")
              (text "responses"))
          ≡ returns (ctlr, gs))
        × AreConnected (text "requests") (text "responses") watching gs
        × ((end : Controller Text Text) × (k : K8sIpamClient Text Text) × (shut_down order ctlr
              ≡ some end)
            × (end.orchestrator ≡ some k)
            × AllClosed k.ipam_cli
            × (end.stop_ch_open ≡ false)))
start_controller-shut_down_example =
    start_controller-shut_down iterate order made watching (text "requests") (text "responses")
      (λ x m. (λ h. h, λ h. h)) made-watching
