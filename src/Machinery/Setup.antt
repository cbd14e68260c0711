-- ===== src/Machinery/Setup.antt =====
-- pkg/ipammachinery/ipam.go and NewIPAMK8SClient of pkg/orchestration/kuberntes.go: how the clients are
-- made. Whether a constructor of client-go succeeds is a parameter.
use f5_ipam_controller_base.Base.{Bool, not, Option, none, some, List, [], ◌∷◌, any, if◌then◌else◌}
use f5_ipam_controller_base.Base.Text.{Text, text, text_eq}
use f5_ipam_controller_base.Provider.Ranges.{Outcome, returns, exits}
use f5_ipam_controller_base.Orchestration.Resource.{
  RqKey, Object, enqueue_ipam, enqueue_updated_ipam, enqueue_deleted_ipam,
}
use f5_ipam_controller_base.Machinery.Informers.{IpamClient, setup_informers}

pub data ClientError : Type 0 where
  no_kube_client no_resource_client no_rest_client : ClientError

-- Which of the constructors succeed.
pub record Constructors : Type 0 where
  pub config : Bool
  pub kube_client : Bool
  pub resource_client : Bool
  pub rest_client : Bool

-- `setupClients`; `none` is no error.
unfoldable pub setup_clients : Constructors → Option ClientError
setup_clients made =
    if not made.kube_client
    then some no_kube_client
    else if not made.resource_client
    then some no_resource_client
    else if not made.rest_client
    then some no_rest_client
    else none

-- The keys of the map of namespaces.
unfoldable pub namespace_keys : List Text → List Text
namespace_keys [] = []
namespace_keys (ns ∷ rest) =
    let keys = namespace_keys rest in if any (text_eq ns) keys then keys else ns ∷ keys

-- cache.ResourceEventHandlerFuncs over the queue of the orchestrator.
pub record EventHandlers : Type 0 where
  pub add_func : Object → List RqKey → Option (List RqKey)
  pub update_func : Object → Object → List RqKey → Option (List RqKey)
  pub delete_func : Object → List RqKey → Option (List RqKey)

-- The handlers of NewIPAMK8SClient.
unfoldable pub k8s_event_handlers : EventHandlers
k8s_event_handlers = record {
  add_func = enqueue_ipam;
  update_func = enqueue_updated_ipam;
  delete_func = enqueue_deleted_ipam;
}

abbrev pub default_namespace : Text
default_namespace = text "kube-system"

module _ (iterate : List Text → List Text) where
  -- `NewIPAMClient`; `none` is nil, and an error of the informers is logged only.
  unfoldable pub new_ipam_client :
      {H : Type 0} → Constructors → List Text → H → Option (IpamClient H)
  new_ipam_client made namespaces handlers = elim (setup_clients made) [
    | some err ↦ none
    | none ↦
        some
          (setup_informers (iterate (namespace_keys namespaces)) handlers
            (record { ipam_informers = []; namespaces = namespace_keys namespaces })).0
  ]

  -- `NewIPAMK8SClient`, by the IPAMClient that it holds: without a configuration it ends the process.
  unfoldable pub new_ipam_k8s_client : Constructors → Outcome (Option (IpamClient EventHandlers))
  unfolding new_ipam_client
  new_ipam_k8s_client made =
      if not made.config
      then exits
      else returns (new_ipam_client made (default_namespace ∷ []) k8s_event_handlers)
