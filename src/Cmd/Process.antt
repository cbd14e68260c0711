-- ===== src/Cmd/Process.antt =====
-- The controller from its start to its end: `Start` and `Stop` of pkg/controller/controller.go and of
-- pkg/orchestration/kuberntes.go, and what main does behind its signal. A goroutine is told by what it
-- works on at its start; request and response channels are of any types.
use f5_ipam_controller_base.Base.{
  ◌≡◌, refl, ap, Bool, true, false, Option, none, some, List, [], ◌∷◌, ◌++◌, map, In, inl, inr,
  In-append_left, In-append_right, if◌then◌else◌,
}
use f5_ipam_controller_base.Base.Text.{Text}
use f5_ipam_controller_base.Base.Maps.{Map, lookup}
use f5_ipam_controller_base.Factory.Once.{IsRange}
use f5_ipam_controller_base.Provider.Ranges.{Outcome, returns, panics}
use f5_ipam_controller_base.Clientset.Watching.{SharedIndexInformer}
use f5_ipam_controller_base.Machinery.Informers.{IpamClient, IpamInformer}
use f5_ipam_controller_base.Machinery.Setup.{
  Constructors, EventHandlers, k8s_event_handlers, new_ipam_client, default_namespace,
}
use f5_ipam_controller_base.Machinery.Made.{watcher}
use f5_ipam_controller_base.Machinery.Lifecycle.{
  start_client, stop_client, new_ipam_client-lifecycle,
}

module _ (C D : Type 0) where
  -- K8sIPAMClient without its queue; a channel that is not set is nil.
  pub record K8sIpamClient : Type 0 where
    pub ipam_cli : IpamClient EventHandlers
    pub req_chan : Option C
    pub resp_chan : Option D

  pub data Goroutine : Type 0 where
    informs : SharedIndexInformer EventHandlers → Goroutine
    resource_worker : Option C → Goroutine
    response_worker : Option D → Goroutine
    controller_loop : C → D → Goroutine

  -- Controller, with the pointer that its Orchestrator wraps and whether StopCh is open.
  pub record Controller : Type 0 where
    pub orchestrator : Option K8sIpamClient
    pub req_chan : C
    pub resp_chan : D
    pub stop_ch_open : Bool

-- Each informer of the client is closed.
abbrev pub AllClosed : IpamClient EventHandlers → Type 0
AllClosed c =
    (ns : Text) (inf : IpamInformer EventHandlers)
    → lookup ns c.ipam_informers ≡ some inf
    → inf.is_open ≡ false

module _ {C D : Type 0} where
  unfoldable pub new_controller : Option (K8sIpamClient C D) → C → D → Controller C D
  new_controller client requests responses = record {
    orchestrator = client;
    req_chan = requests;
    resp_chan = responses;
    stop_ch_open = true;
  }

  unfoldable pub setup_communication_channels : C → D → K8sIpamClient C D → K8sIpamClient C D
  setup_communication_channels requests responses k = record k {
    req_chan = some requests;
    resp_chan = some responses;
  }

  module _ (order : Map (IpamInformer EventHandlers) → Map (IpamInformer EventHandlers)) where
    -- `Start` of K8sIPAMClient, by the goroutines that it starts.
    unfoldable pub start_orchestrator : K8sIpamClient C D → List (Goroutine C D)
    start_orchestrator k =
        map informs (start_client order k.ipam_cli)
        ++ resource_worker k.req_chan ∷ response_worker k.resp_chan ∷ []

    -- `none` is a panic.
    unfoldable pub stop_orchestrator : K8sIpamClient C D → Option (K8sIpamClient C D)
    stop_orchestrator k = elim (stop_client order k.ipam_cli) [
      | none ↦ none
      | some cli ↦ some (record k { ipam_cli = cli })
    ]

    -- `Start` of Controller; the first method that is called on a nil client dereferences it.
    unfoldable pub start_controller :
        Controller C D → Outcome (Controller C D × List (Goroutine C D))
    unfolding start_orchestrator setup_communication_channels
    start_controller ctlr = elim ctlr.orchestrator [
      | none ↦ panics
      | some client ↦
          let k = setup_communication_channels ctlr.req_chan ctlr.resp_chan client in
          returns (
            record ctlr { orchestrator = some k },
            start_orchestrator k ++ controller_loop ctlr.req_chan ctlr.resp_chan ∷ [],
          )
    ]

    -- `Stop` of Controller.
    unfoldable pub stop_controller : Controller C D → Option (Controller C D)
    unfolding stop_orchestrator
    stop_controller ctlr = elim ctlr.orchestrator [
      | none ↦ none
      | some k ↦ elim (stop_orchestrator k) [
        | none ↦ none
        | some k' ↦ some (record ctlr { orchestrator = some k' })
      ]
    ]

    -- What main does when the signal came: Stop, and the close of its channel.
    unfoldable pub shut_down : Controller C D → Option (Controller C D)
    unfolding stop_controller
    shut_down ctlr = elim (stop_controller ctlr) [
      | none ↦ none
      | some ctlr' ↦
          if ctlr'.stop_ch_open then some (record ctlr' { stop_ch_open = false }) else none
    ]

  -- The goroutines work on the channels of the controller and on the namespaces of the client.
  pub record AreConnected (requests : C) (responses : D) (c : IpamClient EventHandlers)
      (gs : List (Goroutine C D)) : Type 0 where
    pub informers :
        (ns : Text) (inf : IpamInformer EventHandlers)
        → lookup ns c.ipam_informers ≡ some inf
        → In (informs (watcher ns k8s_event_handlers)) gs
    pub resources : In (resource_worker (some requests)) gs
    pub answers : In (response_worker (some responses)) gs
    pub loop : In (controller_loop requests responses) gs

In-map : {A B : Type 0} (f : A → B) (x : A) (xs : List A) → In x xs → In (f x) (map f xs)
In-map f x [] i = elim i [ ]
In-map f x (y ∷ xs) (inl e) = inl (ap f e)
In-map f x (y ∷ xs) (inr i) = inr (In-map f x xs i)

module _ {C D : Type 0} (iterate : List Text → List Text)
    (order : Map (IpamInformer EventHandlers) → Map (IpamInformer EventHandlers)) where
  shut_down-closes :
      (cli cli' : IpamClient EventHandlers) (requests : C) (responses : D)
      → stop_client order cli ≡ some cli'
      → shut_down order (record {
        orchestrator =
            some (record { ipam_cli = cli; req_chan = some requests; resp_chan = some responses });
        req_chan = requests;
        resp_chan = responses;
        stop_ch_open = true;
      })
        ≡ some (record {
          orchestrator =
              some
                (record { ipam_cli = cli'; req_chan = some requests; resp_chan = some responses });
          req_chan = requests;
          resp_chan = responses;
          stop_ch_open = false;
        })
  unfolding shut_down stop_controller stop_orchestrator
  shut_down-closes cli cli' requests responses stopped =
      rw (stopped, shut_down, stop_controller, stop_orchestrator) refl

  -- In whatever order Go ranges over its maps: of a nil client, Start of the controller panics. Of the
  -- client that NewIPAMK8SClient makes, it starts an informer for each namespace that the client
  -- watches, with the orchestrator's handlers, both workers on the controller's own channels, and the
  -- loop on the same two; and what main does behind its signal then closes each informer and the stop
  -- channel without a panic.
  pub start_controller-shut_down :
      (made : Constructors) (cli : IpamClient EventHandlers) (requests : C) (responses : D)
      → IsRange order
      → new_ipam_client iterate made (default_namespace ∷ []) k8s_event_handlers ≡ some cli
      → (start_controller order (new_controller none requests responses) ≡ panics)
        × ((ctlr : Controller C D) × (gs : List (Goroutine C D)) × (start_controller order (
                new_controller
                  (some (record { ipam_cli = cli; req_chan = none; resp_chan = none }))
                  requests
                  responses)
              ≡ returns (ctlr, gs))
            × AreConnected requests responses cli gs
            × ((end : Controller C D) × (k : K8sIpamClient C D) × (shut_down order ctlr ≡ some end)
                × (end.orchestrator ≡ some k)
                × AllClosed k.ipam_cli
                × (end.stop_ch_open ≡ false)))
  unfolding start_controller new_controller start_orchestrator setup_communication_channels
  start_controller-shut_down made cli requests responses range e =
      let (runs, (cli', stopped, closed)) =
        new_ipam_client-lifecycle iterate order made (default_namespace ∷ []) k8s_event_handlers cli
          range e in
      let shut = shut_down-closes cli cli' requests responses stopped in
      let informing : List (Goroutine C D) = map informs (start_client order cli) in
      let working : List (Goroutine C D) =
        resource_worker (some requests) ∷ response_worker (some responses) ∷ [] in
      let k : K8sIpamClient C D = record {
        ipam_cli = cli;
        req_chan = some requests;
        resp_chan = some responses;
      } in
      let ctlr : Controller C D = record {
        orchestrator = some k;
        req_chan = requests;
        resp_chan = responses;
        stop_ch_open = true;
      } in
      (
        refl,
        (
          ctlr,
          (informing ++ working) ++ controller_loop requests responses ∷ [],
          refl,
          record {
            informers = λ ns inf there. In-append_left _ (informing ++ working) _ (
                In-append_left _ informing working
                  (In-map informs _ (start_client order cli) (runs ns inf there)));
            resources =
                In-append_left _ (informing ++ working) _
                  (In-append_right _ informing working (inl refl));
            answers =
                In-append_left _ (informing ++ working) _
                  (In-append_right _ informing working (inr (inl refl)));
            loop = In-append_right _ (informing ++ working) _ (inl refl);
          },
          (
            record ctlr {
              orchestrator = some (record k { ipam_cli = cli' });
              stop_ch_open = false;
            },
            record k { ipam_cli = cli' },
            shut,
            refl,
            closed,
            refl,
          ),
        ),
      )
