-- ===== src/System.antt =====
-- The controller at work: the informers, the worker for resources, the loop of the controller, the
-- goroutines that each send one response, and the worker for responses, interleaved in any order.
-- The channels are not buffered. A round of the loop of the controller is one step with the receipt
-- of its request, since the worker that sends requests shares nothing with it.
pub mod Quoted
pub mod Invariant
pub mod Safety
pub mod Rest
pub mod Live
pub mod Order
pub mod First
pub mod Effects
pub mod Confluent
pub mod Typed
pub mod Traffic
use f5_ipam_controller_base.Base.{◌≡◌, Option, none, some, List, [], ◌∷◌, ◌++◌}
use f5_ipam_controller_base.Fic.{HostSpec, F5Ipam}
use f5_ipam_controller_base.Ipamspec.{IpamRequest, IpamResponse}
use f5_ipam_controller_base.Store.Engine.{Sqlite}
use f5_ipam_controller_base.Provider.Ranges.{Provider}
use f5_ipam_controller_base.Manager.{ipam_manager}
use f5_ipam_controller_base.Controller
use f5_ipam_controller_base.Machinery.Client.{RestClient}
use f5_ipam_controller_base.Orchestration.Resource.{
  RqKey, Object, resource, tombstone, enqueue_ipam, enqueue_updated_ipam, enqueue_deleted_ipam,
  process_resource,
}
use f5_ipam_controller_base.Orchestration.Response.{process_response}

pub record System (W : Type 0) : Type 0 where
  -- `rscQueue`
  pub queue : List RqKey
  -- what the worker has still to send for its key
  pub sending : List IpamRequest
  pub provider : Provider
  -- the responses of the goroutines that are still to send them
  pub answers : List IpamResponse
  -- the cluster
  pub world : W

-- `NewController`, with nothing on its channels, beside a queue that is empty.
unfoldable pub new_system : {W : Type 0} → Provider → W → System W
new_system prov w = record { queue = []; sending = []; provider = prov; answers = []; world = w }

abbrev pub Seen : (F5Ipam → Type 0) → Object → Type 0
Seen p (resource r) = p r
Seen p (tombstone r) = p r

-- An event of the informers, of resources with `p`. That a handler panics is no event.
pub data Event (p : F5Ipam → Type 0) (queue : List RqKey) : List RqKey → Type 0 where
  added :
      (obj : Object) {later : List RqKey}
      → Seen p obj
      → enqueue_ipam obj queue ≡ some later
      → Event p queue later
  updated :
      (old cur : Object) {later : List RqKey}
      → Seen p old
      → Seen p cur
      → enqueue_updated_ipam old cur queue ≡ some later
      → Event p queue later
  deleted :
      (obj : Object) {later : List RqKey}
      → Seen p obj
      → enqueue_deleted_ipam obj queue ≡ some later
      → Event p queue later

-- The worker has the requests of its key, which left the queue.
unfoldable pub begin :
    {W : Type 0} → List RqKey → System W → Option (List IpamRequest) → Option (System W)
begin later s none = none
begin later s (some reqs) = some (record s { queue = later; sending = reqs })

module _ {W : Type 0} (e : Sqlite) (rest : RestClient W)
    (iterate : List HostSpec → List HostSpec) where
  -- `customResourceWorker` takes the first key; `none` where `processResource` panics.
  unfoldable pub take_key : RqKey → List RqKey → System W → Option (System W)
  unfolding begin
  take_key key later s = begin later s (process_resource iterate key)

  -- `runController` receives the next request and serves it.
  unfoldable pub serve : IpamRequest → List IpamRequest → System W → System W
  serve req later s =
      let (prov, resp) = Controller.handle (ipam_manager e) req s.provider in
      record s {
        sending = later;
        provider = prov;
        answers = Controller.sent (ipam_manager e) resp s.answers;
      }

  -- `responseWorker` receives a response and processes it.
  unfoldable pub deliver : IpamResponse → List IpamResponse → System W → System W
  deliver resp others s = record s { answers = others; world = process_response rest resp s.world }

  module _ (p : F5Ipam → Type 0) (others : W → W → Type 0) where
    -- One step of the system, where `others` is what other clients do to the cluster.
    pub data Step (s : System W) : System W → Type 0 where
      observes : {queue : List RqKey} → Event p s.queue queue → Step s (record s { queue = queue })
      takes :
          (key : RqKey) (later : List RqKey) {t : System W}
          → s.queue ≡ key ∷ later
          → s.sending ≡ []
          → take_key key later s ≡ some t
          → Step s t
      serves :
          (req : IpamRequest) (later : List IpamRequest)
          → s.sending ≡ req ∷ later
          → Step s (serve req later s)
      delivers :
          (resp : IpamResponse) (before after : List IpamResponse)
          → s.answers ≡ before ++ resp ∷ after
          → Step s (deliver resp (before ++ after) s)
      changes : (w : W) → others s.world w → Step s (record s { world = w })

    -- What can come of a system.
    pub data Reach (s : System W) : System W → Type 0 where
      start : Reach s s
      later : {t u : System W} → Reach s t → Step t u → Reach s u
