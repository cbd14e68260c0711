-- ===== src/System/Live.antt =====
-- How the system comes to rest from what it can reach.
use f5_ipam_controller_base.Base.{
  ◌≡◌, refl, subst, Option, none, some, List, [], ◌∷◌, ◌++◌, All, All-append,
}
use f5_ipam_controller_base.Base.Text.{text_eq}
use f5_ipam_controller_base.Fic.{HostSpec, F5Ipam}
use f5_ipam_controller_base.Ipamspec.{IpamRequest, create_op, delete_op}
use f5_ipam_controller_base.Store.Engine.{Sqlite}
use f5_ipam_controller_base.Provider.Ranges.{Provider}
use f5_ipam_controller_base.Machinery.Client.{RestClient}
use f5_ipam_controller_base.Orchestration.Resource.{
  RqKey, resource, tombstone, enqueue_ipam, enqueue_updated_ipam, enqueue_deleted_ipam,
  process_resource, update_key, update_op,
}
use f5_ipam_controller_base.System.{
  System, Event, added, updated, deleted, Step, observes, takes, serves, delivers, changes, Reach,
  start, later, take_key, begin, serve, deliver, new_system,
}
use f5_ipam_controller_base.System.Quoted.{Some-inj}
use f5_ipam_controller_base.System.Rest.{IsReady, IsAtRest, Unseen, comes_to_rest}

module _ (iterate : List HostSpec → List HostSpec) where
  created-IsReady :
      (r : F5Ipam) → IsReady iterate (record { rsc = r; old_rsc = none; operation = create_op })
  unfolding process_resource text_eq
  created-IsReady r = (_, refl)

  deleted-IsReady :
      (r : F5Ipam) → IsReady iterate (record { rsc = r; old_rsc = none; operation = delete_op })
  unfolding process_resource text_eq
  deleted-IsReady r = (_, refl)

  updated-IsReady :
      (old r : F5Ipam)
      → IsReady iterate (record { rsc = r; old_rsc = some old; operation = update_op })
  unfolding process_resource text_eq update_key
  updated-IsReady old r = (_, refl)

  IsReady-last :
      (queue : List RqKey) (key : RqKey)
      → All (IsReady iterate) queue
      → IsReady iterate key
      → All (IsReady iterate) (queue ++ key ∷ [])
  IsReady-last queue key h k = All-append (IsReady iterate) queue (key ∷ []) h (k, tt)

  Event-IsReady :
      {p : F5Ipam → Type 0} {queue more : List RqKey}
      → Event p queue more
      → All (IsReady iterate) queue
      → All (IsReady iterate) more
  unfolding enqueue_ipam enqueue_updated_ipam enqueue_deleted_ipam
  Event-IsReady (added (resource r) seen h) k =
      Some-inj (All (IsReady iterate)) _ _ h (IsReady-last _ _ k (created-IsReady r))
  Event-IsReady (added (tombstone r) seen h) k = cc
  Event-IsReady (updated (resource o) (resource r) seen seen' h) k =
      Some-inj (All (IsReady iterate)) _ _ h (IsReady-last _ _ k (updated-IsReady o r))
  Event-IsReady (updated (resource o) (tombstone r) seen seen' h) k = cc
  Event-IsReady (updated (tombstone o) cur seen seen' h) k = cc
  Event-IsReady (deleted (resource r) seen h) k =
      Some-inj (All (IsReady iterate)) _ _ h (IsReady-last _ _ k (deleted-IsReady r))
  Event-IsReady (deleted (tombstone r) seen h) k = cc

  begin-IsReady :
      {W : Type 0} (keys : List RqKey) (s t : System W) (made : Option (List IpamRequest))
      → All (IsReady iterate) keys
      → begin keys s made ≡ some t
      → All (IsReady iterate) t.queue
  unfolding begin
  begin-IsReady keys s t none k h = cc
  begin-IsReady keys s t (some reqs) k h = Some-inj (λ u. All (IsReady iterate) u.queue) _ t h k

module _ {W : Type 0} (e : Sqlite) (rest : RestClient W) (iterate : List HostSpec → List HostSpec)
    (p : F5Ipam → Type 0) (others : W → W → Type 0) where
  Step-IsReady :
      {s t : System W}
      → Step e rest iterate p others s t
      → All (IsReady iterate) s.queue
      → All (IsReady iterate) t.queue
  unfolding take_key serve deliver
  Step-IsReady (observes event) k = Event-IsReady iterate event k
  Step-IsReady {s} {t} (takes key keys at idle h) k =
      let ks : All (IsReady iterate) (key ∷ keys) = subst (All (IsReady iterate)) at k in
      begin-IsReady iterate keys s t _ ks.1 h
  Step-IsReady (serves req reqs at) k = k
  Step-IsReady (delivers resp before after at) k = k
  Step-IsReady (changes w h) k = k

  Reach-IsReady :
      {s t : System W}
      → Reach e rest iterate p others s t
      → All (IsReady iterate) s.queue
      → All (IsReady iterate) t.queue
  Reach-IsReady start k = k
  Reach-IsReady (later r step) k = Step-IsReady step (Reach-IsReady r k)

  -- From every state that a new system can reach, in which no list holds a nil pointer, whichever
  -- statements fail and whatever is on its way, there are further steps, without a further event, after which every key is processed, every
  -- request served and every response delivered.
  pub started-comes_to_rest :
      (prov : Provider) (w : W) (s : System W)
      → Reach e rest iterate p others (new_system prov w) s
      → (t : System W) × Reach e rest iterate Unseen others s t × IsAtRest t
  unfolding new_system
  started-comes_to_rest prov w s r =
      comes_to_rest e rest iterate Unseen others s (Reach-IsReady r tt)
