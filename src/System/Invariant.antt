-- ===== src/System/Invariant.antt =====
-- What holds of the provider in every state that the system can reach.
use f5_ipam_controller_base.Base.{◌≡◌, subst, ◌↔◌, Option, none, some, List, ◌∷◌, In, All}
use f5_ipam_controller_base.Fic.{HostSpec}
use f5_ipam_controller_base.Ipamspec.{IpamRequest}
use f5_ipam_controller_base.Store.Engine.{Sqlite}
use f5_ipam_controller_base.Provider.Ranges.{Provider}
use f5_ipam_controller_base.Manager.{ipam_manager}
use f5_ipam_controller_base.Machinery.Client.{RestClient}
use f5_ipam_controller_base.Controller
use f5_ipam_controller_base.Controller.Serve.{IsQuoted}
use f5_ipam_controller_base.Orchestration.Resource.{RqKey}
use f5_ipam_controller_base.System.{
  System, Step, observes, takes, serves, delivers, changes, Reach, start, later, take_key, begin,
  serve, deliver, new_system,
}
use f5_ipam_controller_base.System.Quoted.{
  IsQuotedResource, IsQuotedKey, process_resource-AllQuoted, AllQuoted, Some-inj, Event-IsQuoted,
}

-- Nothing waits whose texts a statement cannot quote.
pub record IsQuotedSystem {W : Type 0} (s : System W) : Type 0 where
  pub queue : All IsQuotedKey s.queue
  pub sending : All IsQuoted s.sending

module _ {W : Type 0} (e : Sqlite) (rest : RestClient W) (iterate : List HostSpec → List HostSpec)
    (complete : (s : HostSpec) (l : List HostSpec) → In s (iterate l) ↔ In s l)
    (others : W → W → Type 0) where
  -- What the loop keeps for each request that a statement can quote, no step of the system ends.
  module _ (p : Provider → Type 0)
      (kept : (req : IpamRequest) (prov : Provider)
        → IsQuoted req
        → p prov
        → p (Controller.handle (ipam_manager e) req prov).0) where
    begin-holds :
        (rest_keys : List RqKey) (s t : System W) (made : Option (List IpamRequest))
        → All IsQuotedKey rest_keys
        → AllQuoted made
        → p s.provider
        → begin rest_keys s made ≡ some t
        → IsQuotedSystem t × p t.provider
    unfolding begin
    begin-holds rest_keys s t none qs q x h = cc
    begin-holds rest_keys s t (some reqs) qs q x h =
        Some-inj (λ u. IsQuotedSystem u × p u.provider) _ t h
          (record { queue = qs; sending = q }, x)

    Step-holds :
        {s t : System W}
        → Step e rest iterate IsQuotedResource others s t
        → IsQuotedSystem s × p s.provider
        → IsQuotedSystem t × p t.provider
    unfolding take_key serve deliver
    Step-holds (observes event) (q, x) =
        (record { queue = Event-IsQuoted event q.queue; sending = q.sending }, x)
    Step-holds {s} {t} (takes key rest_keys at idle h) (q, x) =
        let qs : All IsQuotedKey (key ∷ rest_keys) = subst (All IsQuotedKey) at q.queue in
        begin-holds rest_keys s t _ qs.1 (process_resource-AllQuoted iterate complete key qs.0) x h
    Step-holds {s} (serves req rest_reqs at) (q, x) =
        let qs : All IsQuoted (req ∷ rest_reqs) = subst (All IsQuoted) at q.sending in
        (record { queue = q.queue; sending = qs.1 }, kept req s.provider qs.0 x)
    Step-holds (delivers resp before after at) (q, x) =
        (record { queue = q.queue; sending = q.sending }, x)
    Step-holds (changes w h) (q, x) = (record { queue = q.queue; sending = q.sending }, x)

    pub Reach-holds :
        {s t : System W}
        → Reach e rest iterate IsQuotedResource others s t
        → IsQuotedSystem s × p s.provider
        → IsQuotedSystem t × p t.provider
    Reach-holds start h = h
    Reach-holds (later r step) h = Step-holds step (Reach-holds r h)

    -- The same from where nothing is on its way yet.
    pub started-holds :
        {prov : Provider} (w : W) {t : System W}
        → Reach e rest iterate IsQuotedResource others (new_system prov w) t
        → p prov
        → p t.provider
    unfolding new_system
    started-holds w r x = (Reach-holds r (record { queue = tt; sending = tt }, x)).1
