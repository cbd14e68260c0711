-- ===== src/System/Traffic.antt =====
-- The messages on their way between the workers and the loop, in every state of the system.
use f5_ipam_controller_base.Base.{
  ◌≡◌, refl, subst, ◌↔◌, inl, inr, Option, none, some, List, [], ◌∷◌, ◌++◌, In, All, Bool-cases,
}
use f5_ipam_controller_base.Base.Text.{text_eq, is_empty}
use f5_ipam_controller_base.Fic.{HostSpec, F5Ipam}
use f5_ipam_controller_base.Ipamspec.{IpamRequest, IpamResponse, create_op, delete_op}
use f5_ipam_controller_base.Store.Engine.{Sqlite}
use f5_ipam_controller_base.Provider.Ranges.{Provider}
use f5_ipam_controller_base.Manager.{Manager, ipam_manager}
use f5_ipam_controller_base.Machinery.Client.{RestClient}
use f5_ipam_controller_base.Controller
use f5_ipam_controller_base.Orchestration.Resource.{RqKey}
use f5_ipam_controller_base.System.{
  System, Step, observes, takes, serves, delivers, changes, Reach, start, later, take_key, begin,
  serve, deliver, new_system,
}
use f5_ipam_controller_base.System.Quoted.{Some-inj}
use f5_ipam_controller_base.System.Typed.{
  IsTyped, IsTypedKey, AllTyped, process_resource-AllTyped, Event-IsTyped,
}

-- A response, if there is one, is to the request.
abbrev IsTo : IpamRequest → Option IpamResponse → Type 0
IsTo req none = Unit
IsTo req (some resp) = resp.request ≡ req

module _ {S : Type 0} (m : Manager S) (req : IpamRequest) (s : S) where
  create_asked-IsTo : IsTo req (Controller.create_asked m req s).1
  unfolding Controller.create_asked
  create_asked-IsTo = elim (Bool-cases (m.allocate_ip_address req.cidr req.ip_addr s).1) [
    | inl taken ↦ rw taken refl
    | inr refused ↦ rw refused refl
  ]

  create_next-IsTo : IsTo req (Controller.create_next m req s).1
  unfolding Controller.create_next
  create_next-IsTo = elim (Bool-cases (is_empty (m.get_next_ip_address req.cidr s).1)) [
    | inl missing ↦ rw missing tt
    | inr there ↦ rw there refl
  ]

module _ {S : Type 0} (m : Manager S) (req : IpamRequest) (s : S) where
  create_any-IsTo : IsTo req (Controller.create_any m req s).1
  unfolding Controller.create_any
  create_any-IsTo = elim (Bool-cases (is_empty (m.get_ip_address req.host_name s).1)) [
    | inl unknown ↦ rw unknown (create_next-IsTo m req (m.get_ip_address req.host_name s).0)
    | inr known ↦ rw known refl
  ]

  delete-IsTo : IsTo req (Controller.delete m req s).1
  unfolding Controller.delete
  delete-IsTo = elim (Bool-cases (is_empty (m.get_ip_address req.host_name s).1)) [
    | inl unknown ↦ rw unknown refl
    | inr known ↦ rw known refl
  ]

  handle-IsTo : IsTo req (Controller.handle m req s).1
  unfolding Controller.handle
  handle-IsTo = elim (Bool-cases (text_eq req.operation create_op)) [
    | inl creates ↦ rw creates (elim (Bool-cases (is_empty req.ip_addr)) [
      | inl any ↦ rw any create_any-IsTo
      | inr asked ↦ rw asked (create_asked-IsTo m req s)
    ])
    | inr other ↦ rw other (elim (Bool-cases (text_eq req.operation delete_op)) [
      | inl deletes ↦ rw deletes delete-IsTo
      | inr unknown ↦ rw unknown tt
    ])
  ]

-- All that is on its way is typed.
pub record IsTypedSystem {W : Type 0} (p : F5Ipam → Type 0) (s : System W) : Type 0 where
  pub queue : All (IsTypedKey p) s.queue
  pub sending : All (IsTyped p) s.sending
  pub answers : All (λ resp. IsTyped p resp.request) s.answers

module _ {A : Type 0} (P : A → Type 0) where
  All-take : (x : A) (before after : List A) → All P (before ++ x ∷ after) → All P (before ++ after)
  All-take x [] after h = h.1
  All-take x (y ∷ before) after h = (h.0, All-take x before after h.1)

module _ {W : Type 0} (e : Sqlite) (rest : RestClient W) (iterate : List HostSpec → List HostSpec)
    (complete : (s : HostSpec) (l : List HostSpec) → In s (iterate l) ↔ In s l)
    (p : F5Ipam → Type 0) (others : W → W → Type 0) where
  sent-IsTyped :
      (req : IpamRequest) (made : Option IpamResponse) (waiting : List IpamResponse)
      → IsTyped p req
      → IsTo req made
      → All (λ resp. IsTyped p resp.request) waiting
      → All (λ resp. IsTyped p resp.request) (Controller.sent (ipam_manager e) made waiting)
  sent-IsTyped req none waiting t is_to all = all
  sent-IsTyped req (some resp) waiting t is_to all = (rw is_to t, all)

  begin-IsTyped :
      (keys : List RqKey) (s t : System W) (made : Option (List IpamRequest))
      → All (IsTypedKey p) keys
      → AllTyped p made
      → IsTypedSystem p s
      → begin keys s made ≡ some t
      → IsTypedSystem p t
  unfolding begin
  begin-IsTyped keys s t none ks ts x h = cc
  begin-IsTyped keys s t (some reqs) ks ts x h =
      Some-inj (IsTypedSystem p) _ t h (record { queue = ks; sending = ts; answers = x.answers })

  Step-IsTyped :
      {s t : System W} → Step e rest iterate p others s t → IsTypedSystem p s → IsTypedSystem p t
  unfolding take_key serve deliver
  Step-IsTyped (observes event) x = record {
    queue = Event-IsTyped p event x.queue;
    sending = x.sending;
    answers = x.answers;
  }
  Step-IsTyped {s} {t} (takes key keys at idle h) x =
      let ks : All (IsTypedKey p) (key ∷ keys) = subst (All (IsTypedKey p)) at x.queue in
      begin-IsTyped keys s t _ ks.1 (process_resource-AllTyped p iterate complete key ks.0) x h
  Step-IsTyped {s} (serves req reqs at) x =
      let ts : All (IsTyped p) (req ∷ reqs) = subst (All (IsTyped p)) at x.sending in
      record {
        queue = x.queue;
        sending = ts.1;
        answers =
            sent-IsTyped req _ s.answers ts.0 (handle-IsTo (ipam_manager e) req s.provider)
              x.answers;
      }
  Step-IsTyped (delivers resp before after at) x = record {
    queue = x.queue;
    sending = x.sending;
    answers =
        All-take (λ (r : IpamResponse). IsTyped p r.request) resp before after
          (subst (All (λ (r : IpamResponse). IsTyped p r.request)) at x.answers);
  }
  Step-IsTyped (changes w h) x = record {
    queue = x.queue;
    sending = x.sending;
    answers = x.answers;
  }

  Reach-IsTyped :
      {s t : System W} → Reach e rest iterate p others s t → IsTypedSystem p s → IsTypedSystem p t
  Reach-IsTyped start x = x
  Reach-IsTyped (later r step) x = Step-IsTyped step (Reach-IsTyped r x)

  -- Whichever statements and REST calls fail, whatever other clients do to the cluster and in whatever
  -- order maps are ranged over: each request that waits for the loop and each response that waits for
  -- its delivery is a CREATE or a DELETE, has the name and the namespace of a resource that an
  -- informer has seen, and the host and the CIDR of a host spec or a status entry of such a resource.
  pub started-IsTyped :
      (prov : Provider) (w : W) (s : System W)
      → Reach e rest iterate p others (new_system prov w) s
      → All (IsTyped p) s.sending × All (λ resp. IsTyped p resp.request) s.answers
  unfolding new_system
  started-IsTyped prov w s r =
      let x = Reach-IsTyped r (record { queue = tt; sending = tt; answers = tt }) in
      (x.sending, x.answers)
