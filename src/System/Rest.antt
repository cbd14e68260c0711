-- ===== src/System/Rest.antt =====
-- What the system comes to where no further event is observed.
use f5_ipam_controller_base.Base.{◌≡◌, refl, ap, ◌∙◌, Option, none, some, List, [], ◌∷◌, ◌++◌, All}
use f5_ipam_controller_base.Fic.{HostSpec, F5Ipam}
use f5_ipam_controller_base.Ipamspec.{IpamRequest, IpamResponse}
use f5_ipam_controller_base.Store.Engine.{Sqlite}
use f5_ipam_controller_base.Provider.Ranges.{Provider}
use f5_ipam_controller_base.Manager.{ipam_manager}
use f5_ipam_controller_base.Machinery.Client.{RestClient}
use f5_ipam_controller_base.Controller
use f5_ipam_controller_base.Orchestration.Resource.{RqKey, resource, tombstone, process_resource}
use f5_ipam_controller_base.System.Quoted.{Some-inj}
use f5_ipam_controller_base.System.{
  System, Event, added, updated, deleted, Step, observes, takes, serves, delivers, changes, Reach,
  start, later, take_key, begin, serve, deliver,
}

-- No resource is seen.
abbrev pub Unseen : F5Ipam → Type 0
Unseen r = ⊥

not_observed : {queue more : List RqKey} → ¬ Event Unseen queue more
not_observed (added (resource r) seen h) = seen
not_observed (added (tombstone r) seen h) = seen
not_observed (updated (resource r) cur seen seen' h) = seen
not_observed (updated (tombstone r) cur seen seen' h) = seen
not_observed (deleted (resource r) seen h) = seen
not_observed (deleted (tombstone r) seen h) = seen

-- Nothing is left to do.
pub record IsAtRest {W : Type 0} (s : System W) : Type 0 where
  pub queue : s.queue ≡ []
  pub sending : s.sending ≡ []
  pub answers : s.answers ≡ []

abbrev pub or_none : Option (List IpamRequest) → List IpamRequest
or_none none = []
or_none (some reqs) = reqs

module _ (iterate : List HostSpec → List HostSpec) where
  -- The worker does not panic on the key.
  abbrev pub IsReady : RqKey → Type 0
  IsReady key = (reqs : List IpamRequest) × (process_resource iterate key ≡ some reqs)

  abbrev pub requests_of : List RqKey → List IpamRequest
  requests_of [] = []
  requests_of (key ∷ keys) = or_none (process_resource iterate key) ++ requests_of keys

  -- The requests that are on their way, in the order of their arrival.
  abbrev pub pending : {W : Type 0} → System W → List IpamRequest
  pending s = s.sending ++ requests_of s.queue

module _ {W : Type 0} (e : Sqlite) (rest : RestClient W) (iterate : List HostSpec → List HostSpec)
    (p : F5Ipam → Type 0) (others : W → W → Type 0) where
  joined :
      {s t u : System W}
      → Reach e rest iterate p others s t
      → Reach e rest iterate p others t u
      → Reach e rest iterate p others s u
  joined r start = r
  joined r (later q step) = later (joined r q) step

  once : {s t : System W} → Step e rest iterate p others s t → Reach e rest iterate p others s t
  once step = later start step

  deliver_all :
      (resps : List IpamResponse) (s : System W)
      → s.answers ≡ resps
      → s.queue ≡ []
      → s.sending ≡ []
      → (t : System W) × Reach e rest iterate p others s t × IsAtRest t
  unfolding deliver
  deliver_all [] s h idle done = (s, start, record { queue = idle; sending = done; answers = h })
  deliver_all (resp ∷ resps) s h idle done =
      let (t, r, end) = deliver_all resps (deliver e rest iterate resp resps s) refl idle done in
      (t, joined (once (delivers resp [] resps h)) r, end)

  serve_all :
      (reqs : List IpamRequest) (s : System W)
      → s.sending ≡ reqs
      → (t : System W) × Reach e rest iterate p others s t × (t.sending ≡ []) × (t.queue ≡ s.queue)
  unfolding serve
  serve_all [] s h = (s, start, h, refl)
  serve_all (req ∷ reqs) s h =
      let (t, r, done, same) = serve_all reqs (serve e rest iterate req reqs s) refl in
      (t, joined (once (serves req reqs h)) r, done, same)

  work_off :
      (keys : List RqKey) (s : System W)
      → s.queue ≡ keys
      → s.sending ≡ []
      → All (IsReady iterate) keys
      → (t : System W) × Reach e rest iterate p others s t × (t.sending ≡ []) × (t.queue ≡ [])
  unfolding take_key begin
  work_off [] s h idle ready = (s, start, idle, h)
  work_off (key ∷ keys) s h idle ((reqs, made), ready) =
      let (t, r, done, same) = serve_all reqs (record s { queue = keys; sending = reqs }) refl in
      let (u, q, done', none_left) = work_off keys t same done ready in
      (
        u,
        joined (joined (once (takes key keys h idle (ap (begin keys s) made))) r) q,
        done',
        none_left,
      )

  -- From any state in which the worker panics on none of its keys, whatever is on its way and whichever
  -- statements fail, the system can come to rest: every key is processed, every request served and
  -- every response delivered. No event is needed for it, since `p` may hold of no resource.
  pub comes_to_rest :
      (s : System W)
      → All (IsReady iterate) s.queue
      → (t : System W) × Reach e rest iterate p others s t × IsAtRest t
  comes_to_rest s ready =
      let (t, r, done, same) = serve_all s.sending s refl in
      let (u, q, done', none_left) = work_off s.queue t same done ready in
      let (v, d, end) = deliver_all u.answers u refl none_left done' in
      (v, joined (joined r q) d, end)

module _ {W : Type 0} (e : Sqlite) (rest : RestClient W) (iterate : List HostSpec → List HostSpec)
    (others : W → W → Type 0) where
  -- The provider after all of them.
  abbrev pub outcome : System W → Provider
  outcome s = (Controller.run (ipam_manager e) (pending iterate s) s.provider).0

  outcome-begin :
      (keys : List RqKey) (s t : System W) (made : Option (List IpamRequest))
      → begin keys s made ≡ some t
      → outcome t
        ≡ (Controller.run (ipam_manager e) (or_none made ++ requests_of iterate keys) s.provider).0
  unfolding begin
  outcome-begin keys s t none h = cc
  outcome-begin keys s t (some reqs) h =
      Some-inj
        (λ u.
          outcome u
          ≡ (Controller.run (ipam_manager e) (reqs ++ requests_of iterate keys) s.provider).0)
        _ t h refl

  outcome-Step : {s t : System W} → Step e rest iterate Unseen others s t → outcome t ≡ outcome s
  unfolding take_key serve deliver Controller.run
  outcome-Step (observes event) = absurd (not_observed event)
  outcome-Step {s} {t} (takes key keys at idle h) = rw (idle, at) (outcome-begin keys s t _ h)
  outcome-Step (serves req reqs at) = rw at refl
  outcome-Step (delivers resp before after at) = refl
  outcome-Step (changes w h) = refl

  outcome-Reach : {s t : System W} → Reach e rest iterate Unseen others s t → outcome t ≡ outcome s
  outcome-Reach start = refl
  outcome-Reach (later r step) = outcome-Step step ∙ outcome-Reach r

  -- However the workers, the loop and the deliveries interleave, and whatever other clients do to the
  -- cluster: where the system has come to rest without a further event, its provider is the one that
  -- the loop makes of the pending requests one after another.
  pub at_rest-outcome :
      (s t : System W)
      → Reach e rest iterate Unseen others s t
      → IsAtRest t
      → t.provider ≡ (Controller.run (ipam_manager e) (pending iterate s) s.provider).0
  unfolding Controller.run
  at_rest-outcome s t r quiet = rw (← outcome-Reach r, quiet.sending, quiet.queue) refl
