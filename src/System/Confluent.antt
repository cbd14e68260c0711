-- ===== src/System/Confluent.antt =====
-- Responses to different entries, in whatever order their goroutines deliver them.
use mathlib.Core.Option
use f5_ipam_controller_base.Base.{
  ◌≡◌, refl, ◌∙◌, sym, ap, subst, inl, inr, Option, none, some, List, [], ◌∷◌, ◌++◌, Bool-cases,
  Option-cases, if◌then◌else◌,
}
use f5_ipam_controller_base.Base.Text.{Text}
use f5_ipam_controller_base.Fic.{HostSpec, F5Ipam}
use f5_ipam_controller_base.Ipamspec.{IpamResponse}
use f5_ipam_controller_base.Store.Engine.{Sqlite}
use f5_ipam_controller_base.Machinery.Client.{RestClient}
use f5_ipam_controller_base.Orchestration.Response.{process_response}
use f5_ipam_controller_base.Orchestration.Entries.{address_of, IsMap, same_key}
use f5_ipam_controller_base.Orchestration.Cluster.{
  IsCluster, at_key, next_status, update_status, stored-process_response,
}
use f5_ipam_controller_base.Orchestration.Mapped.{
  verdict, next_status-IsMap, address_of-next_status,
}
use f5_ipam_controller_base.System.Effects.{
  DistinctTargets, effect, effects, effects-shift, DistinctTargets-take,
}
use f5_ipam_controller_base.System.{Reach, later, delivers, System, deliver}

-- What `t` is left with when the goroutines of a system deliver responses, one after the other.
module _ {W : Type 0} (e : Sqlite) (rest : RestClient W)
    (iterate : List HostSpec → List HostSpec) where
  pub data Drains (t : System W) : System W → Type 0 where
    drained : Drains t t
    next :
        (resp : IpamResponse) (before after : List IpamResponse) {s : System W}
        → s.answers ≡ before ++ resp ∷ after
        → Drains t (deliver e rest iterate resp (before ++ after) s)
        → Drains t s

  -- Deliveries are steps of the system.
  Reach-Drains :
      (p : F5Ipam → Type 0) (others : W → W → Type 0) (s : System W) {t u : System W}
      → Reach e rest iterate p others s u
      → Drains t u
      → Reach e rest iterate p others s t
  Reach-Drains p others s r drained = r
  Reach-Drains p others s r (next resp before after at d) =
      Reach-Drains p others s (later r (delivers resp before after at)) d

abbrev MappedIf : Option F5Ipam → Type 0
MappedIf none = Unit
MappedIf (some r) = IsMap r.status.ip_status

module _ {W : Type 0} (rest : RestClient W) (stored : W → Text → Text → Option F5Ipam)
    (cluster : IsCluster rest stored) where
  -- No status has two entries of one host and CIDR.
  abbrev pub AllMapped : W → Type 0
  AllMapped w = (n m : Text) (r : F5Ipam) → stored w n m ≡ some r → IsMap r.status.ip_status

  -- The address that the status of a resource has for a host and a CIDR, where the resource exists.
  abbrev pub shown : W → Text → Text → Text → Text → Option (Option Text)
  shown w n m h c = Option.map (λ r. address_of h c r.status.ip_status) (stored w n m)

  update_status-shown :
      (resp : IpamResponse) (h c : Text) (found : Option F5Ipam)
      → ((r : F5Ipam) → found ≡ some r → IsMap r.status.ip_status)
      → Option.map (λ r. address_of h c r.status.ip_status) (update_status (next_status resp) found)
        ≡ Option.map
            (λ old.
              if same_key resp.request.host_name resp.request.cidr h c
              then verdict resp old
              else old)
            (Option.map (λ (r : F5Ipam). address_of h c r.status.ip_status) found)
  update_status-shown resp h c none m = refl
  update_status-shown resp h c (some r) m =
      ap some (address_of-next_status resp h c r.status.ip_status (m r refl))

  shown-process_response :
      (resp : IpamResponse) (w : W) (n m h c : Text)
      → AllMapped w
      → shown (process_response rest resp w) n m h c ≡ effect n m h c resp (shown w n m h c)
  shown-process_response resp w n m h c mapped =
      let target = at_key resp.request.metadata.namespace resp.request.metadata.name n m in
      ap (Option.map (λ r. address_of h c r.status.ip_status))
        (stored-process_response rest stored cluster resp w n m)
      ∙ elim (Bool-cases target) [
        | inl at ↦ rw at (
            update_status-shown resp h c (stored w n m) (mapped n m)
            ∙ elim (Option-cases (shown w n m h c)) [
              | inl missing ↦ rw missing refl
              | inr (old, there) ↦ rw (there, at) refl
            ])
        | inr other ↦ elim (Option-cases (shown w n m h c)) [
          | inl missing ↦ rw (other, missing) refl
          | inr (old, there) ↦ rw (other, there, other) refl
        ]
      ]

  update_status-IsMap :
      (resp : IpamResponse) (found : Option F5Ipam) (r : F5Ipam)
      → ((r : F5Ipam) → found ≡ some r → IsMap r.status.ip_status)
      → update_status (next_status resp) found ≡ some r
      → IsMap r.status.ip_status
  update_status-IsMap resp none r m h = cc
  update_status-IsMap resp (some old) r m h =
      subst (λ (o : Option F5Ipam). MappedIf o) h
        (next_status-IsMap resp old.status.ip_status (m old refl))

  AllMapped-process_response :
      (resp : IpamResponse) (w : W) → AllMapped w → AllMapped (process_response rest resp w)
  AllMapped-process_response resp w mapped n m r there =
      let stored' = sym (stored-process_response rest stored cluster resp w n m) ∙ there in
      elim (Bool-cases (at_key resp.request.metadata.namespace resp.request.metadata.name n m)) [
        | inl at ↦ update_status-IsMap resp (stored w n m) r (mapped n m) (rw at at stored')
        | inr other ↦ mapped n m r (rw other at stored')
      ]

  module _ (e : Sqlite) (iterate : List HostSpec → List HostSpec) where
    shown-Drains :
        {t s : System W} (n m h c : Text)
        → Drains e rest iterate t s
        → AllMapped s.world
        → DistinctTargets s.answers
        → t.answers ≡ []
        → shown t.world n m h c ≡ effects n m h c s.answers (shown s.world n m h c)
    unfolding deliver
    shown-Drains n m h c drained mapped d empty = rw empty refl
    shown-Drains {s = s} n m h c (next resp before after at r) mapped d empty =
        let (first, others) = DistinctTargets-take resp before after (subst DistinctTargets at d) in
        shown-Drains n m h c r (AllMapped-process_response resp s.world mapped) others empty
        ∙ ap (effects n m h c (before ++ after))
            (shown-process_response resp s.world n m h c mapped)
        ∙ sym (effects-shift n m h c resp before after (shown s.world n m h c) first)
        ∙ ap (λ l. effects n m h c l (shown s.world n m h c)) (sym at)

    -- Where no two of the responses on their way are to one host and CIDR of one resource, and no
    -- status has two entries of one host and CIDR: however the goroutines deliver all of them, the
    -- cluster has in the end the same resources, with the same address for each host and CIDR.
    pub deliveries-agree :
        (s t u : System W) (n m h c : Text)
        → AllMapped s.world
        → DistinctTargets s.answers
        → Drains e rest iterate t s
        → Drains e rest iterate u s
        → t.answers ≡ []
        → u.answers ≡ []
        → shown t.world n m h c ≡ shown u.world n m h c
    deliveries-agree s t u n m h c mapped d r q et eu =
        shown-Drains n m h c r mapped d et ∙ sym (shown-Drains n m h c q mapped d eu)
