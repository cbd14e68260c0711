-- ===== src/System/First.antt =====
-- A resource that is new to the cluster, from its event to its status.
use f5_ipam_controller_base.Base.{◌≡◌, refl, ap, subst, ◌∙◌, Option, some, none, List, [], ◌∷◌}
use f5_ipam_controller_base.Base.Text.{Text, text_eq}
use f5_ipam_controller_base.Fic.{HostSpec, IpSpec, F5Ipam}
use f5_ipam_controller_base.Ipamspec.{IpamRequest, IpamResponse, create_op}
use f5_ipam_controller_base.Store.Engine.{Sqlite, IsSqlite, NeverFails}
use f5_ipam_controller_base.Store.Release.{Holds}
use f5_ipam_controller_base.Provider.Ranges.{Provider}
use f5_ipam_controller_base.Manager.{ipam_manager}
use f5_ipam_controller_base.Machinery.Client.{RestClient}
use f5_ipam_controller_base.Controller
use f5_ipam_controller_base.Controller.Answers.{Holds-append}
use f5_ipam_controller_base.Controller.First.{IsServable, served_by, handle-first}
use f5_ipam_controller_base.Orchestration.Resource.{
  RqKey, Object, enqueue_ipam, spec_request, process_resource,
}
use f5_ipam_controller_base.Orchestration.Response.{add_entry, with_status}
use f5_ipam_controller_base.Orchestration.Cluster.{IsCluster}
use f5_ipam_controller_base.System.{
  System, Step, observes, added, takes, serves, delivers, Reach, start, later, take_key, begin,
  serve, deliver,
}
use f5_ipam_controller_base.System.Rest.{IsAtRest}
use f5_ipam_controller_base.System.Order.{answer_to, stored-answer, created_status}

-- A resource with one host spec, and no status yet.
abbrev pub new_resource : Text → Text → HostSpec → F5Ipam
new_resource ns name spec = record {
  name = name;
  namespace = ns;
  spec = record { host_specs = spec ∷ [] };
  status = record { ip_status = [] };
}

abbrev pub entry_of : HostSpec → Text → IpSpec
entry_of spec ip = record { host = spec.host; cidr = spec.cidr; ip = ip }

-- A system that has come to rest.
abbrev pub resting : {W : Type 0} → Provider → W → System W
resting prov w = record { queue = []; sending = []; provider = prov; answers = []; world = w }

abbrev key_of : F5Ipam → RqKey
key_of r = record { rsc = r; old_rsc = none; operation = create_op }

module _ {W : Type 0} (e : Sqlite) (lawful : IsSqlite e) (sure : NeverFails e) (rest : RestClient W)
    (stored : W → Text → Text → Option F5Ipam) (cluster : IsCluster rest stored)
    (iterate : List HostSpec → List HostSpec) (p : F5Ipam → Type 0) (others : W → W → Type 0) where
  abbrev observed : Provider → W → F5Ipam → System W
  observed prov w r = record (resting prov w) { queue = key_of r ∷ [] }

  abbrev taken : Provider → W → IpamRequest → System W
  taken prov w req = record (resting prov w) { sending = req ∷ [] }

  first-taken :
      (ns name : Text) (spec : HostSpec) (prov : Provider) (w : W)
      → take_key e rest iterate
          (key_of (new_resource ns name spec))
          []
          (observed prov w (new_resource ns name spec))
        ≡ some (taken prov w (spec_request create_op (new_resource ns name spec) spec))
  unfolding take_key begin process_resource text_eq
  first-taken ns name spec prov w = refl

  first-observed :
      (r : F5Ipam) (prov : Provider) (w : W)
      → p r
      → Step e rest iterate p others (resting prov w) (observed prov w r)
  unfolding enqueue_ipam
  first-observed r prov w seen = observes (added (Object.resource r) seen refl)

  answered :
      (req : IpamRequest) (prov after : Provider) (resp : IpamResponse) (w : W)
      → Controller.handle (ipam_manager e) req prov ≡ (after, some resp)
      → serve e rest iterate req [] (taken prov w req)
        ≡ record (resting after w) { answers = resp ∷ [] }
  unfolding serve
  answered req prov after resp w h =
      ap
        (λ (x : Provider × Option IpamResponse). record (resting x.0 w) {
          answers = Controller.sent (ipam_manager e) x.1 [];
        })
        h

  served-reached :
      (ns name : Text) (spec : HostSpec) (prov : Provider) (w : W) (c : IsServable prov spec)
      → p (new_resource ns name spec)
      → Reach e rest iterate p others
          (resting prov w)
          (record (resting (served_by c.there.0 spec prov) w) {
            answers =
                answer_to create_op
                  (spec_request create_op (new_resource ns name spec) spec)
                  c.there.0.ipaddress
                ∷ [];
          })
  served-reached ns name spec prov w c seen =
      let r = new_resource ns name spec in
      let req = spec_request create_op r spec in
      subst (Reach e rest iterate p others (resting prov w))
        (answered req prov _ _ w (handle-first e lawful sure r spec prov c))
        (later
          (later (later start (first-observed r prov w seen))
            (takes (key_of r) [] refl refl (first-taken ns name spec prov w)))
          (serves req [] refl))

  -- Over an engine of which no statement fails: from a system at rest, where the cluster has a resource
  -- with one host spec and no status, the host has no address, and the spec's CIDR is one of the
  -- provider with a free row of an IPv4 address, the system can observe the resource and come to rest
  -- with that address in the resource's status and in an A record of the host.
  pub first-served :
      (ns name : Text) (spec : HostSpec) (prov : Provider) (w : W) (c : IsServable prov spec)
      → p (new_resource ns name spec)
      → stored w ns name ≡ some (new_resource ns name spec)
      → (t : System W) × Reach e rest iterate p others (resting prov w) t
        × IsAtRest t
        × (stored t.world ns name
            ≡ some
                (with_status (new_resource ns name spec) (entry_of spec c.there.0.ipaddress ∷ [])))
        × Holds c.there.0.ipaddress spec.host t.provider.store.records
  unfolding deliver add_entry
  first-served ns name spec prov w c seen there =
      let r = new_resource ns name spec in
      let req = spec_request create_op r spec in
      let resp = answer_to create_op req c.there.0.ipaddress in
      let waiting = record (resting (served_by c.there.0 spec prov) w) { answers = resp ∷ [] } in
      (
        deliver e rest iterate resp [] waiting,
        later (served-reached ns name spec prov w c seen) (delivers resp [] [] refl),
        record { queue = refl; sending = refl; answers = refl },
        stored-answer e rest stored cluster iterate p others create_op req c.there.0.ipaddress w r
              there
            ∙ ap (λ l. some (with_status r l)) (created_status req c.there.0.ipaddress []),
        Holds-append c.there.0.ipaddress spec.host prov.store.records,
      )
