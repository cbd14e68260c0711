-- ===== src/Examples/Nils.antt =====
-- A resource with a nil pointer behind a host spec, and one without.
use f5_ipam_controller_base.Base.{◌≡◌, refl, true, false, none, some, List, [], ◌∷◌, ◌++◌, map}
use f5_ipam_controller_base.Base.Text.{text}
use f5_ipam_controller_base.Fic.{HostSpec, IpSpec}
use f5_ipam_controller_base.Ipamspec.{create_op, delete_op}
use f5_ipam_controller_base.Orchestration.Resource.{RqKey, status_request, spec_request, update_op}
use f5_ipam_controller_base.Orchestration.Nils.{PointerIpam, send_requests, bare, send_requests-nil}
use f5_ipam_controller_base.Examples.Resources.{before}

abbrev iterate : List HostSpec → List HostSpec
iterate l = l

abbrev entries : List IpSpec
entries = record { host = text "a.com"; cidr = text "10.0.0.0/24"; ip = text "10.0.0.1" } ∷ []

abbrev specs : List HostSpec
specs = record { host = text "b.com"; cidr = text "10.0.0.0/24" } ∷ []

abbrev holed : PointerIpam
holed = record {
  name = text "crd";
  namespace = text "kube-system";
  host_specs = map some specs ++ none ∷ [];
  ip_status = map some entries;
}

abbrev key : RqKey
key = record { rsc = before; old_rsc = none; operation = create_op }

send_requests-nil_example :
    (send_requests iterate (record { rsc = holed; old_rsc = none; operation = create_op }) ≡ (
      map (status_request create_op (bare holed)) entries
          ++ map (spec_request create_op (bare holed)) specs,
      false,
    ))
    × (send_requests iterate (record { rsc = holed; old_rsc = none; operation = delete_op })
        ≡ (map (status_request delete_op (bare holed)) entries, true))
    × (send_requests iterate (record { rsc = holed; old_rsc = some holed; operation = update_op })
        ≡ ([], false))
send_requests-nil_example = send_requests-nil iterate holed holed entries specs [] refl refl
