-- ===== src/Orchestration/Nils.antt =====
-- `processResource` of pkg/orchestration/kuberntes.go on resources whose slices may hold nil pointers,
-- as a null in a list of the API server is read: each loop dereferences its element, and a nil one
-- ends the process behind the requests that were sent before.
use mathlib.Core.Path.{ap₂}
use f5_ipam_controller_base.Base.{
  ◌∙◌, ◌≡◌, refl, ap, Bool, true, false, Option, none, some, List, [], ◌∷◌, ◌++◌, map,
  if◌then◌else◌,
}
use f5_ipam_controller_base.Base.Text.{Text, text_eq}
use f5_ipam_controller_base.Fic.{HostSpec, IpSpec, F5Ipam}
use f5_ipam_controller_base.Ipamspec.{IpamRequest, create_op, delete_op}
use f5_ipam_controller_base.Orchestration.Resource.{
  RqKey, status_request, spec_request, process_update, update_op,
}

-- A resource with its two slices of pointers.
pub record PointerIpam : Type 0 where
  pub name : Text
  pub namespace : Text
  pub host_specs : List (Option HostSpec)
  pub ip_status : List (Option IpSpec)

pub record PointerKey : Type 0 where
  pub rsc : PointerIpam
  pub old_rsc : Option PointerIpam
  pub operation : Text

-- The resource that its requests are for, by its name and namespace.
abbrev pub bare : PointerIpam → F5Ipam
bare r = record {
  name = r.name;
  namespace = r.namespace;
  spec = record { host_specs = [] };
  status = record { ip_status = [] };
}

-- A loop that sends a request for each element: what is sent, and whether it comes to its end.
unfoldable pub send_each :
    {A : Type 0} → (A → IpamRequest) → List (Option A) → List IpamRequest × Bool
send_each request [] = ([], true)
send_each request (none ∷ xs) = ([], false)
send_each request (some x ∷ xs) =
    let (reqs, done) = send_each request xs in (request x ∷ reqs, done)

-- A second loop behind a first one.
abbrev pub and_send : List IpamRequest × Bool → List IpamRequest × Bool → List IpamRequest × Bool
and_send (reqs, true) (more, done) = (reqs ++ more, done)
and_send (reqs, false) rest = (reqs, false)

-- What the pointers lead to; `none` is the panic of a loop that dereferences all of them.
unfoldable pub pointees : {A : Type 0} → List (Option A) → Option (List A)
pointees [] = some []
pointees (none ∷ xs) = none
pointees (some x ∷ xs) = elim (pointees xs) [ none ↦ none | some ys ↦ some (x ∷ ys) ]

-- The resource without pointers.
abbrev pub resource_of : PointerIpam → List HostSpec → List IpSpec → F5Ipam
resource_of r specs entries = record {
  name = r.name;
  namespace = r.namespace;
  spec = record { host_specs = specs };
  status = record { ip_status = entries };
}

module _ (iterate : List HostSpec → List HostSpec) where
  -- The two sets are filled before anything is sent.
  abbrev pub send_update :
      PointerIpam → Option (List HostSpec) → Option (List HostSpec) → List IpamRequest × Bool
  send_update r (some old_specs) (some specs) =
      (process_update iterate (resource_of r old_specs []) (resource_of r specs []), true)
  send_update r _ _ = ([], false)

  abbrev pub send_changes : Option PointerIpam → PointerIpam → List IpamRequest × Bool
  send_changes none r = ([], false)
  send_changes (some old) r = send_update r (pointees old.host_specs) (pointees r.host_specs)

  -- The switch of `processResource`: the requests sent, and whether it comes to its end.
  unfoldable pub send_requests : PointerKey → List IpamRequest × Bool
  unfolding send_each pointees
  send_requests key =
      if text_eq key.operation create_op
      then and_send (send_each (status_request create_op (bare key.rsc)) key.rsc.ip_status)
          (send_each (spec_request create_op (bare key.rsc)) key.rsc.host_specs)
      else if text_eq key.operation delete_op
      then send_each (status_request delete_op (bare key.rsc)) key.rsc.ip_status
      else if text_eq key.operation update_op
      then send_changes key.old_rsc key.rsc
      else ([], true)

-- Slices without a nil pointer.
abbrev pub whole : F5Ipam → PointerIpam
whole r = record {
  name = r.name;
  namespace = r.namespace;
  host_specs = map some r.spec.host_specs;
  ip_status = map some r.status.ip_status;
}

abbrev whole_old : Option F5Ipam → Option PointerIpam
whole_old none = none
whole_old (some r) = some (whole r)

abbrev pub whole_key : RqKey → PointerKey
whole_key key = record {
  rsc = whole key.rsc;
  old_rsc = whole_old key.old_rsc;
  operation = key.operation;
}

-- The requests of a key, of which `none` is a panic that nothing was sent before.
abbrev pub sent : Option (List IpamRequest) → List IpamRequest × Bool
sent none = ([], false)
sent (some reqs) = (reqs, true)

module _ {A : Type 0} (request : A → IpamRequest) where
  send_each-whole : (xs : List A) → send_each request (map some xs) ≡ (map request xs, true)
  unfolding send_each
  send_each-whole [] = refl
  send_each-whole (x ∷ xs) =
      ap (λ (s : List IpamRequest × Bool). (request x ∷ s.0, s.1)) (send_each-whole xs)

  send_each-nil :
      (xs : List A) (rest : List (Option A))
      → send_each request (map some xs ++ none ∷ rest) ≡ (map request xs, false)
  unfolding send_each
  send_each-nil [] rest = refl
  send_each-nil (x ∷ xs) rest =
      ap (λ (s : List IpamRequest × Bool). (request x ∷ s.0, s.1)) (send_each-nil xs rest)

pub pointees-whole : {A : Type 0} (xs : List A) → pointees (map some xs) ≡ some xs
unfolding pointees
pointees-whole [] = refl
pointees-whole (x ∷ xs) = rw (pointees-whole xs) refl

pub pointees-nil :
    {A : Type 0} (xs : List A) (rest : List (Option A))
    → pointees (map some xs ++ none ∷ rest) ≡ none
unfolding pointees
pointees-nil [] rest = refl
pointees-nil (x ∷ xs) rest = rw (pointees-nil xs rest) refl

module _ (iterate : List HostSpec → List HostSpec) where
  update-nil :
      (r : PointerIpam) (old : Option (List HostSpec))
      → send_update iterate r old none ≡ ([], false)
  update-nil r none = refl
  update-nil r (some specs) = refl

  -- A nil pointer among the host specs, behind some that are not, of a resource whose status has none. A
  -- CREATE sends the requests of the status and of the host specs before it and panics then; a DELETE
  -- does not read it; and an UPDATE, from whatever resource, panics before it sends anything.
  pub send_requests-nil :
      (r old : PointerIpam) (entries : List IpSpec) (specs : List HostSpec)
      (rest : List (Option HostSpec))
      → r.ip_status ≡ map some entries
      → r.host_specs ≡ map some specs ++ none ∷ rest
      → (send_requests iterate (record { rsc = r; old_rsc = none; operation = create_op }) ≡ (
        map (status_request create_op (bare r)) entries
            ++ map (spec_request create_op (bare r)) specs,
        false,
      ))
        × (send_requests iterate (record { rsc = r; old_rsc = none; operation = delete_op })
            ≡ (map (status_request delete_op (bare r)) entries, true))
        × (send_requests iterate (record { rsc = r; old_rsc = some old; operation = update_op })
            ≡ ([], false))
  unfolding send_requests text_eq
  send_requests-nil r old entries specs rest status hosts = (
    ap₂ and_send
        (ap (send_each (status_request create_op (bare r))) status
          ∙ send_each-whole (status_request create_op (bare r)) entries)
        (ap (send_each (spec_request create_op (bare r))) hosts
          ∙ send_each-nil (spec_request create_op (bare r)) specs rest),
    ap (send_each (status_request delete_op (bare r))) status
        ∙ send_each-whole (status_request delete_op (bare r)) entries,
    ap (send_update iterate r (pointees old.host_specs))
          (ap pointees hosts ∙ pointees-nil specs rest)
        ∙ update-nil r (pointees old.host_specs),
  )
