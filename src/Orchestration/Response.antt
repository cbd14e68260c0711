-- ===== src/Orchestration/Response.antt =====
-- `processResponse` of pkg/orchestration/kuberntes.go: one round of its loop, for one response.
use f5_ipam_controller_base.Base.{
  Bool, ◌&&◌, Option, none, some, List, [], ◌∷◌, ◌++◌, any, not, if◌then◌else◌,
}
use f5_ipam_controller_base.Base.Text.{Text, text_eq}
use f5_ipam_controller_base.Fic.{IpSpec, F5Ipam}
use f5_ipam_controller_base.Ipamspec.{IpamResponse, create_op, delete_op}
use f5_ipam_controller_base.Machinery.Client.{RestClient, client_get, client_update}

abbrev pub is_entry : Text → Text → IpSpec → Bool
is_entry host cidr s = text_eq s.host host && text_eq s.cidr cidr

-- The loop that sets the address of the entries of the host and CIDR.
unfoldable pub set_entries : Text → Text → Text → List IpSpec → List IpSpec
set_entries host cidr ip [] = []
set_entries host cidr ip (s ∷ specs) =
    (if is_entry host cidr s then record s { ip = ip } else s) ∷ set_entries host cidr ip specs

-- With an entry appended where none was found.
unfoldable pub add_entry : Text → Text → Text → List IpSpec → List IpSpec
unfolding set_entries
add_entry host cidr ip specs =
    if any (is_entry host cidr) specs
    then set_entries host cidr ip specs
    else set_entries host cidr ip specs ++ record { host = host; cidr = cidr; ip = ip } ∷ []

-- `index` is that of the last entry of the host and CIDR, which is cut out; `none` is -1.
unfoldable pub remove_entry : Text → Text → List IpSpec → Option (List IpSpec)
remove_entry host cidr [] = none
remove_entry host cidr (s ∷ specs) = elim (remove_entry host cidr specs) [
  | some rest ↦ some (s ∷ rest)
  | none ↦ if is_entry host cidr s then some specs else none
]

abbrev pub with_status : F5Ipam → List IpSpec → F5Ipam
with_status r specs = record r { status = record { ip_status = specs } }

module _ {W : Type 0} (rest : RestClient W) where
  -- A successful CREATE: an error of Get ends the round, one of Update is logged.
  unfoldable pub store_address : IpamResponse → W → W
  store_address resp w =
      let (w1, rsc, found) =
        client_get rest resp.request.metadata.namespace resp.request.metadata.name w in
      if not found
      then w1
      else (client_update rest rsc.namespace
          (with_status rsc
            (add_entry resp.request.host_name resp.request.cidr resp.ip_addr rsc.status.ip_status))
          w1).0

  update_removed : F5Ipam → Option (List IpSpec) → W → W
  update_removed rsc none w = w
  update_removed rsc (some specs) w = (client_update rest rsc.namespace (with_status rsc specs) w).0

  -- An error of Get is logged, and the round goes on with the object that Get left.
  unfoldable pub drop_address : IpamResponse → W → W
  unfolding update_removed
  drop_address resp w =
      let (w1, rsc, found) =
        client_get rest resp.request.metadata.namespace resp.request.metadata.name w in
      update_removed rsc
        (remove_entry resp.request.host_name resp.request.cidr rsc.status.ip_status) w1

  -- A failed CREATE falls through to the case of DELETE.
  unfoldable pub process_response : IpamResponse → W → W
  unfolding store_address drop_address
  process_response resp w =
      if text_eq resp.request.operation create_op
      then (if resp.status then store_address resp w else drop_address resp w)
      else if text_eq resp.request.operation delete_op
      then (if resp.status then drop_address resp w else w)
      else w

  -- The loop over the response channel.
  unfoldable pub process_responses : List IpamResponse → W → W
  unfolding process_response
  process_responses [] w = w
  process_responses (resp ∷ resps) w = process_responses resps (process_response resp w)
