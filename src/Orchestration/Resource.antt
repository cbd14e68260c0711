-- ===== src/Orchestration/Resource.antt =====
-- The queue of events and `processResource`. What the worker sends on the request channel is the
-- list of the requests in the order of sending.
use f5_ipam_controller_base.Base.{
  Bool, Option, none, some, List, [], ◌∷◌, ◌++◌, map, any, keep, not, if◌then◌else◌,
}
use f5_ipam_controller_base.Base.Text.{Text, text, text_eq}
use f5_ipam_controller_base.Fic.{HostSpec, IpSpec, F5Ipam, host_spec_eq}
use f5_ipam_controller_base.Ipamspec.{ResourceMeta, IpamRequest, create_op, delete_op}

abbrev pub update_op : Text
update_op = text "Update"

pub record RqKey : Type 0 where
  pub rsc : F5Ipam
  pub old_rsc : Option F5Ipam
  pub operation : Text

-- What the informer hands to a handler: a resource, or, for a deletion that it missed, a
-- DeletedFinalStateUnknown with the last state that it knows.
pub data Object : Type 0 where
  resource : F5Ipam → Object
  tombstone : F5Ipam → Object

-- The queue of keys; `none` is a panic, of a type assertion that fails.
unfoldable pub enqueue_ipam : Object → List RqKey → Option (List RqKey)
enqueue_ipam (resource r) queue =
    some (queue ++ record { rsc = r; old_rsc = none; operation = create_op } ∷ [])
enqueue_ipam (tombstone r) queue = none

unfoldable pub enqueue_updated_ipam : Object → Object → List RqKey → Option (List RqKey)
enqueue_updated_ipam (resource old) (resource cur) queue =
    some (queue ++ record { rsc = cur; old_rsc = some old; operation = update_op } ∷ [])
enqueue_updated_ipam _ _ queue = none

unfoldable pub enqueue_deleted_ipam : Object → List RqKey → Option (List RqKey)
enqueue_deleted_ipam (resource r) queue =
    some (queue ++ record { rsc = r; old_rsc = none; operation = delete_op } ∷ [])
enqueue_deleted_ipam (tombstone r) queue = none

abbrev pub meta_of : F5Ipam → ResourceMeta
meta_of r = record { name = r.name; namespace = r.namespace }

abbrev pub status_request : Text → F5Ipam → IpSpec → IpamRequest
status_request operation r s = record {
  metadata = meta_of r;
  host_name = s.host;
  cidr = s.cidr;
  ip_addr = s.ip;
  operation = operation;
}

abbrev pub spec_request : Text → F5Ipam → HostSpec → IpamRequest
spec_request operation r s = record {
  metadata = meta_of r;
  host_name = s.host;
  cidr = s.cidr;
  ip_addr = [];
  operation = operation;
}

abbrev pub in_set : HostSpec → List HostSpec → Bool
in_set s set = any (host_spec_eq s) set

-- The keys of a `specMap` after the loop that fills it.
unfoldable pub spec_set : List HostSpec → List HostSpec
spec_set [] = []
spec_set (s ∷ specs) = let rest = spec_set specs in if in_set s rest then rest else s ∷ rest

-- `iterate` is the order in which Go ranges over a map with the given keys.
module _ (iterate : List HostSpec → List HostSpec) where
  unfoldable pub process_update : F5Ipam → F5Ipam → List IpamRequest
  unfolding spec_set
  process_update old r =
      let old_set = spec_set old.spec.host_specs in
      let new_set = spec_set r.spec.host_specs in
      map (spec_request delete_op r) (keep (λ s. not (in_set s new_set)) (iterate old_set))
      ++ map (spec_request create_op r) (keep (λ s. not (in_set s old_set)) (iterate new_set))

  unfoldable pub update_key : Option F5Ipam → F5Ipam → Option (List IpamRequest)
  unfolding process_update
  update_key none r = none
  update_key (some old) r = some (process_update old r)

  -- The switch of `processResource` on the key; `none` is a nil dereference.
  unfoldable pub process_resource : RqKey → Option (List IpamRequest)
  unfolding update_key
  process_resource key =
      if text_eq key.operation create_op
      then some (
          map (status_request create_op key.rsc) key.rsc.status.ip_status
          ++ map (spec_request create_op key.rsc) key.rsc.spec.host_specs)
      else if text_eq key.operation delete_op
      then some (map (status_request delete_op key.rsc) key.rsc.status.ip_status)
      else if text_eq key.operation update_op
      then update_key key.old_rsc key.rsc
      else some []
