-- ===== src/Fic.antt =====
-- pkg/ipamapis/apis/fic/v1/types.go: the custom resource. Of the metadata only the name and the
-- namespace are kept, which is all that the controller reads. A slice of pointers is the list of what
-- the pointers lead to: the controller never shares one of them between two resources, and a nil one ends
-- the process, which Orchestration/Nils and Pointers have.
pub mod Copy
pub mod Disjoint
pub mod Grown
pub mod Listed
use f5_ipam_controller_base.Base.{List, [], Bool, ◌&&◌}
use f5_ipam_controller_base.Base.Text.{Text, text_eq}

pub record HostSpec : Type 0 where
  pub host : Text
  pub cidr : Text

pub record IpSpec : Type 0 where
  pub host : Text
  pub cidr : Text
  pub ip : Text

pub record F5IpamSpec : Type 0 where
  pub host_specs : List HostSpec

pub record F5IpamStatus : Type 0 where
  pub ip_status : List IpSpec

pub record F5Ipam : Type 0 where
  pub name : Text
  pub namespace : Text
  pub spec : F5IpamSpec
  pub status : F5IpamStatus

-- &v1.F5IPAM{}
abbrev pub zero_ipam : F5Ipam
zero_ipam = record {
  name = [];
  namespace = [];
  spec = record { host_specs = [] };
  status = record { ip_status = [] };
}

-- Equality of the structs, as the keys of a map.
unfoldable pub host_spec_eq : HostSpec → HostSpec → Bool
host_spec_eq a b = text_eq a.host b.host && text_eq a.cidr b.cidr
