-- ===== src/Ipamspec.antt =====
-- pkg/ipamspec/ipamspec.go: the messages between orchestrator and controller. `Metadata` is an
-- interface{} in the source; the orchestrator only ever puts its ResourceMeta into it
-- (pkg/orchestration/kuberntes.go).
use f5_ipam_controller_base.Base.{Bool}
use f5_ipam_controller_base.Base.Text.{Text, text}

abbrev pub create_op : Text
create_op = text "Create"

abbrev pub delete_op : Text
delete_op = text "Delete"

pub record ResourceMeta : Type 0 where
  pub name : Text
  pub namespace : Text

pub record IpamRequest : Type 0 where
  pub metadata : ResourceMeta
  pub host_name : Text
  pub cidr : Text
  pub ip_addr : Text
  pub operation : Text

pub record IpamResponse : Type 0 where
  pub request : IpamRequest
  pub ip_addr : Text
  pub status : Bool
