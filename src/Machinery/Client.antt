-- ===== src/Machinery/Client.antt =====
-- pkg/ipammachinery/client.go: the verbs of IPAMClient, over any REST client.
use f5_ipam_controller_base.Base.{ℕ, List, [], Bool, Option, none, some}
use f5_ipam_controller_base.Base.Text.{Text, text}
use f5_ipam_controller_base.Fic.{F5Ipam}

pub data Verb : Type 0 where
  post put get delete patch : Verb

-- What the chained calls of the REST client put together.
pub record RestRequest : Type 0 where
  pub verb : Verb
  pub namespace : Text
  pub resource : Text
  pub name : Option Text
  pub sub_resources : List Text
  pub params : List (Text × Text)
  pub timeout : ℕ
  pub body : Option F5Ipam
  pub bytes : Option Text

-- `do` sends a request to the cluster `W`: the cluster after it, the object decoded by Into (as it is
-- where nothing is decoded), and whether there was no error. The parameters are options that the codec
-- of the scheme has encoded, a timeout is in seconds, and `bytes` is a body that is no object.
pub record RestClient (W : Type 0) : Type 0 where
  pub send : RestRequest → W → W × F5Ipam × Bool
  pub send_list : RestRequest → W → W × List F5Ipam × Bool

abbrev pub resource_name : Text
resource_name = text "f5ipams"

abbrev pub create_request : Text → F5Ipam → RestRequest
create_request ns obj = record {
  verb = post;
  namespace = ns;
  resource = resource_name;
  name = none;
  sub_resources = [];
  params = [];
  timeout = 0;
  body = some obj;
  bytes = none;
}

abbrev pub update_request : Text → F5Ipam → RestRequest
update_request ns obj = record {
  verb = put;
  namespace = ns;
  resource = resource_name;
  name = some obj.name;
  sub_resources = [];
  params = [];
  timeout = 0;
  body = some obj;
  bytes = none;
}

abbrev pub delete_request : Text → Text → RestRequest
delete_request ns name = record {
  verb = delete;
  namespace = ns;
  resource = resource_name;
  name = some name;
  sub_resources = [];
  params = [];
  timeout = 0;
  body = none;
  bytes = none;
}

abbrev pub get_request : Text → Text → RestRequest
get_request ns name = record {
  verb = get;
  namespace = ns;
  resource = resource_name;
  name = some name;
  sub_resources = [];
  params = [];
  timeout = 0;
  body = none;
  bytes = none;
}

module _ {W : Type 0} (rest : RestClient W) where
  unfoldable pub client_create : Text → F5Ipam → W → W × F5Ipam × Bool
  client_create ns obj = rest.send (create_request ns obj)

  unfoldable pub client_update : Text → F5Ipam → W → W × F5Ipam × Bool
  client_update ns obj = rest.send (update_request ns obj)

  -- The delete options of the source are the request's body, which carries no object.
  unfoldable pub client_delete : Text → Text → W → W × Bool
  client_delete ns name w = let (w', obj, ok) = rest.send (delete_request ns name) w in (w', ok)

  unfoldable pub client_get : Text → Text → W → W × F5Ipam × Bool
  client_get ns name = rest.send (get_request ns name)
