-- ===== src/Clientset.antt =====
-- pkg/ipamapis/client/clientset/versioned/typed/fic/v1/f5ipam.go: the typed client of the F5IPAM
-- resources of a namespace, over any REST client. Options are what the codec of the scheme makes of
-- them, and a timeout of `none` is nil; Watch is in Clientset/Watching.
pub mod Lister
pub mod Fake
pub mod FakeSet
pub mod Selection
pub mod Configs
pub mod Limits
pub mod Watching
pub mod Schemes
pub mod Registered
use f5_ipam_controller_base.Base.{◌∷◌, ℕ, Bool, Option, none, some, List, []}
use f5_ipam_controller_base.Base.Text.{Text, text}
use f5_ipam_controller_base.Fic.{F5Ipam}
use f5_ipam_controller_base.Machinery.Client.{RestClient, RestRequest, Verb, resource_name}

abbrev pub Params : Type 0
Params = List (Text × Text)

abbrev pub seconds : Option ℕ → ℕ
seconds none = 0
seconds (some n) = n

-- The namespace and the resource that each method names first.
abbrev pub in_namespace : Verb → Text → RestRequest
in_namespace verb ns = record {
  verb = verb;
  namespace = ns;
  resource = resource_name;
  name = none;
  sub_resources = [];
  params = [];
  timeout = 0;
  body = none;
  bytes = none;
}

module _ {W : Type 0} (rest : RestClient W) (ns : Text) where
  unfoldable pub typed_get : Text → Params → W → W × F5Ipam × Bool
  typed_get name options =
      rest.send (record (in_namespace Verb.get ns) { name = some name; params = options })

  unfoldable pub typed_list : Params → Option ℕ → W → W × List F5Ipam × Bool
  typed_list options timeout_seconds =
      rest.send_list
        (record (in_namespace Verb.get ns) { params = options; timeout = seconds timeout_seconds })

  unfoldable pub typed_create : F5Ipam → W → W × F5Ipam × Bool
  typed_create obj = rest.send (record (in_namespace Verb.post ns) { body = some obj })

  unfoldable pub typed_update : F5Ipam → W → W × F5Ipam × Bool
  typed_update obj =
      rest.send (record (in_namespace Verb.put ns) { name = some obj.name; body = some obj })

  unfoldable pub typed_update_status : F5Ipam → W → W × F5Ipam × Bool
  typed_update_status obj = rest.send (record (in_namespace Verb.put ns) {
    name = some obj.name;
    sub_resources = text "status" ∷ [];
    body = some obj;
  })

  -- The delete options are a body that carries no object.
  unfoldable pub typed_delete : Text → W → W × Bool
  typed_delete name w =
      let (w', obj, ok) = rest.send (record (in_namespace Verb.delete ns) { name = some name }) w in
      (w', ok)

  unfoldable pub typed_delete_collection : Params → Option ℕ → W → W × Bool
  typed_delete_collection list_options timeout_seconds w =
      let (w', obj, ok) =
        rest.send
          (record (in_namespace Verb.delete ns) {
            params = list_options;
            timeout = seconds timeout_seconds;
          })
          w in
      (w', ok)

  -- The type of the patch is a header of the request, and headers are left out.
  unfoldable pub typed_patch : Text → Text → List Text → W → W × F5Ipam × Bool
  typed_patch name data_bytes subresources = rest.send (record (in_namespace Verb.patch ns) {
    name = some name;
    sub_resources = subresources;
    bytes = some data_bytes;
  })
