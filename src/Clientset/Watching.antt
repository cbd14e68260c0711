-- ===== src/Clientset/Watching.antt =====
-- `Watch` of pkg/ipamapis/client/clientset/versioned/typed/fic/v1/f5ipam.go, and the listing and watching
-- of pkg/ipamapis/client/informers/externalversions/fic/v1/f5ipam.go, which tweaks the options first.
-- A watch.Interface with its error is of any type, and the codec of the scheme is a parameter.
use f5_ipam_controller_base.Base.{ℕ, Bool, true, Option, none, some, List, [], ◌∷◌, ◌++◌}
use f5_ipam_controller_base.Base.Text.{Text, text}
use f5_ipam_controller_base.Fic.{F5Ipam}
use f5_ipam_controller_base.Machinery.Client.{RestClient, RestRequest, Verb}
use f5_ipam_controller_base.Clientset.{Params, in_namespace, seconds, typed_list}

-- metav1.ListOptions.
pub record ListOptions : Type 0 where
  pub label_selector : Text
  pub field_selector : Text
  pub watch : Bool
  pub allow_watch_bookmarks : Bool
  pub resource_version : Text
  pub timeout_seconds : Option ℕ
  pub limit : ℕ
  pub continue_token : Text

abbrev pub Tweak : Type 0
Tweak = ListOptions → ListOptions

-- cache.NewSharedIndexInformer over the ListWatch of a namespace, and the handlers that were added to
-- it.
pub record SharedIndexInformer (H : Type 0) : Type 0 where
  pub namespace : Text
  pub tweak_list_options : Option Tweak
  pub resync_period : ℕ
  pub indexers : List Text
  pub handlers : List H

-- cache.NamespaceIndex, with MetaNamespaceIndexFunc.
abbrev pub namespace_index : Text
namespace_index = text "namespace"

module _ {H : Type 0} where
  unfoldable pub new_filtered_f5ipam_informer :
      Text → ℕ → List Text → Option Tweak → SharedIndexInformer H
  new_filtered_f5ipam_informer ns resync indexers tweak = record {
    namespace = ns;
    tweak_list_options = tweak;
    resync_period = resync;
    indexers = indexers;
    handlers = [];
  }

  unfoldable pub new_f5ipam_informer : Text → ℕ → List Text → SharedIndexInformer H
  unfolding new_filtered_f5ipam_informer
  new_f5ipam_informer ns resync indexers = new_filtered_f5ipam_informer ns resync indexers none

  -- `defaultInformer`, by the namespace and the tweak of the f5IPAMInformer; the client of the
  -- requests is the argument of `list_func` and `watch_func`.
  unfoldable pub default_informer : Text → Option Tweak → ℕ → SharedIndexInformer H
  unfolding new_filtered_f5ipam_informer
  default_informer ns tweak resync =
      new_filtered_f5ipam_informer ns resync (namespace_index ∷ []) tweak

  unfoldable pub add_event_handler : H → SharedIndexInformer H → SharedIndexInformer H
  add_event_handler handler i = record i { handlers = i.handlers ++ handler ∷ [] }

abbrev pub tweaked : Option Tweak → ListOptions → ListOptions
tweaked none options = options
tweaked (some tweak) options = tweak options

module _ {W : Type 0} (encode : ListOptions → Params) where
  -- `watch` of the client is what `Watch` makes of a request.
  unfoldable pub typed_watch : {X : Type 0} → (RestRequest → W → X) → Text → ListOptions → W → X
  typed_watch watch ns opts = watch (record (in_namespace Verb.get ns) {
    params = encode (record opts { watch = true });
    timeout = seconds opts.timeout_seconds;
  })

  -- ListFunc and WatchFunc of the ListWatch.
  unfoldable pub list_func :
      {H : Type 0} → RestClient W → SharedIndexInformer H → ListOptions → W → W × List F5Ipam × Bool
  list_func rest i options =
      let opts = tweaked i.tweak_list_options options in
      typed_list rest i.namespace (encode opts) opts.timeout_seconds

  unfoldable pub watch_func :
      {H X : Type 0} → (RestRequest → W → X) → SharedIndexInformer H → ListOptions → W → X
  unfolding typed_watch
  watch_func watch i options = typed_watch watch i.namespace (tweaked i.tweak_list_options options)
