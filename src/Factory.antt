-- ===== src/Factory.antt =====
-- pkg/ipamapis/client/informers/externalversions: the factory of shared informers, with the informer
-- of F5IPAM in fic/v1/f5ipam.go and ForResource of generic.go. A reflect.Type is its name, and a map a
-- list of entries; client, informers, periods and options are of any types. `running` has the informers
-- of which Run was started, each in a goroutine, in the order of starting.
pub mod Shared
pub mod Once
pub mod Started
pub mod Sync
use f5_ipam_controller_base.Base.{
  Bool, true, false, Option, none, some, List, [], ◌∷◌, ◌++◌, ◌&&◌, if◌then◌else◌,
}
use f5_ipam_controller_base.Base.Text.{Text, text, text_eq}
use f5_ipam_controller_base.Base.Maps.{Map, lookup, put}

-- `sharedInformerFactory`; `F` is the type of functions that tweak list options.
pub record Factory (C I D F : Type 0) : Type 0 where
  pub client : C
  pub namespace : Text
  pub tweak_list_options : Option F
  pub default_resync : D
  pub custom_resync : Map D
  pub informers : Map I
  pub started_informers : Map Bool
  pub running : List (Text × I)

-- `group` of fic/interface.go, `version` of fic/v1/interface.go and `f5IPAMInformer`, which each hold
-- these beside the factory.
pub record Access (F : Type 0) : Type 0 where
  pub namespace : Text
  pub tweak_list_options : Option F

-- The two functions New.
abbrev pub new_access : {F : Type 0} → Text → Option F → Access F
new_access ns tweak = record { namespace = ns; tweak_list_options = tweak }

-- `V1` of the group.
abbrev pub v1 : {F : Type 0} → Access F → Access F
v1 g = new_access g.namespace g.tweak_list_options

-- `F5IPAMs` of the version.
abbrev pub f5ipams : {F : Type 0} → Access F → Access F
f5ipams v = record { namespace = v.namespace; tweak_list_options = v.tweak_list_options }

-- `genericInformer`, with the group of its resource.
pub record GenericInformer (I : Type 0) : Type 0 where
  pub informer : I
  pub resource : Text × Text

-- A missing key reads as false.
abbrev pub flag : Option Bool → Bool
flag none = false
flag (some b) = b

-- `synced` is cache.WaitForCacheSync on the informer's HasSynced.
unfoldable pub sync_each : {I : Type 0} → (I → Bool) → List (Text × I) → Map Bool → Map Bool
sync_each synced [] res = res
sync_each synced ((kind, informer) ∷ informers) res =
    sync_each synced informers (put kind (synced informer) res)

module _ {C I D F : Type 0} where
  -- `resync_config` has the types of the objects that are the keys, in the order of the range.
  unfoldable pub with_custom_resync_config : List (Text × D) → Factory C I D F → Factory C I D F
  with_custom_resync_config [] f = f
  with_custom_resync_config ((kind, period) ∷ config) f =
      with_custom_resync_config config
        (record f { custom_resync = put kind period f.custom_resync })

  unfoldable pub with_tweak_list_options : Option F → Factory C I D F → Factory C I D F
  with_tweak_list_options tweak f = record f { tweak_list_options = tweak }

  unfoldable pub with_namespace : Text → Factory C I D F → Factory C I D F
  with_namespace ns f = record f { namespace = ns }

  abbrev apply_all : List (Factory C I D F → Factory C I D F) → Factory C I D F → Factory C I D F
  apply_all [] f = f
  apply_all (opt ∷ options) f = apply_all options (opt f)

  -- The empty text is NamespaceAll.
  unfoldable pub new_shared_informer_factory_with_options :
      C → D → List (Factory C I D F → Factory C I D F) → Factory C I D F
  new_shared_informer_factory_with_options client resync options = apply_all options (record {
    client = client;
    namespace = [];
    tweak_list_options = none;
    default_resync = resync;
    custom_resync = [];
    informers = [];
    started_informers = [];
    running = [];
  })

  unfoldable pub new_shared_informer_factory : C → D → Factory C I D F
  unfolding new_shared_informer_factory_with_options
  new_shared_informer_factory client resync =
      new_shared_informer_factory_with_options client resync []

  unfoldable pub new_filtered_shared_informer_factory : C → D → Text → Option F → Factory C I D F
  unfolding new_shared_informer_factory_with_options with_namespace with_tweak_list_options
  new_filtered_shared_informer_factory client resync ns tweak =
      new_shared_informer_factory_with_options client resync
        (with_namespace ns ∷ with_tweak_list_options tweak ∷ [])

  abbrev pub is_started : Text → Factory C I D F → Bool
  is_started kind f = flag (lookup kind f.started_informers)

  unfoldable pub start_one : Text → I → Factory C I D F → Factory C I D F
  start_one kind informer f = if is_started kind f then f else record f {
    running = f.running ++ (kind, informer) ∷ [];
    started_informers = put kind true f.started_informers;
  }

  unfoldable pub start_each : List (Text × I) → Factory C I D F → Factory C I D F
  unfolding start_one
  start_each [] f = f
  start_each ((kind, informer) ∷ informers) f = start_each informers (start_one kind informer f)

  -- `iterate` is the order in which Go ranges over the map.
  unfoldable pub start : (Map I → Map I) → Factory C I D F → Factory C I D F
  unfolding start_each
  start iterate f = start_each (iterate f.informers) f

  -- The loop over the informers that collects the started ones.
  unfoldable pub started_of : List (Text × I) → Factory C I D F → Map I → Map I
  started_of [] f found = found
  started_of ((kind, informer) ∷ informers) f found =
      started_of informers f (if is_started kind f then put kind informer found else found)

  unfoldable pub wait_for_cache_sync :
      (Map I → Map I) → (Map I → Map I) → (I → Bool) → Factory C I D F → Map Bool
  unfolding started_of sync_each
  wait_for_cache_sync iterate iterate_started synced f =
      sync_each synced (iterate_started (started_of (iterate f.informers) f [])) []

  abbrev resync_period : Text → Factory C I D F → D
  resync_period kind f = elim (lookup kind f.custom_resync) [
    | none ↦ f.default_resync
    | some period ↦ period
  ]

  unfoldable pub make_informer :
      Text → (C → D → I) → Option I → Factory C I D F → Factory C I D F × I
  make_informer kind make (some informer) f = (f, informer)
  make_informer kind make none f =
      let informer = make f.client (resync_period kind f) in
      (record f { informers = put kind informer f.informers }, informer)

  unfoldable pub informer_for : Text → (C → D → I) → Factory C I D F → Factory C I D F × I
  unfolding make_informer
  informer_for kind make f = make_informer kind make (lookup kind f.informers) f

  -- `Informer` of f5IPAMInformer; `index` is NewFilteredF5IPAMInformer with the namespace index.
  unfoldable pub f5ipam_informer :
      (C → Text → D → Option F → I) → Text → Option F → Factory C I D F → Factory C I D F × I
  unfolding informer_for
  f5ipam_informer index ns tweak f =
      informer_for (text "F5IPAM") (λ client period. index client ns period tweak) f

  -- `K8s`: the group of the factory.
  abbrev pub k8s : Factory C I D F → Access F
  k8s f = new_access f.namespace f.tweak_list_options

  -- K8s().V1().F5IPAMs().Informer().
  unfoldable pub k8s_f5ipams : (C → Text → D → Option F → I) → Factory C I D F → Factory C I D F × I
  unfolding f5ipam_informer
  k8s_f5ipams index f =
      let access = f5ipams (v1 (k8s f)) in
      f5ipam_informer index access.namespace access.tweak_list_options f

  -- `none` is the error of a resource that is none of the factory's.
  unfoldable pub for_resource :
      (C → Text → D → Option F → I)
      → Text
      → Text
      → Text
      → Factory C I D F
      → Factory C I D F × Option (GenericInformer I)
  unfolding k8s_f5ipams
  for_resource index group version resource f =
      if text_eq group (text "fic.f5.com")
        && text_eq version (text "v1")
        && text_eq resource (text "f5ipams")
      then (let (f1, informer) = k8s_f5ipams index f in
          (f1, some (record { informer = informer; resource = (group, resource) })))
      else (f, none)
