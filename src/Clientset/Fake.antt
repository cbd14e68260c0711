-- ===== src/Clientset/Fake.antt =====
-- pkg/ipamapis/client/clientset/versioned/typed/fic/v1/fake/fake_f5ipam.go: the fake client of the
-- F5IPAM resources of a namespace, for tests, over any tracker of client-go's package testing. An error
-- is the Boolean false, and the kind of the resource, which is a constant, stays out of the action of
-- List.
use f5_ipam_controller_base.Base.{
  Bool, true, Option, none, some, List, [], ◌∷◌, ◌++◌, if◌then◌else◌,
}
use f5_ipam_controller_base.Base.Text.{Text, text}
use f5_ipam_controller_base.Fic.{F5Ipam}
use f5_ipam_controller_base.Clientset.{Params}
use f5_ipam_controller_base.Provider.Ranges.{Outcome, returns, panics}

-- Group, version and resource.
abbrev pub Gvr : Type 0
Gvr = Text × Text × Text

-- `f5ipamsResource`, whose group is not that of the types.
abbrev pub f5ipams_resource : Gvr
f5ipams_resource = (text "k8s.nginx.org", text "v1", text "f5ipams")

-- What the constructors of package testing make of the arguments.
pub data Action : Type 0 where
  get_action : Gvr → Text → Text → Action
  list_action : Gvr → Text → Params → Action
  watch_action : Gvr → Text → Params → Action
  create_action : Gvr → Text → F5Ipam → Action
  update_action : Gvr → Text → F5Ipam → Action
  update_subresource_action : Gvr → Text → Text → F5Ipam → Action
  delete_action : Gvr → Text → Text → Action
  delete_collection_action : Gvr → Text → Params → Action
  patch_subresource_action : Gvr → Text → Text → Text → Text → List Text → Action

-- A runtime.Object: nil, a resource, or a list with its ListMeta and the labels of its items.
pub data Object (M : Type 0) : Type 0 where
  no_object : Object M
  one : F5Ipam → Object M
  items : M → List (Params × F5Ipam) → Object M

-- `Invokes` of testing.Fake, and the label selector that ExtractFromListOptions finds, by the labels
-- that it matches; `none` is nil.
pub record Tracker (V M : Type 0) : Type 0 where
  pub invokes : Action → V → V × Object M × Bool
  pub extract_label : Params → Option (Params → Bool)

-- The result of a method that returns a pointer to a resource, which is nil for `none`; a type
-- assertion that fails panics.
abbrev assert_one : {M : Type 0} → Object M → Bool → Outcome (Option F5Ipam × Bool)
assert_one no_object ok = returns (none, ok)
assert_one (one r) ok = returns (some r, ok)
assert_one (items meta l) ok = panics

-- `Watch`, by what InvokesWatch of testing.Fake makes of an action.
unfoldable pub fake_watch : {V X : Type 0} → (Action → V → X) → Text → Params → V → X
fake_watch invokes_watch ns opts v = invokes_watch (watch_action f5ipams_resource ns opts) v

-- labels.Everything where there is no selector.
abbrev pub or_everything : Option (Params → Bool) → Params → Bool
or_everything none labels = true
or_everything (some selects) labels = selects labels

-- The loop over the items.
unfoldable pub append_matching :
    (Params → Bool) → List (Params × F5Ipam) → List (Params × F5Ipam) → List (Params × F5Ipam)
append_matching selects kept [] = kept
append_matching selects kept ((labels, r) ∷ rest) =
    append_matching selects (if selects labels then kept ++ (labels, r) ∷ [] else kept) rest

unfoldable pub assert_list :
    {M : Type 0}
    → (Params → Bool)
    → Object M
    → Bool
    → Outcome (Option (M × List (Params × F5Ipam)) × Bool)
unfolding append_matching
assert_list selects no_object ok = returns (none, ok)
assert_list selects (one r) ok = panics
assert_list selects (items meta l) ok = returns (some (meta, append_matching selects [] l), ok)

module _ {V M : Type 0} (fake : Tracker V M) (ns : Text) where
  unfoldable pub fake_get : Text → V → V × Outcome (Option F5Ipam × Bool)
  fake_get name v =
      let (v', obj, ok) = fake.invokes (get_action f5ipams_resource ns name) v in
      (v', assert_one obj ok)

  unfoldable pub fake_list : Params → V → V × Outcome (Option (M × List (Params × F5Ipam)) × Bool)
  unfolding assert_list
  fake_list opts v =
      let (v', obj, ok) = fake.invokes (list_action f5ipams_resource ns opts) v in
      (v', assert_list (or_everything (fake.extract_label opts)) obj ok)

  unfoldable pub fake_create : F5Ipam → V → V × Outcome (Option F5Ipam × Bool)
  fake_create r v =
      let (v', obj, ok) = fake.invokes (create_action f5ipams_resource ns r) v in
      (v', assert_one obj ok)

  unfoldable pub fake_update : F5Ipam → V → V × Outcome (Option F5Ipam × Bool)
  fake_update r v =
      let (v', obj, ok) = fake.invokes (update_action f5ipams_resource ns r) v in
      (v', assert_one obj ok)

  unfoldable pub fake_update_status : F5Ipam → V → V × Outcome (Option F5Ipam × Bool)
  fake_update_status r v =
      let (v', obj, ok) =
        fake.invokes (update_subresource_action f5ipams_resource (text "status") ns r) v in
      (v', assert_one obj ok)

  -- The delete options are not used.
  unfoldable pub fake_delete : Text → V → V × Bool
  fake_delete name v =
      let (v', obj, ok) = fake.invokes (delete_action f5ipams_resource ns name) v in (v', ok)

  unfoldable pub fake_delete_collection : Params → V → V × Bool
  fake_delete_collection list_options v =
      let (v', obj, ok) =
        fake.invokes (delete_collection_action f5ipams_resource ns list_options) v in
      (v', ok)

  unfoldable pub fake_patch :
      Text → Text → Text → List Text → V → V × Outcome (Option F5Ipam × Bool)
  fake_patch name kind data_bytes subresources v =
      let (v', obj, ok) =
        fake.invokes
          (patch_subresource_action f5ipams_resource ns name kind data_bytes subresources) v in
      (v', assert_one obj ok)
