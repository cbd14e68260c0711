-- ===== src/Clientset/Schemes.antt =====
-- Which types the clients know, of which group: register.go of pkg/ipamapis/apis/fic/v1, of
-- clientset/versioned/scheme and of clientset/versioned/fake, both in pkg/ipamapis/client, and
-- `addKnownTypes` and NewRESTClient of pkg/ipammachinery/client.go. A scheme, its codecs and the
-- REST client are of any types.
use f5_ipam_controller_base.Base.{Bool, true, false, Option, none, some, List, [], ◌∷◌}
use f5_ipam_controller_base.Base.Text.{Text, text}
use f5_ipam_controller_base.Machinery.Crd.{crd_group, crd_version}
use f5_ipam_controller_base.Provider.Ranges.{Outcome, returns, panics}

abbrev pub GroupVersion : Type 0
GroupVersion = Text × Text

-- SchemeGroupVersion of the types, and the one that pkg/ipammachinery makes of CRDGroup and
-- CRDVersion.
abbrev pub scheme_group_version : GroupVersion
scheme_group_version = (text "fic.f5.com", text "v1")

abbrev pub crd_group_version : GroupVersion
crd_group_version = (crd_group, crd_version)

-- `Resource`: the resource with its group.
abbrev pub group_resource : Text → Text × Text
group_resource resource = (scheme_group_version.0, resource)

pub data Kind : Type 0 where
  f5ipam_kind f5ipam_list_kind status_kind : Kind

-- A function that adds to a scheme, with whether there was no error.
abbrev pub Adder : Type 0 → Type 0
Adder S = S → S × Bool

-- runtime.Scheme and runtime.SchemeBuilder of apimachinery.
pub record Schemes (S : Type 0) : Type 0 where
  pub new_scheme : S
  pub add_known_types : GroupVersion → List Kind → S → S
  pub add_to_group_version : GroupVersion → S → S
  pub new_builder : List (Adder S) → List (Adder S)
  pub register : Adder S → List (Adder S) → List (Adder S)
  pub apply : List (Adder S) → Adder S

-- The fields of rest.Config that NewRESTClient sets, with the codecs `K`, and the rest as `Q`.
pub record RestConfig (K Q : Type 0) : Type 0 where
  pub group_version : Option GroupVersion
  pub api_path : Text
  pub content_type : Text
  pub negotiated_serializer : Option K
  pub others : Q

abbrev pub must : {S : Type 0} → S × Bool → Outcome S
must (s, true) = returns s
must (s, false) = panics

module _ {S : Type 0} (lib : Schemes S) where
  -- `addKnownTypes` of the types.
  unfoldable pub add_known_types : Adder S
  add_known_types s = (
    lib.add_to_group_version scheme_group_version (
        lib.add_known_types scheme_group_version (status_kind ∷ [])
          (lib.add_known_types scheme_group_version (f5ipam_kind ∷ f5ipam_list_kind ∷ []) s)),
    true,
  )

  -- The local SchemeBuilder of the types after its `init`.
  unfoldable pub local_scheme_builder : List (Adder S)
  unfolding add_known_types
  local_scheme_builder = lib.register add_known_types []

  -- AddToScheme of the types.
  unfoldable pub add_to_scheme : Adder S
  unfolding local_scheme_builder
  add_to_scheme s = lib.apply local_scheme_builder s

  -- The Scheme of the clientset after its `init`.
  unfoldable pub clientset_scheme : Outcome S
  unfolding add_to_scheme
  clientset_scheme =
      must
        (lib.apply (add_to_scheme ∷ []) (lib.add_to_group_version ([], text "v1") lib.new_scheme))

  -- The scheme of the fake clientset after its `init`.
  unfoldable pub fake_scheme : Outcome S
  unfolding add_to_scheme
  fake_scheme =
      must
        (lib.apply (add_to_scheme ∷ []) (lib.add_to_group_version ([], text "v1") lib.new_scheme))

  -- `addKnownTypes` of pkg/ipammachinery.
  unfoldable pub add_crd_types : Adder S
  add_crd_types s = (
    lib.add_to_group_version crd_group_version
        (lib.add_known_types crd_group_version (f5ipam_kind ∷ f5ipam_list_kind ∷ []) s),
    true,
  )

  unfoldable pub with_scheme :
      {K Q R : Type 0}
      → (S → K)
      → (RestConfig K Q → Option R)
      → RestConfig K Q
      → S × Bool
      → Option R
  with_scheme codec_factory rest_client_for cfg (s, false) = none
  with_scheme codec_factory rest_client_for cfg (s, true) = rest_client_for (record cfg {
    group_version = some crd_group_version;
    api_path = text "/apis";
    content_type = text "application/json";
    negotiated_serializer = some (codec_factory s);
  })

  -- NewRESTClient; `none` is an error.
  unfoldable pub new_rest_client :
      {K Q R : Type 0} → (S → K) → (RestConfig K Q → Option R) → RestConfig K Q → Option R
  unfolding with_scheme add_crd_types
  new_rest_client codec_factory rest_client_for cfg =
      with_scheme codec_factory rest_client_for cfg
        (lib.apply (lib.new_builder (add_crd_types ∷ [])) lib.new_scheme)
