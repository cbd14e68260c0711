-- ===== src/Clientset/Registered.antt =====
-- What the schemes of the clients know.
use f5_ipam_controller_base.Base.{
  ◌≡◌, refl, ap, ◌∙◌, inl, inr, true, Option, some, List, [], ◌∷◌, ◌++◌, In,
}
use f5_ipam_controller_base.Base.Text.{text}
use f5_ipam_controller_base.Provider.Ranges.{returns}
use f5_ipam_controller_base.Clientset.Schemes.{
  Schemes, Adder, GroupVersion, Kind, f5ipam_kind, f5ipam_list_kind, RestConfig, add_known_types,
  local_scheme_builder, add_to_scheme, clientset_scheme, fake_scheme, add_crd_types,
  new_rest_client, scheme_group_version, must, with_scheme,
}

-- A builder runs its functions in their order while there is no error, and what was added to a scheme
-- it knows from then on.
pub record IsSchemes {S : Type 0} (lib : Schemes S) (Knows : S → GroupVersion → Kind → Type 0)
    : Type 0 where
  pub applies_none : (s : S) → lib.apply [] s ≡ (s, true)
  pub applies :
      (f : Adder S) (fs : List (Adder S)) (s s' : S)
      → f s ≡ (s', true)
      → lib.apply (f ∷ fs) s ≡ lib.apply fs s'
  pub registers : (f : Adder S) (fs : List (Adder S)) → lib.register f fs ≡ fs ++ f ∷ []
  pub builds : (fs : List (Adder S)) → lib.new_builder fs ≡ fs
  pub adds :
      (g : GroupVersion) (kinds : List Kind) (k : Kind) (s : S)
      → In k kinds
      → Knows (lib.add_known_types g kinds s) g k
  pub keeps_types :
      (g h : GroupVersion) (kinds : List Kind) (k : Kind) (s : S)
      → Knows s g k
      → Knows (lib.add_known_types h kinds s) g k
  pub keeps_group :
      (g h : GroupVersion) (k : Kind) (s : S)
      → Knows s g k
      → Knows (lib.add_to_group_version h s) g k

module _ {S : Type 0} (lib : Schemes S) (Knows : S → GroupVersion → Kind → Type 0)
    (is : IsSchemes lib Knows) where
  -- The scheme knows the resource and its list under their group and version.
  abbrev pub KnowsBoth : S → Type 0
  KnowsBoth s =
      Knows s scheme_group_version f5ipam_kind × Knows s scheme_group_version f5ipam_list_kind

  apply-one : (f : Adder S) (s s' : S) → f s ≡ (s', true) → lib.apply (f ∷ []) s ≡ (s', true)
  apply-one f s s' h = is.applies f [] s s' h ∙ is.applies_none s'

  abbrev both : List Kind
  both = f5ipam_kind ∷ f5ipam_list_kind ∷ []

  add_known_types-Knows :
      (s : S) (k : Kind) → In k both → Knows (add_known_types lib s).0 scheme_group_version k
  unfolding add_known_types
  add_known_types-Knows s k at =
      is.keeps_group _ _ k _ (is.keeps_types _ _ _ k _ (is.adds _ both k s at))

  add_known_types-KnowsBoth : (s : S) → KnowsBoth (add_known_types lib s).0
  add_known_types-KnowsBoth s = (
    add_known_types-Knows s f5ipam_kind (inl refl),
    add_known_types-Knows s f5ipam_list_kind (inr (inl refl)),
  )

  add_crd_types-KnowsBoth : (s : S) → KnowsBoth (add_crd_types lib s).0
  unfolding add_crd_types
  add_crd_types-KnowsBoth s = (
    is.keeps_group _ _ _ _ (is.adds _ _ f5ipam_kind s (inl refl)),
    is.keeps_group _ _ _ _ (is.adds _ _ f5ipam_list_kind s (inr (inl refl))),
  )

  add_to_scheme-eq : (s : S) → add_to_scheme lib s ≡ add_known_types lib s
  unfolding add_to_scheme local_scheme_builder add_known_types
  add_to_scheme-eq s =
      ap (λ fs. lib.apply fs s) (is.registers (add_known_types lib) [])
      ∙ apply-one (add_known_types lib) s (add_known_types lib s).0 refl

  -- The schemes of the clientset and of its fake are made without a panic and are the same, and
  -- NewRESTClient asks for a client of the given configuration with the group and version of the
  -- resource and the codecs of a scheme. All these schemes know F5IPAM and F5IPAMList under that
  -- group and version.
  pub schemes-KnowsBoth :
      {K Q R : Type 0} (codec_factory : S → K) (rest_client_for : RestConfig K Q → Option R)
      (cfg : RestConfig K Q)
      → (s crd : S) × (clientset_scheme lib ≡ returns s)
        × (fake_scheme lib ≡ returns s)
        × (new_rest_client lib codec_factory rest_client_for cfg
            ≡ rest_client_for (record cfg {
              group_version = some scheme_group_version;
              api_path = text "/apis";
              content_type = text "application/json";
              negotiated_serializer = some (codec_factory crd);
            }))
        × KnowsBoth s
        × KnowsBoth crd
  unfolding clientset_scheme fake_scheme new_rest_client with_scheme add_known_types add_crd_types
  schemes-KnowsBoth codec_factory rest_client_for cfg =
      let first = lib.add_to_group_version ([], text "v1") lib.new_scheme in
      let known = add_known_types lib first in
      let crd = add_crd_types lib lib.new_scheme in
      let at = apply-one (add_to_scheme lib) first known.0 (add_to_scheme-eq first) in
      let built =
        ap (λ fs. lib.apply fs lib.new_scheme) (is.builds (add_crd_types lib ∷ []))
        ∙ apply-one (add_crd_types lib) lib.new_scheme crd.0 refl in
      (
        known.0,
        crd.0,
        ap must at,
        ap must at,
        ap (with_scheme lib codec_factory rest_client_for cfg) built,
        add_known_types-KnowsBoth first,
        add_crd_types-KnowsBoth lib.new_scheme,
      )
