-- ===== src/Machinery/Crd.antt =====
-- RegisterCRD of pkg/ipammachinery/ipam.go, with its constants: the definition of the resource, which
-- the API server creates by a parameter.
use f5_ipam_controller_base.Base.{Bool, true, false, ◌++◌, ◌∷◌}
use f5_ipam_controller_base.Base.Text.{Text, text}

abbrev pub crd_kind : Text
crd_kind = text "F5IPAM"

abbrev pub crd_plural : Text
crd_plural = text "f5ipams"

abbrev pub crd_group : Text
crd_group = text "fic.f5.com"

abbrev pub crd_version : Text
crd_version = text "v1"

abbrev pub full_crd_name : Text
full_crd_name = crd_plural ++ b'.' ∷ crd_group

-- CustomResourceDefinition, by the fields that are set.
pub record CustomResourceDefinition : Type 0 where
  pub name : Text
  pub group : Text
  pub version : Text
  pub namespace_scoped : Bool
  pub plural : Text
  pub kind : Text

abbrev pub crd : CustomResourceDefinition
crd = record {
  name = full_crd_name;
  group = crd_group;
  version = crd_version;
  namespace_scoped = true;
  plural = crd_plural;
  kind = crd_kind;
}

-- What the API server answers to the creation of the resource definition.
pub data CrdAnswer : Type 0 where
  created already_exists refused : CrdAnswer

-- Whether there is no error: one that says that the definition is there already is none.
abbrev pub is_registered : CrdAnswer → Bool
is_registered created = true
is_registered already_exists = true
is_registered refused = false

-- `RegisterCRD`.
unfoldable pub register_crd :
    {W : Type 0} → (CustomResourceDefinition → W → W × CrdAnswer) → W → W × Bool
register_crd create w = let (after, answer) = create crd w in (after, is_registered answer)
