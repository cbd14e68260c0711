-- ===== src/Examples/Registering.antt =====
-- Schemes that are the list of the kinds that they know.
use f5_ipam_controller_base.Base.{
  refl, inl, inr, Bool, true, false, List, [], ◌∷◌, ◌++◌, In, In-append_left, In-append_right,
}
use f5_ipam_controller_base.Clientset.Schemes.{Schemes, Adder, GroupVersion, Kind}
use f5_ipam_controller_base.Clientset.Registered.{IsSchemes}

abbrev Known : Type 0
Known = List (GroupVersion × Kind)

abbrev Knows : Known → GroupVersion → Kind → Type 0
Knows s g k = In (g, k) s

abbrev pairs : GroupVersion → List Kind → Known
pairs g [] = []
pairs g (k ∷ kinds) = (g, k) ∷ pairs g kinds

then_apply : Known × Bool → Adder Known → Known × Bool
then_apply (s, true) rest = rest s
then_apply (s, false) rest = (s, false)

apply_all : List (Adder Known) → Adder Known
unfolding then_apply
apply_all [] s = (s, true)
apply_all (f ∷ fs) s = then_apply (f s) (apply_all fs)

abbrev lib : Schemes Known
lib = record {
  new_scheme = [];
  add_known_types = λ g kinds s. pairs g kinds ++ s;
  add_to_group_version = λ g s. s;
  new_builder = λ fs. fs;
  register = λ f fs. fs ++ f ∷ [];
  apply = apply_all;
}

In-pairs :
    (g : GroupVersion) (kinds : List Kind) (k : Kind) → In k kinds → In (g, k) (pairs g kinds)
In-pairs g (x ∷ kinds) k (inl e) = inl (cc e)
In-pairs g (x ∷ kinds) k (inr h) = inr (In-pairs g kinds k h)
In-pairs g [] k h = elim h [ ]

lib-IsSchemes : IsSchemes lib Knows
unfolding apply_all then_apply
lib-IsSchemes = record {
  applies_none = λ s. refl;
  applies = λ f fs s s' h. rw h refl;
  registers = λ f fs. refl;
  builds = λ fs. refl;
  adds = λ g kinds k s h. In-append_left (g, k) (pairs g kinds) s (In-pairs g kinds k h);
  keeps_types = λ g h kinds k s there. In-append_right (g, k) (pairs h kinds) s there;
  keeps_group = λ g h k s there. there;
}
