-- ===== src/Factory/Shared.antt =====
-- What InformerFor returns for a type over further uses of the factory.
use f5_ipam_controller_base.Base.{
  ◌≡◌, refl, ap, ◌∙◌, some, List, [], ◌∷◌, arith, Option-cases, inl, inr,
}
use f5_ipam_controller_base.Base.Text.{Text, text_eq_iff, text_eq_refl}
use f5_ipam_controller_base.Base.Maps.{Map, lookup, lookup-put}
use f5_ipam_controller_base.Factory.{
  Factory, start_one, start_each, start, informer_for, make_informer,
}

-- What users of the factory do with it.
pub data Use (C I D : Type 0) : Type 0 where
  starts : (Map I → Map I) → Use C I D
  asks : Text → (C → D → I) → Use C I D

module _ {C I D F : Type 0} where
  unfoldable pub use_factory : Use C I D → Factory C I D F → Factory C I D F
  use_factory (starts iterate) f = start iterate f
  use_factory (asks kind make) f = (informer_for kind make f).0

  unfoldable pub use_all : List (Use C I D) → Factory C I D F → Factory C I D F
  unfolding use_factory
  use_all [] f = f
  use_all (u ∷ uses) f = use_all uses (use_factory u f)

  pub informers-start_each :
      (informers : List (Text × I)) (f : Factory C I D F)
      → (start_each informers f).informers ≡ f.informers
  unfolding start_each start_one
  informers-start_each [] f = refl
  informers-start_each ((kind, informer) ∷ informers) f =
      informers-start_each informers (start_one kind informer f) ∙ ground arith

  make_informer-known :
      (kind : Text) (make : C → D → I) (informer : I) (f : Factory C I D F)
      → lookup kind f.informers ≡ some informer
      → informer_for kind make f ≡ (f, informer)
  unfolding informer_for make_informer
  make_informer-known kind make informer f h = rw h refl

  informer_for-keeps :
      (kind other : Text) (make : C → D → I) (informer : I) (f : Factory C I D F)
      → lookup kind f.informers ≡ some informer
      → lookup kind (informer_for other make f).0.informers ≡ some informer
  unfolding informer_for make_informer
  informer_for-keeps kind other make informer f h = elim (Option-cases (lookup other f.informers)) [
    | inr (found, e) ↦ rw e h
    | inl new ↦ rw (new, lookup-put) (ground (arith, text_eq_iff other kind))
  ]

  use_factory-keeps :
      (kind : Text) (informer : I) (u : Use C I D) (f : Factory C I D F)
      → lookup kind f.informers ≡ some informer
      → lookup kind (use_factory u f).informers ≡ some informer
  unfolding use_factory start
  use_factory-keeps kind informer (starts iterate) f h =
      ap (lookup kind) (informers-start_each (iterate f.informers) f) ∙ h
  use_factory-keeps kind informer (asks other make) f h =
      informer_for-keeps kind other make informer f h

  use_all-keeps :
      (kind : Text) (informer : I) (uses : List (Use C I D)) (f : Factory C I D F)
      → lookup kind f.informers ≡ some informer
      → lookup kind (use_all uses f).informers ≡ some informer
  unfolding use_all
  use_all-keeps kind informer [] f h = h
  use_all-keeps kind informer (u ∷ uses) f h =
      use_all-keeps kind informer uses (use_factory u f) (use_factory-keeps kind informer u f h)

  informer_for-known :
      (kind : Text) (make : C → D → I) (f : Factory C I D F)
      → lookup kind (informer_for kind make f).0.informers ≡ some (informer_for kind make f).1
  unfolding informer_for make_informer
  informer_for-known kind make f = elim (Option-cases (lookup kind f.informers)) [
    | inr (found, e) ↦ rw e e
    | inl new ↦ rw (new, lookup-put, text_eq_refl kind) refl
  ]

  -- What InformerFor returned for a type, it returns again after any further use of the factory, and
  -- whatever function that time makes new informers, and the factory stays as it is.
  pub informer_for-shared :
      (kind : Text) (make again : C → D → I) (uses : List (Use C I D)) (f : Factory C I D F)
      → informer_for kind again (use_all uses (informer_for kind make f).0)
        ≡ (use_all uses (informer_for kind make f).0, (informer_for kind make f).1)
  informer_for-shared kind make again uses f =
      make_informer-known kind again (informer_for kind make f).1
        (use_all uses (informer_for kind make f).0)
        (use_all-keeps kind _ uses _ (informer_for-known kind make f))
