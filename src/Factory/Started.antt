-- ===== src/Factory/Started.antt =====
-- The informers that run after Start.
use f5_ipam_controller_base.Base.{
  ◌≡◌, sym, ap, subst, ◌∙◌, true, some, List, [], ◌∷◌, In, All, arith, Bool-cases, inl, inr,
}
use f5_ipam_controller_base.Base.Text.{Text, text_eq_iff}
use f5_ipam_controller_base.Base.Maps.{Map, DistinctKeys, lookup, lookup-In}
use f5_ipam_controller_base.Factory.{
  Factory, is_started, start_one, start_each, start, new_shared_informer_factory,
  new_shared_informer_factory_with_options,
}
use f5_ipam_controller_base.Factory.Shared.{Use, use_all, informers-start_each}
use f5_ipam_controller_base.Factory.Once.{
  IsRange, IsFair, Known, IsOnce, is_started-start, use_all-IsOnce, start-IsOnce,
}

module _ {C I D F : Type 0} where
  is_started-keeps :
      (kind : Text) (informers : List (Text × I)) (f : Factory C I D F)
      → is_started kind f ≡ true
      → is_started kind (start_each informers f) ≡ true
  unfolding start_each start_one
  is_started-keeps kind [] f s = s
  is_started-keeps kind ((k, i) ∷ informers) f s =
      is_started-keeps kind informers (start_one k i f) (elim (Bool-cases (is_started k f)) [
        | inl before ↦ rw before s
        | inr new ↦ rw new (is_started-start k kind i f ∙ ground arith)
      ])

  start_each-started :
      (kind : Text) (i : I) (informers : List (Text × I)) (f : Factory C I D F)
      → In (kind, i) informers
      → is_started kind (start_each informers f) ≡ true
  unfolding start_each start_one
  start_each-started kind i [] f h = elim h [ ]
  start_each-started kind i ((k, j) ∷ informers) f (inl e) =
      is_started-keeps kind informers (start_one k j f) (elim (Bool-cases (is_started k f)) [
        | inl before ↦ rw before (ap (λ (x : Text × I). is_started x.0 f) e ∙ before)
        | inr new ↦ rw new (
            is_started-start k kind j f
            ∙ ground (arith, ap (λ (x : Text × I). x.0) e, text_eq_iff k kind))
      ])
  start_each-started kind i ((k, j) ∷ informers) f (inr h) =
      start_each-started kind i informers (start_one k j f) h

module _ {C I D F : Type 0} where
  new-IsOnce :
      (client : C) (resync : D) → IsOnce {I = I} {F = F} (new_shared_informer_factory client resync)
  unfolding lookup new_shared_informer_factory new_shared_informer_factory_with_options
  new-IsOnce client resync = record {
    keys = tt;
    once = tt;
    flagged = tt;
    known = tt;
    ran = λ kind s. absurd (cc s);
  }

  known_informer :
      (kind : Text) (i : I) (f : Factory C I D F) (running : List (Text × I))
      → Known f running
      → In (kind, i) running
      → lookup kind f.informers ≡ some i
  known_informer kind i f [] h r = elim r [ ]
  known_informer kind i f (x ∷ running) (e, h) (inl same) =
      subst (λ (y : Text × I). lookup y.0 f.informers ≡ some y.1) (sym same) e
  known_informer kind i f (x ∷ running) (e, h) (inr r) = known_informer kind i f running h r

  runs :
      (f : Factory C I D F) (kind : Text) (i : I)
      → IsOnce f
      → lookup kind f.informers ≡ some i
      → is_started kind f ≡ true
      → In (kind, i) f.running
  runs f kind i x there s =
      let (j, r) = x.ran kind s in
      let same = sym there ∙ known_informer kind j f f.running x.known r in
      let found : j ≡ i = ground arith in subst (λ y. In (kind, y) f.running) found r

module _ {C I D : Type 0} (F : Type 0) where
  abbrev pub started : C → D → List (Use C I D) → (Map I → Map I) → Factory C I D F
  started client resync uses iterate =
      start iterate (use_all uses (new_shared_informer_factory client resync))

  -- From a new factory, after any calls of InformerFor and Start in any order and a last call of Start,
  -- in whatever order its maps are ranged over: no type has two informers running, what runs for a
  -- type is the informer that InformerFor returns for it, and each informer that InformerFor returned
  -- runs.
  pub start-once :
      (client : C) (resync : D) (uses : List (Use C I D)) (iterate : Map I → Map I)
      → All IsFair uses
      → IsRange iterate
      → DistinctKeys (started client resync uses iterate).running
        × Known (started client resync uses iterate) (started client resync uses iterate).running
        × ((kind : Text) (i : I)
            → lookup kind (started client resync uses iterate).informers ≡ some i
            → In (kind, i) (started client resync uses iterate).running)
  unfolding start
  start-once client resync uses iterate fair r =
      let used_first : Factory C I D F = new_shared_informer_factory client resync in
      let used = use_all uses used_first in
      let x =
        start-IsOnce iterate used r
          (use_all-IsOnce uses used_first fair (new-IsOnce client resync)) in
      (
        x.once,
        x.known,
        λ kind i there. runs (start iterate used) kind i x there (
            start_each-started kind i (iterate used.informers) used (
              (r (kind, i) used.informers).1 (
                lookup-In kind i used.informers (
                  ap (lookup kind) (sym (informers-start_each (iterate used.informers) used))
                  ∙ there)))),
      )
