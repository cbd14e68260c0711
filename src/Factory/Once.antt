-- ===== src/Factory/Once.antt =====
-- Which informers of the factory run, over calls of InformerFor and Start.
use f5_ipam_controller_base.Base.{
  ◌≡◌, ◌↔◌, refl, sym, ap, ◌∙◌, true, false, some, none, List, [], ◌∷◌, ◌++◌, In, In-append_left,
  In-append_right, All, All-append, arith, Option-cases, Bool-cases, inl, inr, if◌then◌else◌,
}
use f5_ipam_controller_base.Base.Text.{Text, text_eq, text_eq_iff, text_eq_refl}
use f5_ipam_controller_base.Base.Maps.{
  Map, Lacks, DistinctKeys, lookup, put, lookup-put, DistinctKeys-put, DistinctKeys-append,
  In-lookup,
}
use f5_ipam_controller_base.Factory.{
  Factory, is_started, start_one, start_each, start, informer_for, make_informer,
}
use f5_ipam_controller_base.Factory.Shared.{Use, starts, asks, use_factory, use_all}

-- An order in which a map can be ranged over.
abbrev pub IsRange : {A : Type 0} → (Map A → Map A) → Type 0
IsRange {A} iterate = (x : Text × A) (m : Map A) → In x (iterate m) ↔ In x m

abbrev pub IsFair : {C I D : Type 0} → Use C I D → Type 0
IsFair (starts iterate) = IsRange iterate
IsFair (asks kind make) = Unit

module _ {C I D F : Type 0} where
  abbrev Flagged : Factory C I D F → List (Text × I) → Type 0
  Flagged f = All (λ (x : Text × I). is_started x.0 f ≡ true)

  abbrev pub Known : Factory C I D F → List (Text × I) → Type 0
  Known f = All (λ (x : Text × I). lookup x.0 f.informers ≡ some x.1)

  -- What runs, runs once, is flagged as started, and is what InformerFor returns for its type.
  pub record IsOnce (f : Factory C I D F) : Type 0 where
    pub keys : DistinctKeys f.informers
    pub once : DistinctKeys f.running
    pub flagged : Flagged f f.running
    pub known : Known f f.running
    pub ran : (kind : Text) → is_started kind f ≡ true → (i : I) × In (kind, i) f.running

  Flagged-Lacks :
      (kind : Text) (f : Factory C I D F) (running : List (Text × I))
      → is_started kind f ≡ false
      → Flagged f running
      → Lacks kind running
  Flagged-Lacks kind f [] n h = tt
  Flagged-Lacks kind f ((k, i) ∷ running) n (s, h) =
      (λ same. cc (ap (λ x. is_started x f) same, s, n), Flagged-Lacks kind f running n h)

  abbrev flagged_start : Text → I → Factory C I D F → Factory C I D F
  flagged_start kind i f = record f {
    running = f.running ++ (kind, i) ∷ [];
    started_informers = put kind true f.started_informers;
  }

  pub is_started-start :
      (kind other : Text) (i : I) (f : Factory C I D F)
      → is_started other (flagged_start kind i f)
        ≡ (if text_eq kind other then true else is_started other f)
  is_started-start kind other i f =
      rw (lookup-put kind other true f.started_informers) (ground arith)

  Flagged-start :
      (kind : Text) (i : I) (f : Factory C I D F) (running : List (Text × I))
      → Flagged f running
      → Flagged (flagged_start kind i f) running
  Flagged-start kind i f [] h = tt
  Flagged-start kind i f ((k, j) ∷ running) (s, h) =
      (is_started-start kind k i f ∙ ground arith, Flagged-start kind i f running h)

  started-IsOnce :
      (kind : Text) (i : I) (f : Factory C I D F)
      → is_started kind f ≡ false
      → lookup kind f.informers ≡ some i
      → IsOnce f
      → IsOnce (flagged_start kind i f)
  started-IsOnce kind i f n there x = record {
    keys = x.keys;
    once = DistinctKeys-append kind i f.running x.once (Flagged-Lacks kind f f.running n x.flagged);
    flagged =
        All-append _ f.running ((kind, i) ∷ []) (Flagged-start kind i f f.running x.flagged)
          (is_started-start kind kind i f ∙ ground (arith, text_eq_refl kind), tt);
    known = All-append _ f.running ((kind, i) ∷ []) x.known (there, tt);
    ran = λ other s. elim (Bool-cases (text_eq kind other)) [
      | inl same ↦ (
        i,
        In-append_right (other, i) f.running ((kind, i) ∷ [])
            (inl (ap (λ k. (k, i)) (sym ((text_eq_iff kind other).0 same)))),
      )
      | inr differ ↦
          let (j, h) = x.ran other (sym (is_started-start kind other i f ∙ rw differ refl) ∙ s) in
          (j, In-append_left (other, j) f.running ((kind, i) ∷ []) h)
    ];
  }

  start_one-IsOnce :
      (kind : Text) (i : I) (f : Factory C I D F)
      → lookup kind f.informers ≡ some i
      → IsOnce f
      → IsOnce (start_one kind i f)
  unfolding start_one
  start_one-IsOnce kind i f there x = elim (Bool-cases (is_started kind f)) [
    | inl s ↦ rw s x
    | inr n ↦ rw n (started-IsOnce kind i f n there x)
  ]

  informers-start_one :
      (kind : Text) (i : I) (f : Factory C I D F) → (start_one kind i f).informers ≡ f.informers
  unfolding start_one
  informers-start_one kind i f = ground arith

  Known-start_one :
      (kind : Text) (i : I) (f : Factory C I D F) (informers : List (Text × I))
      → Known f informers
      → Known (start_one kind i f) informers
  Known-start_one kind i f [] h = tt
  Known-start_one kind i f (x ∷ informers) (e, h) =
      (ap (lookup x.0) (informers-start_one kind i f) ∙ e, Known-start_one kind i f informers h)

  start_each-IsOnce :
      (informers : List (Text × I)) (f : Factory C I D F)
      → Known f informers
      → IsOnce f
      → IsOnce (start_each informers f)
  unfolding start_each
  start_each-IsOnce [] f h x = x
  start_each-IsOnce ((kind, i) ∷ informers) f (e, h) x =
      start_each-IsOnce informers (start_one kind i f) (Known-start_one kind i f informers h)
        (start_one-IsOnce kind i f e x)

  all_Known :
      (f : Factory C I D F) (informers : List (Text × I))
      → DistinctKeys f.informers
      → ((x : Text × I) → In x informers → In x f.informers)
      → Known f informers
  all_Known f [] d h = tt
  all_Known f (x ∷ informers) d h = (
    In-lookup x.0 x.1 f.informers d (h x (inl refl)),
    all_Known f informers d (λ y i. h y (inr i)),
  )

  pub start-IsOnce :
      (iterate : Map I → Map I) (f : Factory C I D F)
      → IsRange iterate
      → IsOnce f
      → IsOnce (start iterate f)
  unfolding start
  start-IsOnce iterate f r x =
      start_each-IsOnce (iterate f.informers) f
        (all_Known f (iterate f.informers) x.keys (λ y i. (r y f.informers).0 i)) x

  abbrev asked : Text → I → Factory C I D F → Factory C I D F
  asked kind i f = record f { informers = put kind i f.informers }

  Known-asked :
      (kind : Text) (i : I) (f : Factory C I D F) (running : List (Text × I))
      → lookup kind f.informers ≡ none
      → Known f running
      → Known (asked kind i f) running
  Known-asked kind i f [] n h = tt
  Known-asked kind i f (x ∷ running) n (e, h) = (
    lookup-put kind x.0 i f.informers ∙ ground (arith, text_eq_iff kind x.0),
    Known-asked kind i f running n h,
  )

  informer_for-IsOnce :
      (kind : Text) (make : C → D → I) (f : Factory C I D F)
      → IsOnce f
      → IsOnce (informer_for kind make f).0
  unfolding informer_for make_informer
  informer_for-IsOnce kind make f x = elim (Option-cases (lookup kind f.informers)) [
    | inr (found, e) ↦ rw e x
    | inl new ↦ rw new (record {
      keys = DistinctKeys-put kind _ f.informers x.keys;
      once = x.once;
      flagged = x.flagged;
      known = Known-asked kind _ f f.running new x.known;
      ran = x.ran;
    })
  ]

  pub use_all-IsOnce :
      (uses : List (Use C I D)) (f : Factory C I D F)
      → All IsFair uses
      → IsOnce f
      → IsOnce (use_all uses f)
  unfolding use_all use_factory
  use_all-IsOnce [] f r x = x
  use_all-IsOnce (starts iterate ∷ uses) f (r, rs) x =
      use_all-IsOnce uses (start iterate f) rs (start-IsOnce iterate f r x)
  use_all-IsOnce (asks kind make ∷ uses) f (r, rs) x =
      use_all-IsOnce uses (informer_for kind make f).0 rs (informer_for-IsOnce kind make f x)
