-- ===== src/Machinery/Informers.antt =====
-- pkg/ipammachinery/informers.go and ipam.go: the informers of the client, one for each namespace that
-- it watches. Event handlers are of any type here; Machinery/Setup has those of the orchestrator.
use f5_ipam_controller_base.Base.{
  ℕ, ◌∙◌, Bool-cases, subst, ◌≡◌, refl, ◌⊎◌, inl, inr, Bool, true, false, ◌&&◌, Option, none, some,
  List, [], ◌∷◌, arith, if◌then◌else◌,
}
use f5_ipam_controller_base.Base.Text.{Text, text_eq, is_empty}
use f5_ipam_controller_base.Base.Maps.{Map, lookup, put, lookup-put}
use f5_ipam_controller_base.Clientset.Watching.{
  ListOptions, SharedIndexInformer, new_filtered_f5ipam_informer, add_event_handler,
  namespace_index,
}

-- `open` tells whether the stop channel is not closed yet.
pub record IpamInformer (H : Type 0) : Type 0 where
  pub namespace : Text
  pub is_open : Bool
  pub ipam_informer : Option (SharedIndexInformer H)

-- IPAMClient with its maps; of that of the namespaces, whose values are all true, the keys.
pub record IpamClient (H : Type 0) : Type 0 where
  pub ipam_informers : Map (IpamInformer H)
  pub namespaces : List Text

pub data AddError : Type 0 where
  already_watching_all : AddError
  already_watching_specific : AddError

pub data AddResult (H : Type 0) : Type 0 where
  added : IpamClient H → AddResult H
  refused : AddError → AddResult H

abbrev pub is_nil : {A : Type 0} → List A → Bool
is_nil [] = true
is_nil (n ∷ ns) = false

abbrev pub is_found : {A : Type 0} → Option A → Bool
is_found none = false
is_found (some a) = true

-- The tweak of the options: every label.
abbrev pub everything : ListOptions → ListOptions
everything options = record options { label_selector = [] }

and_false : (b : Bool) → (b && false) ≡ false
and_false false = refl
and_false true = refl

module _ {H : Type 0} where
  unfoldable pub watching_all_namespaces : IpamClient H → Bool
  watching_all_namespaces c =
      if is_nil c.ipam_informers then false else is_found (lookup [] c.ipam_informers)

  unfoldable pub new_namespaced_informer : Text → IpamInformer H
  new_namespaced_informer ns = record {
    namespace = ns;
    is_open = true;
    ipam_informer =
        some (new_filtered_f5ipam_informer ns 0 (namespace_index ∷ []) (some everything));
  }

  unfoldable pub add_event_handlers : IpamInformer H → H → IpamInformer H
  add_event_handlers inf handlers = elim inf.ipam_informer [
    | none ↦ inf
    | some informer ↦ record inf { ipam_informer = some (add_event_handler handlers informer) }
  ]

  unfoldable pub add_namespaced_informer : Text → H → IpamClient H → AddResult H
  unfolding new_namespaced_informer add_event_handlers
  add_namespaced_informer ns handlers c =
      if watching_all_namespaces c
      then refused already_watching_all
      else if (if is_nil c.ipam_informers then false else true) && is_empty ns
      then refused already_watching_specific
      else if is_found (lookup ns c.ipam_informers)
      then added c
      else added (record c {
        ipam_informers =
            put ns (add_event_handlers (new_namespaced_informer ns) handlers) c.ipam_informers;
      })

  -- The informer that serves a namespace.
  unfoldable pub get_namespaced_informer : Text → IpamClient H → Option (IpamInformer H)
  get_namespaced_informer ns c =
      lookup (if watching_all_namespaces c then [] else ns) c.ipam_informers

  -- The loop of `setupInformersWithEventHandlers`, which an error ends; the list is the order in which
  -- Go ranges over the namespaces. What was added before an error stays.
  unfoldable pub setup_informers : List Text → H → IpamClient H → IpamClient H × Option AddError
  setup_informers [] handlers c = (c, none)
  setup_informers (ns ∷ rest) handlers c = elim (add_namespaced_informer ns handlers c) [
    | added c' ↦ setup_informers rest handlers c'
    | refused e ↦ (c, some e)
  ]

  -- All namespaces and a namespace of its own are never watched together.
  abbrev pub IsConsistent : IpamClient H → Type 0
  IsConsistent c =
      ((inf : IpamInformer H) × (c.ipam_informers ≡ ([], inf) ∷ []))
      ⊎ (lookup [] c.ipam_informers ≡ none)

  pub Result-cases :
      (r : AddResult H) → ((c : IpamClient H) × (r ≡ added c)) ⊎ ((e : AddError) × (r ≡ refused e))
  Result-cases (added c) = inl (c, refl)
  Result-cases (refused e) = inr (e, refl)

  abbrev pub client_of : AddResult H → IpamClient H → IpamClient H
  client_of (added c') c = c'
  client_of (refused e) c = c

  not_watching :
      (c : IpamClient H)
      → IsConsistent c
      → watching_all_namespaces c ≡ false
      → lookup [] c.ipam_informers ≡ none
  unfolding watching_all_namespaces lookup text_eq
  not_watching c (inl (inf, alone)) n = ground arith
  not_watching c (inr none_found) n = none_found

  -- A namespace of its own is not that of all namespaces.
  lookup-put_named :
      (b : ℕ) (ns : Text) (inf : IpamInformer H) (m : Map (IpamInformer H))
      → lookup [] (put (b ∷ ns) inf m) ≡ lookup [] m
  unfolding text_eq
  lookup-put_named b ns inf m = lookup-put (b ∷ ns) [] inf m

  add_named-IsConsistent :
      (b : ℕ) (ns : Text) (handlers : H) (c : IpamClient H)
      → IsConsistent c
      → IsConsistent (client_of (add_namespaced_informer (b ∷ ns) handlers c) c)
  unfolding add_namespaced_informer
  add_named-IsConsistent b ns handlers c h = elim (Bool-cases (watching_all_namespaces c)) [
    | inl all ↦ rw all h
    | inr some_only ↦
        rw (some_only, and_false (if is_nil c.ipam_informers then false else true))
          (elim (Bool-cases (is_found (lookup (b ∷ ns) c.ipam_informers))) [
            | inl there ↦ rw there h
            | inr new ↦
                rw new (inr (lookup-put_named b ns _ c.ipam_informers ∙ not_watching c h some_only))
          ])
  ]

  add-IsConsistent :
      (ns : Text) (handlers : H) (l : Map (IpamInformer H)) (m : List Text)
      → IsConsistent (record { ipam_informers = l; namespaces = m })
      → IsConsistent (
          client_of
            (add_namespaced_informer ns handlers (record { ipam_informers = l; namespaces = m }))
            (record { ipam_informers = l; namespaces = m }))
  unfolding add_namespaced_informer watching_all_namespaces lookup put text_eq
  add-IsConsistent [] handlers [] m h = inl (_, refl)
  add-IsConsistent (b ∷ ns) handlers [] m h = inr refl
  add-IsConsistent [] handlers (x ∷ l) m h = ground arith
  add-IsConsistent (b ∷ ns) handlers (x ∷ l) m h =
      add_named-IsConsistent b ns handlers (record { ipam_informers = x ∷ l; namespaces = m }) h

  -- Whatever namespaces are added, in whatever order, and whether or not an error ends the loop: a
  -- client that does not watch all namespaces beside others does not do so afterwards.
  pub setup_informers-IsConsistent :
      (namespaces : List Text) (handlers : H) (c : IpamClient H)
      → IsConsistent c
      → IsConsistent (setup_informers namespaces handlers c).0
  unfolding setup_informers
  setup_informers-IsConsistent [] handlers c h = h
  setup_informers-IsConsistent (ns ∷ rest) handlers c h =
      elim (Result-cases (add_namespaced_informer ns handlers c)) [
        | inl (c', e) ↦
            rw (e, setup_informers)
              (setup_informers-IsConsistent rest handlers c' (
                subst (λ r. IsConsistent (client_of r c)) e
                  (add-IsConsistent ns handlers c.ipam_informers c.namespaces h)))
        | inr (err, e) ↦ rw (e, setup_informers) h
      ]
