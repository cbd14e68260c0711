-- ===== src/Machinery/Lifecycle.antt =====
-- `start` and `stop` of pkg/ipammachinery/informers.go, and `Start` and `Stop` of ipam.go. The wait for
-- the caches to sync, whose answer is not read, is left out.
use f5_ipam_controller_base.Base.{
  ◌≡◌, refl, sym, ap, ◌∙◌, ◌⊎◌, inl, inr, true, false, Option, none, some, List, [], ◌∷◌, ◌++◌, In,
  In-append_left, In-append_right, All, Bool-cases, arith, if◌then◌else◌,
}
use f5_ipam_controller_base.Base.Text.{Text, text_eq, text_eq_iff}
use f5_ipam_controller_base.Base.Maps.{Map, lookup, put, lookup-put, lookup-In, In-lookup}
use f5_ipam_controller_base.Clientset.Watching.{SharedIndexInformer}
use f5_ipam_controller_base.Machinery.Informers.{IpamInformer, IpamClient}
use f5_ipam_controller_base.Factory.Once.{IsRange}
use f5_ipam_controller_base.Machinery.Made.{
  AllMade-open, watcher, made_for-watcher, new_ipam_client-IsMade,
}
use f5_ipam_controller_base.Machinery.Setup.{Constructors, new_ipam_client}

module _ {H : Type 0} where
  -- The informers whose Run a goroutine of its own executes after `start`.
  unfoldable pub start : IpamInformer H → List (SharedIndexInformer H)
  start inf = elim inf.ipam_informer [ none ↦ [] | some informer ↦ informer ∷ [] ]

  -- Closing a channel that is closed panics, which is `none`.
  unfoldable pub stop : IpamInformer H → Option (IpamInformer H)
  stop inf = if inf.is_open then some (record inf { is_open = false }) else none

  unfoldable pub start_each : Map (IpamInformer H) → List (SharedIndexInformer H)
  unfolding start
  start_each [] = []
  start_each ((ns, inf) ∷ informers) = start inf ++ start_each informers

  -- The range is over pointers, which are closed in the map.
  unfoldable pub stop_each :
      Map (IpamInformer H) → Map (IpamInformer H) → Option (Map (IpamInformer H))
  unfolding stop
  stop_each [] m = some m
  stop_each ((ns, inf) ∷ informers) m = elim (stop inf) [
    | none ↦ none
    | some inf' ↦ stop_each informers (put ns inf' m)
  ]

  module _ (iterate : Map (IpamInformer H) → Map (IpamInformer H)) where
    -- `Start`; `iterate` is the order in which Go ranges over the map.
    unfoldable pub start_client : IpamClient H → List (SharedIndexInformer H)
    unfolding start_each
    start_client c = start_each (iterate c.ipam_informers)

    unfoldable pub stop_client : IpamClient H → Option (IpamClient H)
    unfolding stop_each
    stop_client c = elim (stop_each (iterate c.ipam_informers) c.ipam_informers) [
      | none ↦ none
      | some informers ↦ some (record c { ipam_informers = informers })
    ]

  -- The list has an entry of the namespace.
  abbrev IsListed : Text → Map (IpamInformer H) → Type 0
  IsListed ns [] = ⊥
  IsListed ns ((k, inf) ∷ l) = (k ≡ ns) ⊎ IsListed ns l

  In-IsListed :
      (ns : Text) (inf : IpamInformer H) (l : Map (IpamInformer H)) → In (ns, inf) l → IsListed ns l
  In-IsListed ns inf [] i = elim i [ ]
  In-IsListed ns inf ((k, x) ∷ l) (inl e) = inl (sym (ap (λ (p : Text × IpamInformer H). p.0) e))
  In-IsListed ns inf ((k, x) ∷ l) (inr i) = inr (In-IsListed ns inf l i)

  -- Each informer is closed, or is still to be closed.
  abbrev Closing : Map (IpamInformer H) → Map (IpamInformer H) → Type 0
  Closing l m =
      (ns : Text) (inf : IpamInformer H)
      → lookup ns m ≡ some inf
      → (inf.is_open ≡ false) ⊎ IsListed ns l

  put-Closing :
      (ns : Text) (inf : IpamInformer H) (l m : Map (IpamInformer H))
      → inf.is_open ≡ false
      → Closing ((ns, inf) ∷ l) m
      → Closing l (put ns inf m)
  put-Closing ns inf l m closed h other x there =
      let found = sym (lookup-put ns other inf m) ∙ there in
      elim (Bool-cases (text_eq ns other)) [
        | inl same ↦ inl (ground (arith, rw same at found))
        | inr differ ↦ elim (h other x (rw differ at found)) [
          | inl done ↦ inl done
          | inr (inl at) ↦ absurd (ground (arith, text_eq_iff ns other))
          | inr (inr listed) ↦ inr listed
        ]
      ]

  stop_each-closes :
      (l m : Map (IpamInformer H))
      → All (λ (x : Text × IpamInformer H). x.1.is_open ≡ true) l
      → Closing l m
      → (m' : Map (IpamInformer H)) × (stop_each l m ≡ some m')
        × ((ns : Text) (inf : IpamInformer H) → lookup ns m' ≡ some inf → inf.is_open ≡ false)
  unfolding stop_each stop
  stop_each-closes [] m open_ones h = (
    m,
    refl,
    λ ns inf there. elim (h ns inf there) [ inl done ↦ done | inr listed ↦ absurd listed ],
  )
  stop_each-closes ((ns, inf) ∷ l) m (o, os) h =
      let (m', done, closed) =
        stop_each-closes l (put ns (record inf { is_open = false }) m) os
          (put-Closing ns (record inf { is_open = false }) l m refl h) in
      (m', rw o done, closed)

  In-start_each :
      (ns : Text) (inf : IpamInformer H) (i : SharedIndexInformer H) (l : Map (IpamInformer H))
      → In (ns, inf) l
      → inf.ipam_informer ≡ some i
      → In i (start_each l)
  unfolding start_each start
  In-start_each ns inf i [] listed h = elim listed [ ]
  In-start_each ns inf i ((k, x) ∷ l) (inl e) h =
      let same : x ≡ inf = sym (ap (λ (p : Text × IpamInformer H). p.1) e) in
      In-append_left i (start x) (start_each l) (rw (same, h) (inl refl))
  In-start_each ns inf i ((k, x) ∷ l) (inr listed) h =
      In-append_right i (start x) (start_each l) (In-start_each ns inf i l listed h)

  -- Of the client that NewIPAMClient returns, in whatever order Go ranges over its maps: Start runs,
  -- for each namespace that the client watches, an informer that lists and watches the namespace with
  -- every label and calls the given handlers, and Stop then closes each of them without a panic.
  pub new_ipam_client-lifecycle :
      (iterate : List Text → List Text) (order : Map (IpamInformer H) → Map (IpamInformer H))
      (made : Constructors) (namespaces : List Text) (handlers : H) (c : IpamClient H)
      → IsRange order
      → new_ipam_client iterate made namespaces handlers ≡ some c
      → ((ns : Text) (inf : IpamInformer H)
          → lookup ns c.ipam_informers ≡ some inf
          → In (watcher ns handlers) (start_client order c))
        × ((c' : IpamClient H) × (stop_client order c ≡ some c')
            × ((ns : Text) (inf : IpamInformer H)
                → lookup ns c'.ipam_informers ≡ some inf
                → inf.is_open ≡ false))
  unfolding start_client stop_client
  new_ipam_client-lifecycle iterate order made namespaces handlers c range e =
      let (h, distinct) = new_ipam_client-IsMade iterate made namespaces handlers c e in
      let m = c.ipam_informers in
      let (m', done, closed) =
        stop_each-closes (order m) m
          (AllMade-open handlers m (order m) h
            (λ x i. In-lookup x.0 x.1 m distinct ((range x m).0 i)))
          (λ ns inf there.
            inr
              (In-IsListed ns inf (order m) ((range (ns, inf) m).1 (lookup-In ns inf m there)))) in
      (
        λ ns inf there.
            In-start_each ns inf (watcher ns handlers) (order m)
              ((range (ns, inf) m).1 (lookup-In ns inf m there))
              (rw (h ns inf there, made_for-watcher) refl),
        (record c { ipam_informers = m' }, rw (done, stop_client) refl, closed),
      )
