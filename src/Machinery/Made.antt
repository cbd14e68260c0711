-- ===== src/Machinery/Made.antt =====
-- The informers of a client as NewIPAMClient makes them.
use f5_ipam_controller_base.Base.{
  ◌≡◌, refl, sym, ap, subst, ◌∙◌, inl, inr, Bool, true, false, ◌&&◌, some, List, [], ◌∷◌, In, All,
  Bool-cases, Option-cases, arith, if◌then◌else◌,
}
use f5_ipam_controller_base.Base.Text.{Text, text_eq, text_eq_iff, is_empty}
use f5_ipam_controller_base.Base.Maps.{Map, lookup, put, lookup-put, DistinctKeys, DistinctKeys-put}
use f5_ipam_controller_base.Clientset.Watching.{
  new_filtered_f5ipam_informer, add_event_handler, namespace_index, SharedIndexInformer,
}
use f5_ipam_controller_base.Machinery.Informers.{
  everything, IpamInformer, IpamClient, everything, add_event_handlers, new_namespaced_informer,
  add_namespaced_informer, setup_informers, added, Result-cases, client_of, is_found, is_nil,
  watching_all_namespaces,
}
use f5_ipam_controller_base.System.Quoted.{Some-inj}
use f5_ipam_controller_base.Machinery.Setup.{
  Constructors, setup_clients, new_ipam_client, namespace_keys,
}

module _ {H : Type 0} where
  -- The informer of a namespace as it was made, with the handlers.
  abbrev pub made_for : Text → H → IpamInformer H
  made_for ns handlers = add_event_handlers (new_namespaced_informer ns) handlers

  abbrev pub AllMade : H → Map (IpamInformer H) → Type 0
  AllMade handlers m =
      (ns : Text) (inf : IpamInformer H) → lookup ns m ≡ some inf → inf ≡ made_for ns handlers

  put-AllMade :
      (ns : Text) (handlers : H) (m : Map (IpamInformer H))
      → AllMade handlers m
      → AllMade handlers (put ns (made_for ns handlers) m)
  put-AllMade ns handlers m h other inf there =
      let found = sym (lookup-put ns other (made_for ns handlers) m) ∙ there in
      elim (Bool-cases (text_eq ns other)) [
        | inl same ↦
            let at : made_for ns handlers ≡ inf = ground (arith, rw same at found) in
            sym at ∙ ap (λ (n : Text). made_for n handlers) ((text_eq_iff ns other).0 same)
        | inr differ ↦ h other inf (rw differ at found)
      ]

  -- The informers are as they were made, one for each namespace.
  abbrev pub IsMade : H → Map (IpamInformer H) → Type 0
  IsMade handlers m = AllMade handlers m × DistinctKeys m

  -- All namespaces are asked for beside others.
  abbrev is_second : Text → IpamClient H → Bool
  is_second ns c = (if is_nil c.ipam_informers then false else true) && is_empty ns

  add_namespaced_informer-IsMade :
      (ns : Text) (handlers : H) (c c' : IpamClient H)
      → IsMade handlers c.ipam_informers
      → add_namespaced_informer ns handlers c ≡ added c'
      → IsMade handlers c'.ipam_informers
  unfolding add_namespaced_informer
  add_namespaced_informer-IsMade ns handlers c c' h e =
      subst (λ r. IsMade handlers (client_of r c).ipam_informers) e
        (elim (Bool-cases (watching_all_namespaces c)) [
          | inl all ↦ rw all h
          | inr several ↦ rw several (elim (Bool-cases (is_second ns c)) [
            | inl second ↦ rw second h
            | inr first ↦ rw first (elim (Bool-cases (is_found (lookup ns c.ipam_informers))) [
              | inl there ↦ rw there h
              | inr new ↦ rw new (
                put-AllMade ns handlers c.ipam_informers h.0,
                DistinctKeys-put ns (made_for ns handlers) c.ipam_informers h.1,
              )
            ])
          ])
        ])

  setup_informers-IsMade :
      (namespaces : List Text) (handlers : H) (c : IpamClient H)
      → IsMade handlers c.ipam_informers
      → IsMade handlers (setup_informers namespaces handlers c).0.ipam_informers
  unfolding setup_informers
  setup_informers-IsMade [] handlers c h = h
  setup_informers-IsMade (ns ∷ rest) handlers c h =
      elim (Result-cases (add_namespaced_informer ns handlers c)) [
        | inl (c', e) ↦
            rw (e, setup_informers)
              (setup_informers-IsMade rest handlers c'
                (add_namespaced_informer-IsMade ns handlers c c' h e))
        | inr (err, e) ↦ rw (e, setup_informers) h
      ]

  pub new_ipam_client-IsMade :
      (iterate : List Text → List Text) (made : Constructors) (namespaces : List Text)
      (handlers : H) (c : IpamClient H)
      → new_ipam_client iterate made namespaces handlers ≡ some c
      → IsMade handlers c.ipam_informers
  unfolding new_ipam_client lookup
  new_ipam_client-IsMade iterate made namespaces handlers c e =
      elim (Option-cases (setup_clients made)) [
        | inr (err, broken) ↦ cc (rw (broken, new_ipam_client) at e)
        | inl good ↦
            Some-inj (λ (x : IpamClient H). IsMade handlers x.ipam_informers) _ c
              (rw (good, new_ipam_client) at e)
              (setup_informers-IsMade (iterate (namespace_keys namespaces)) handlers _
                (λ ns inf there. cc, tt))
      ]

  -- The informer that lists and watches a namespace with every label and calls the handlers.
  abbrev pub watcher : Text → H → SharedIndexInformer H
  watcher ns handlers = record {
    namespace = ns;
    tweak_list_options = some everything;
    resync_period = 0;
    indexers = namespace_index ∷ [];
    handlers = handlers ∷ [];
  }

  pub made_for-watcher :
      (ns : Text) (handlers : H)
      → made_for ns handlers
        ≡ record { namespace = ns; is_open = true; ipam_informer = some (watcher ns handlers) }
  unfolding add_event_handlers new_namespaced_informer add_event_handler
      new_filtered_f5ipam_informer
  made_for-watcher ns handlers = refl

  pub AllMade-open :
      (handlers : H) (m l : Map (IpamInformer H))
      → AllMade handlers m
      → ((x : Text × IpamInformer H) → In x l → lookup x.0 m ≡ some x.1)
      → All (λ (x : Text × IpamInformer H). x.1.is_open ≡ true) l
  AllMade-open handlers m [] h found = tt
  AllMade-open handlers m ((ns, inf) ∷ l) h found = (
    rw (h ns inf (found (ns, inf) (inl refl)), made_for-watcher) refl,
    AllMade-open handlers m l h (λ x i. found x (inr i)),
  )
