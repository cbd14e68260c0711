-- ===== src/Clientset/Lister.antt =====
-- pkg/ipamapis/client/listers/fic/v1/f5ipam.go: the lister of an index of the F5IPAM resources. The
-- index is client-go's: what it visits under a selector, with whether there was no error, and what it
-- has under a key.
use f5_ipam_controller_base.Base.{Bool, List, [], ◌∷◌, ◌++◌}
use f5_ipam_controller_base.Base.Text.{Text}
use f5_ipam_controller_base.Fic.{F5Ipam}

pub data Lookup : Type 0 where
  index_error missing : Lookup
  found : F5Ipam → Lookup

pub record Indexer (Selector : Type 0) : Type 0 where
  pub visits : Selector → List F5Ipam × Bool
  pub visits_namespace : Text → Selector → List F5Ipam × Bool
  pub get_by_key : Text → Lookup

pub data GetResult : Type 0 where
  got : F5Ipam → GetResult
  failed : GetResult
  not_found : Text → GetResult

-- The callback for each visited object, which appends it.
append_visited : List F5Ipam → List F5Ipam → List F5Ipam
append_visited ret [] = ret
append_visited ret (m ∷ ms) = append_visited (ret ++ m ∷ []) ms

module _ {Selector : Type 0} (index : Indexer Selector) where
  -- `List` of f5IPAMLister.
  unfoldable pub lister_list : Selector → List F5Ipam × Bool
  unfolding append_visited
  lister_list selector =
      let (visited, ok) = index.visits selector in (append_visited [] visited, ok)

  -- `List` of f5IPAMNamespaceLister.
  unfoldable pub namespace_lister_list : Text → Selector → List F5Ipam × Bool
  unfolding append_visited
  namespace_lister_list ns selector =
      let (visited, ok) = index.visits_namespace ns selector in (append_visited [] visited, ok)

  -- `Get` of f5IPAMNamespaceLister.
  unfoldable pub namespace_lister_get : Text → Text → GetResult
  namespace_lister_get ns name = elim (index.get_by_key (ns ++ b'/' ∷ name)) [
    | index_error ↦ failed
    | missing ↦ not_found name
    | found obj ↦ got obj
  ]

-- A lister of a namespace, by its two methods.
pub record NamespaceLister (Selector : Type 0) : Type 0 where
  pub list : Selector → List F5Ipam × Bool
  pub get : Text → GetResult

-- `F5IPAMs` of f5IPAMLister.
unfoldable pub f5ipams : {Selector : Type 0} → Indexer Selector → Text → NamespaceLister Selector
unfolding namespace_lister_list namespace_lister_get
f5ipams index ns = record {
  list = namespace_lister_list index ns;
  get = namespace_lister_get index ns;
}
