-- ===== src/Examples/Copies.antt =====
-- The deep copies of a resource, and of a list of it, with one host spec and an element that is nil.
use f5_ipam_controller_base.Base.{◌≡◌, List, [], ◌∷◌, All, some, none, arith}
use f5_ipam_controller_base.Base.Text.{text}
use f5_ipam_controller_base.Fic.Copy.{Resource, Memory, list_copy, deep_copy, view}
use f5_ipam_controller_base.Fic.Listed.{views, list_copy-IsDisjoint}
use f5_ipam_controller_base.Fic.Disjoint.{IsResource, IsDisjoint, target, deep_copy-IsDisjoint}

abbrev memory : Memory
memory = record {
  resources =
      record {
        name = text "crd";
        namespace = text "kube-system";
        host_specs = some 0;
        ip_status = none;
      }
      ∷ [];
  hosts = record {
    cells = record { host = text "a.com"; cidr = text "10.0.0.0/24" } ∷ [];
    arrays = (some 0 ∷ none ∷ []) ∷ [];
  };
  entries = record { cells = []; arrays = [] };
}

memory-IsResource : IsResource (target (some 0) memory) memory
memory-IsResource = record { specs = (omega arith, (omega arith, (tt, tt))); status = tt }

deep_copy-IsDisjoint_example :
    ((deep_copy (some 0) memory).0 ≡ some 1)
    × (view
          (target (deep_copy (some 0) memory).0 (deep_copy (some 0) memory).1)
          (deep_copy (some 0) memory).1
        ≡ view (target (some 0) memory) memory)
    × IsDisjoint memory
        (target (deep_copy (some 0) memory).0 (deep_copy (some 0) memory).1)
        (deep_copy (some 0) memory).1
    × (view (target (some 0) memory) (deep_copy (some 0) memory).1
        ≡ view (target (some 0) memory) memory)
deep_copy-IsDisjoint_example =
    deep_copy-IsDisjoint 0 memory (target (some 0) memory) memory-IsResource memory-IsResource

abbrev resource : Resource
resource = target (some 0) memory

list_copy-IsDisjoint_example :
    (copies : List Resource) × (after : Memory) × (list_copy (some (some (resource ∷ []))) memory
      ≡ (some (some copies), after))
    × (views copies after ≡ views (resource ∷ []) memory)
    × All (λ r. IsDisjoint memory r after) copies
    × (view resource after ≡ view resource memory)
list_copy-IsDisjoint_example =
    list_copy-IsDisjoint (resource ∷ []) memory resource (memory-IsResource, tt) memory-IsResource
