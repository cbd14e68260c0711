-- ===== src/Orchestration/Memory.antt =====
-- A cluster that keeps its resources in a list: the assumptions on the API server can be met.
use f5_ipam_controller_base.Base.{
  inr, inl, ◌≡◌, refl, ap, Bool, true, false, Option, none, some, List, [], ◌∷◌, arith, Bool-cases,
  if◌then◌else◌,
}
use f5_ipam_controller_base.Base.Text.{Text, text_eq_iff}
use f5_ipam_controller_base.Fic.{F5Ipam, zero_ipam}
use f5_ipam_controller_base.Machinery.Client.{RestClient, RestRequest, Verb}
use f5_ipam_controller_base.Orchestration.Cluster.{IsCluster, at_key}

unfoldable pub find : List F5Ipam → Text → Text → Option F5Ipam
find [] ns name = none
find (r ∷ rs) ns name = if at_key ns name r.namespace r.name then some r else find rs ns name

replace : Text → F5Ipam → List F5Ipam → List F5Ipam
replace ns obj [] = []
replace ns obj (r ∷ rs) =
    (if at_key ns obj.name r.namespace r.name then obj else r) ∷ replace ns obj rs

abbrev answer : List F5Ipam → Option F5Ipam → List F5Ipam × F5Ipam × Bool
answer w none = (w, zero_ipam, false)
answer w (some r) = (w, r, true)

send_named :
    Verb
    → Text
    → Option Text
    → List Text
    → Option F5Ipam
    → List F5Ipam
    → List F5Ipam × F5Ipam × Bool
unfolding find replace
send_named Verb.get ns (some name) [] body w = answer w (find w ns name)
send_named Verb.put ns (some name) [] (some obj) w = (replace ns obj w, obj, true)
send_named _ ns name subs body w = (w, zero_ipam, false)

unfoldable pub memory_send : RestRequest → List F5Ipam → List F5Ipam × F5Ipam × Bool
unfolding send_named
memory_send q w = send_named q.verb q.namespace q.name q.sub_resources q.body w

abbrev pub memory_cluster : RestClient (List F5Ipam)
memory_cluster = record { send = memory_send; send_list = λ q w. (w, w, true) }

find-named :
    (w : List F5Ipam) (ns name : Text) (r : F5Ipam)
    → find w ns name ≡ some r
    → (r.namespace ≡ ns) × (r.name ≡ name)
unfolding find
find-named [] ns name r h = cc
find-named (x ∷ w) ns name r h =
    ground (arith, find-named w ns name r, text_eq_iff x.namespace ns, text_eq_iff x.name name)

find-replace_ne :
    (w : List F5Ipam) (ns : Text) (obj : F5Ipam) (n m : Text)
    → obj.namespace ≡ ns
    → at_key ns obj.name n m ≡ false
    → find (replace ns obj w) n m ≡ find w n m
unfolding find replace
find-replace_ne [] ns obj n m e h = refl
find-replace_ne (x ∷ w) ns obj n m e h = ground (
  arith,
  find-replace_ne w ns obj n m e h,
  text_eq_iff x.namespace ns,
  text_eq_iff x.name obj.name,
  text_eq_iff x.namespace n,
  text_eq_iff x.name m,
  text_eq_iff obj.namespace n,
  text_eq_iff obj.name m,
  text_eq_iff n ns,
  text_eq_iff m obj.name,
)

find-replace_self :
    (w : List F5Ipam) (ns : Text) (obj old : F5Ipam)
    → obj.namespace ≡ ns
    → find w ns obj.name ≡ some old
    → find (replace ns obj w) ns obj.name ≡ some obj
unfolding find replace
find-replace_self [] ns obj old e h = cc
find-replace_self (x ∷ w) ns obj old e h = ground (
  arith,
  find-replace_self w ns obj old e,
  text_eq_iff x.namespace ns,
  text_eq_iff x.name obj.name,
  text_eq_iff obj.namespace ns,
  text_eq_iff obj.name obj.name,
)

find-replace :
    (w : List F5Ipam) (ns : Text) (obj old : F5Ipam) (n m : Text)
    → obj.namespace ≡ ns
    → find w ns obj.name ≡ some old
    → find (replace ns obj w) n m ≡ (if at_key ns obj.name n m then some obj else find w n m)
find-replace w ns obj old n m e h = elim (Bool-cases (at_key ns obj.name n m)) [
  | inl same ↦
      ground (arith, find-replace_self w ns obj old e h, text_eq_iff n ns, text_eq_iff m obj.name)
  | inr other ↦ ground (arith, find-replace_ne w ns obj n m e other)
]

pub memory-IsCluster : IsCluster memory_cluster find
unfolding memory_send
memory-IsCluster = record {
  named = find-named;
  gets = λ w ns name r h. ap (answer w) h;
  gets_missing = λ w ns name h. ap (answer w) h;
  puts = λ w ns obj old n m e h. find-replace w ns obj old n m e h;
}
