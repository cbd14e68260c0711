-- ===== src/Clientset/Selection.antt =====
-- List of the fake client beside the filter of the tracker's items.
use mathlib.Core.List.{append_assoc, append-nil}
use f5_ipam_controller_base.Base.{
  ◌≡◌, sym, ap, ◌∙◌, Bool, some, List, [], ◌∷◌, ◌++◌, keep, inl, inr, Bool-cases,
}
use f5_ipam_controller_base.Base.Text.{Text}
use f5_ipam_controller_base.Fic.{F5Ipam}
use f5_ipam_controller_base.Provider.Ranges.{returns}
use f5_ipam_controller_base.Clientset.{Params}
use f5_ipam_controller_base.Clientset.Fake.{
  Tracker, Object, f5ipams_resource, items, list_action, or_everything, append_matching, fake_list,
  assert_list,
}

append_matching-keep :
    (selects : Params → Bool) (kept l : List (Params × F5Ipam))
    → append_matching selects kept l ≡ kept ++ keep (λ (x : Params × F5Ipam). selects x.0) l
unfolding append_matching
append_matching-keep selects kept [] = sym (append-nil kept)
append_matching-keep selects kept (y ∷ l) = elim (Bool-cases (selects y.0)) [
  | inl takes ↦ rw takes (
      append_matching-keep selects (kept ++ y ∷ []) l
      ∙ append_assoc kept (y ∷ []) (keep (λ (x : Params × F5Ipam). selects x.0) l))
  | inr leaves ↦ rw leaves (append_matching-keep selects kept l)
]

module _ {V M : Type 0} (fake : Tracker V M) where
  -- Where the tracker answers with a list, List of the fake client returns its ListMeta, the items that
  -- the label selector of the options matches, all of them where there is none, in their order, and
  -- the tracker's error.
  pub fake_list-keep :
      (ns : Text) (opts : Params) (v v' : V) (meta : M) (l : List (Params × F5Ipam)) (ok : Bool)
      → fake.invokes (list_action f5ipams_resource ns opts) v ≡ (v', items meta l, ok)
      → fake_list fake ns opts v ≡ (
        v',
        returns (
          some
              (meta, keep (λ (x : Params × F5Ipam). or_everything (fake.extract_label opts) x.0) l),
          ok,
        ),
      )
  unfolding fake_list assert_list
  fake_list-keep ns opts v v' meta l ok h =
      ap
        (λ (x : V × Object M × Bool).
          (x.0, assert_list (or_everything (fake.extract_label opts)) x.1 x.2))
        h
      ∙ ap (λ kept. (v', returns (some (meta, kept), ok)))
          (append_matching-keep (or_everything (fake.extract_label opts)) [] l)
