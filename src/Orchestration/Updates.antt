-- ===== src/Orchestration/Updates.antt =====
-- Which requests an update of the resource makes.
use f5_ipam_controller_base.Base.{
  In-append_right, In-append_left, refl, sym, sym, In-append-cases, not, ◌≡◌, ap, ◌≢◌, ◌↔◌, inl,
  inr, Bool, true, List, [], ◌∷◌, map, keep, arith, In, Bool-cases,
}
use f5_ipam_controller_base.Base.Text.{text_eq, Text, text_eq_iff}
use f5_ipam_controller_base.Fic.{HostSpec, F5Ipam, host_spec_eq}
use f5_ipam_controller_base.Ipamspec.{delete_op, create_op, IpamRequest}
use f5_ipam_controller_base.Orchestration.Resource.{process_update, in_set, spec_set, spec_request}

host_spec_eq_iff : (a b : HostSpec) → (host_spec_eq a b ≡ true) ↔ (a ≡ b)
unfolding host_spec_eq
host_spec_eq_iff a b = ground (arith, text_eq_iff a.host b.host, text_eq_iff a.cidr b.cidr)

in_set_iff : (s : HostSpec) (l : List HostSpec) → (in_set s l ≡ true) ↔ In s l
in_set_iff s [] = (λ h. cc, λ h. elim h [ ])
in_set_iff s (x ∷ l) = ground (arith, host_spec_eq_iff s x, in_set_iff s l)

pub In-spec_set : (s : HostSpec) (l : List HostSpec) → In s (spec_set l) ↔ In s l
unfolding spec_set
In-spec_set s [] = (λ h. h, λ h. h)
In-spec_set s (x ∷ l) = elim (Bool-cases (in_set x (spec_set l))) [
  | inl there ↦
      rw there (ground (arith, In-spec_set s l, in_set_iff x (spec_set l), In-spec_set x l))
  | inr new ↦ rw new (ground (arith, In-spec_set s l))
]

In-keep :
    (p : HostSpec → Bool) (s : HostSpec) (l : List HostSpec)
    → In s (keep p l) ↔ (In s l × (p s ≡ true))
In-keep p s [] = (λ h. elim h [ ], λ h. elim h.0 [ ])
In-keep p s (x ∷ l) = elim (Bool-cases (p x)) [
  | inl kept ↦ rw kept (ground (arith, In-keep p s l))
  | inr gone ↦ rw gone (ground (arith, In-keep p s l))
]

module _ (op : Text) (r : F5Ipam) where
  In-requests :
      (s : HostSpec) (l : List HostSpec)
      → In (spec_request op r s) (map (spec_request op r) l)
      → In s l
  In-requests s [] h = h
  In-requests s (x ∷ l) (inl e) = inl (ground arith)
  In-requests s (x ∷ l) (inr h) = inr (In-requests s l h)

  In-requests_of :
      (s : HostSpec) (l : List HostSpec)
      → In s l
      → In (spec_request op r s) (map (spec_request op r) l)
  In-requests_of s [] h = h
  In-requests_of s (x ∷ l) (inl e) = inl (ap (spec_request op r) e)
  In-requests_of s (x ∷ l) (inr h) = inr (In-requests_of s l h)

  -- A request with another operation is not among them.
  In-other_op :
      (op' : Text) (s : HostSpec) (l : List HostSpec)
      → op' ≢ op
      → ¬ In (spec_request op' r s) (map (spec_request op r) l)
  In-other_op op' s [] n h = h
  In-other_op op' s (x ∷ l) n (inl e) = n (ap (λ (q : IpamRequest). q.operation) e)
  In-other_op op' s (x ∷ l) n (inr h) = In-other_op op' s l n h

create≢delete : ◌≢◌ {A = Text} create_op delete_op
unfolding text_eq
create≢delete h = cc ((text_eq_iff create_op delete_op).1 h)

not-in_set : (s : HostSpec) (l : List HostSpec) → (not (in_set s l) ≡ true) ↔ (¬ In s l)
not-in_set s l = elim (Bool-cases (in_set s l)) [
  | inl there ↦ rw there (λ h. cc, λ h. absurd (h ((in_set_iff s l).0 there)))
  | inr missing ↦ rw missing (λ _ i. cc ((in_set_iff s l).1 i), λ _. refl)
]

-- The keys of one set that are not in another, in the order of a range over the first.
module _ (iterate : List HostSpec → List HostSpec)
    (complete : (s : HostSpec) (l : List HostSpec) → In s (iterate l) ↔ In s l) where
  In-difference :
      (s : HostSpec) (l m : List HostSpec)
      → In s (keep (λ x. not (in_set x (spec_set m))) (iterate (spec_set l)))
        ↔ (In s l × (¬ In s m))
  In-difference s l m = (
    λ h.
        let (i, n) = (In-keep _ s (iterate (spec_set l))).0 h in
        (
          (In-spec_set s l).0 ((complete s (spec_set l)).0 i),
          λ j. (not-in_set s (spec_set m)).0 n ((In-spec_set s m).1 j),
        ),
    λ (i, n). (In-keep _ s (iterate (spec_set l))).1 (
      (complete s (spec_set l)).1 ((In-spec_set s l).1 i),
      (not-in_set s (spec_set m)).1 (λ j. n ((In-spec_set s m).0 j)),
    ),
  )

  -- In whatever order Go ranges over its maps: on an update a DELETE is sent for exactly the host
  -- specs that the old resource has and the new one has not, and a CREATE for exactly those that the
  -- new one has and the old one has not.
  pub process_update-exact :
      (old r : F5Ipam) (s : HostSpec)
      → (In (spec_request delete_op r s) (process_update iterate old r)
          ↔ (In s old.spec.host_specs × (¬ In s r.spec.host_specs)))
        × (In (spec_request create_op r s) (process_update iterate old r)
            ↔ (In s r.spec.host_specs × (¬ In s old.spec.host_specs)))
  unfolding process_update
  process_update-exact old r s =
      let olds = old.spec.host_specs in
      let news = r.spec.host_specs in
      (
        (
          λ h. elim (In-append-cases _ _ _ h) [
            | inl i ↦ (In-difference s olds news).0 (In-requests delete_op r s _ i)
            | inr i ↦ absurd (In-other_op create_op r delete_op s _ (λ e. create≢delete (sym e)) i)
          ],
          λ h.
              In-append_left _ _ _
                (In-requests_of delete_op r s _ ((In-difference s olds news).1 h)),
        ),
        (
          λ h. elim (In-append-cases _ _ _ h) [
            | inl i ↦ absurd (In-other_op delete_op r create_op s _ create≢delete i)
            | inr i ↦ (In-difference s news olds).0 (In-requests create_op r s _ i)
          ],
          λ h.
              In-append_right _ _ _
                (In-requests_of create_op r s _ ((In-difference s news olds).1 h)),
        ),
      )
