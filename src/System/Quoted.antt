-- ===== src/System/Quoted.antt =====
-- The requests that the worker makes of resources whose texts a statement can quote.
use f5_ipam_controller_base.Base.{
  ◌≡◌, refl, subst, ◌↔◌, inl, inr, Bool, true, Option, none, some, List, [], ◌∷◌, ◌++◌, map, keep,
  In, All, All-append, Bool-cases, arith,
}
use f5_ipam_controller_base.Base.Text.{Text, text_eq}
use f5_ipam_controller_base.Fic.{HostSpec, IpSpec, F5Ipam}
use f5_ipam_controller_base.Ipamspec.{IpamRequest, create_op, delete_op}
use f5_ipam_controller_base.Store.Engine.{range_literal, host_literal}
use f5_ipam_controller_base.Controller.Serve.{IsQuoted}
use f5_ipam_controller_base.Orchestration.Resource.{
  RqKey, resource, tombstone, enqueue_ipam, enqueue_updated_ipam, enqueue_deleted_ipam,
  process_resource, process_update, update_key, spec_set, status_request, spec_request, update_op,
}
use f5_ipam_controller_base.Orchestration.Updates.{In-spec_set}
use f5_ipam_controller_base.System.{Event, added, updated, deleted}

pub record IsQuotedSpec (s : HostSpec) : Type 0 where
  pub cidr : range_literal s.cidr ≡ true
  pub host : host_literal s.host ≡ true

pub record IsQuotedEntry (s : IpSpec) : Type 0 where
  pub cidr : range_literal s.cidr ≡ true
  pub host : host_literal s.host ≡ true
  pub ip : range_literal s.ip ≡ true

-- A resource whose hosts, CIDRs and addresses a statement can quote.
pub record IsQuotedResource (r : F5Ipam) : Type 0 where
  pub specs : All IsQuotedSpec r.spec.host_specs
  pub entries : All IsQuotedEntry r.status.ip_status

abbrev pub IsQuotedOld : Option F5Ipam → Type 0
IsQuotedOld none = Unit
IsQuotedOld (some r) = IsQuotedResource r

pub record IsQuotedKey (key : RqKey) : Type 0 where
  pub rsc : IsQuotedResource key.rsc
  pub old : IsQuotedOld key.old_rsc

module _ {A : Type 0} (P : A → Type 0) where
  pub All-of : (xs : List A) → ((x : A) → In x xs → P x) → All P xs
  All-of [] f = tt
  All-of (x ∷ xs) f = (f x (inl refl), All-of xs (λ y i. f y (inr i)))

  In-All : (x : A) (xs : List A) → All P xs → In x xs → P x
  In-All x [] h i = elim i [ ]
  In-All x (y ∷ xs) h (inl e) = rw e h.0
  In-All x (y ∷ xs) h (inr i) = In-All x xs h.1 i

  pub All-keep : (p : A → Bool) (xs : List A) → All P xs → All P (keep p xs)
  All-keep p [] h = tt
  All-keep p (x ∷ xs) h = elim (Bool-cases (p x)) [
    | inl kept ↦ rw kept (h.0, All-keep p xs h.1)
    | inr gone ↦ rw gone (All-keep p xs h.1)
  ]

pub All-map :
    {A B : Type 0} (P : A → Type 0) (Q : B → Type 0) (f : A → B)
    → ((x : A) → P x → Q (f x))
    → (xs : List A) → All P xs
    → All Q (map f xs)
All-map P Q f g [] h = tt
All-map P Q f g (x ∷ xs) h = (g x h.0, All-map P Q f g xs h.1)

empty-IsQuoted : range_literal [] ≡ true
unfolding range_literal text_eq
empty-IsQuoted = refl

module _ (op : Text) (r : F5Ipam) where
  spec_requests :
      (specs : List HostSpec)
      → All IsQuotedSpec specs
      → All IsQuoted (map (spec_request op r) specs)
  spec_requests =
      All-map IsQuotedSpec IsQuoted (spec_request op r)
        (λ s q. record { cidr = q.cidr; ip_addr = empty-IsQuoted; host_name = q.host })

  status_requests :
      (entries : List IpSpec)
      → All IsQuotedEntry entries
      → All IsQuoted (map (status_request op r) entries)
  status_requests =
      All-map IsQuotedEntry IsQuoted (status_request op r)
        (λ s q. record { cidr = q.cidr; ip_addr = q.ip; host_name = q.host })

abbrev pub AllQuoted : Option (List IpamRequest) → Type 0
AllQuoted none = Unit
AllQuoted (some reqs) = All IsQuoted reqs

module _ (iterate : List HostSpec → List HostSpec)
    (complete : (s : HostSpec) (l : List HostSpec) → In s (iterate l) ↔ In s l) where
  iterated :
      (specs : List HostSpec) → All IsQuotedSpec specs → All IsQuotedSpec (iterate (spec_set specs))
  iterated specs q = All-of IsQuotedSpec _ (λ s i.
      In-All IsQuotedSpec s specs q ((In-spec_set s specs).0 ((complete s (spec_set specs)).0 i)))

  process_update-IsQuoted :
      (old r : F5Ipam)
      → IsQuotedResource old
      → IsQuotedResource r
      → All IsQuoted (process_update iterate old r)
  unfolding process_update
  process_update-IsQuoted old r q q' =
      All-append _ _ _
        (spec_requests delete_op r _
          (All-keep IsQuotedSpec _ _ (iterated old.spec.host_specs q.specs)))
        (spec_requests create_op r _
          (All-keep IsQuotedSpec _ _ (iterated r.spec.host_specs q'.specs)))

  update_key-AllQuoted :
      (old : Option F5Ipam) (r : F5Ipam)
      → IsQuotedOld old
      → IsQuotedResource r
      → AllQuoted (update_key iterate old r)
  unfolding update_key
  update_key-AllQuoted none r q q' = tt
  update_key-AllQuoted (some old) r q q' = process_update-IsQuoted old r q q'

  pub process_resource-AllQuoted :
      (key : RqKey) → IsQuotedKey key → AllQuoted (process_resource iterate key)
  unfolding process_resource
  process_resource-AllQuoted key q = elim (Bool-cases (text_eq key.operation create_op)) [
    | inl creates ↦ rw creates (
        All-append _ _ _ (status_requests create_op key.rsc _ q.rsc.entries)
          (spec_requests create_op key.rsc _ q.rsc.specs))
    | inr other ↦ rw other (elim (Bool-cases (text_eq key.operation delete_op)) [
      | inl deletes ↦ rw deletes (status_requests delete_op key.rsc _ q.rsc.entries)
      | inr others ↦ rw others (elim (Bool-cases (text_eq key.operation update_op)) [
        | inl updates ↦ rw updates (update_key-AllQuoted key.old_rsc key.rsc q.old q.rsc)
        | inr unknown ↦ rw unknown tt
      ])
    ])
  ]

pub All-last :
    (P : RqKey → Type 0) (queue : List RqKey) (key : RqKey)
    → All P queue
    → P key
    → All P (queue ++ key ∷ [])
All-last P queue key h q = All-append P queue (key ∷ []) h (q, tt)

pub Some-inj :
    {A : Type 0} (P : A → Type 0) (x y : A) → ◌≡◌ {A = Option A} (some x) (some y) → P x → P y
Some-inj P x y h k = subst P (ground arith) k

-- An event leaves only such keys in the queue.
pub Event-IsQuoted :
    {queue later : List RqKey}
    → Event IsQuotedResource queue later
    → All IsQuotedKey queue
    → All IsQuotedKey later
unfolding enqueue_ipam enqueue_updated_ipam enqueue_deleted_ipam
Event-IsQuoted (added (resource r) q h) k =
    Some-inj (All IsQuotedKey) _ _ h (All-last IsQuotedKey _ _ k (record { rsc = q; old = tt }))
Event-IsQuoted (added (tombstone r) q h) k = cc
Event-IsQuoted (updated (resource o) (resource r) q q' h) k =
    Some-inj (All IsQuotedKey) _ _ h (All-last IsQuotedKey _ _ k (record { rsc = q'; old = q }))
Event-IsQuoted (updated (resource o) (tombstone r) q q' h) k = cc
Event-IsQuoted (updated (tombstone o) cur q q' h) k = cc
Event-IsQuoted (deleted (resource r) q h) k =
    Some-inj (All IsQuotedKey) _ _ h (All-last IsQuotedKey _ _ k (record { rsc = q; old = tt }))
Event-IsQuoted (deleted (tombstone r) q h) k = cc
