-- ===== src/System/Effects.antt =====
-- What a response does to the address of one host and CIDR of one resource, and in which order.

use f5_ipam_controller_base.Base.{
  ◌≡◌, refl, ◌∙◌, sym, ap, inl, inr, Bool, true, false, ◌&&◌, Option, none, some, List, [], ◌∷◌,
  ◌++◌, All, arith, Bool-cases, if◌then◌else◌,
}
use f5_ipam_controller_base.Base.Text.{Text, text_eq_iff}
use f5_ipam_controller_base.Ipamspec.{IpamResponse}
use f5_ipam_controller_base.Orchestration.Entries.{same_key}
use f5_ipam_controller_base.Orchestration.Cluster.{at_key}
use f5_ipam_controller_base.Orchestration.Mapped.{verdict}

-- Two responses are to one host and CIDR of one resource.
abbrev pub same_target : IpamResponse → IpamResponse → Bool
same_target a b =
    at_key a.request.metadata.namespace a.request.metadata.name b.request.metadata.namespace
      b.request.metadata.name
    && same_key a.request.host_name a.request.cidr b.request.host_name b.request.cidr

abbrev pub Apart : IpamResponse → List IpamResponse → Type 0
Apart a = All (λ b. same_target a b ≡ false)

-- No two responses are to one host and CIDR of one resource.
abbrev pub DistinctTargets : List IpamResponse → Type 0
DistinctTargets [] = Unit
DistinctTargets (a ∷ rest) = Apart a rest × DistinctTargets rest

module _ (n m h c : Text) where
  -- The response is to the host and CIDR of the resource.
  abbrev pub is_about : IpamResponse → Bool
  is_about resp =
      at_key resp.request.metadata.namespace resp.request.metadata.name n m
      && same_key resp.request.host_name resp.request.cidr h c

  abbrev pub effect : IpamResponse → Option (Option Text) → Option (Option Text)
  effect resp none = none
  effect resp (some old) = some (if is_about resp then verdict resp old else old)

  abbrev pub effects : List IpamResponse → Option (Option Text) → Option (Option Text)
  effects [] old = old
  effects (resp ∷ resps) old = effects resps (effect resp old)

  is_about-apart :
      (a b : IpamResponse) → same_target a b ≡ false → is_about a ≡ true → is_about b ≡ false
  is_about-apart a b d y = ground (
    arith,
    text_eq_iff n a.request.metadata.namespace,
    text_eq_iff m a.request.metadata.name,
    text_eq_iff a.request.host_name h,
    text_eq_iff a.request.cidr c,
    text_eq_iff n b.request.metadata.namespace,
    text_eq_iff m b.request.metadata.name,
    text_eq_iff b.request.host_name h,
    text_eq_iff b.request.cidr c,
    text_eq_iff b.request.metadata.namespace a.request.metadata.namespace,
    text_eq_iff b.request.metadata.name a.request.metadata.name,
    text_eq_iff a.request.host_name b.request.host_name,
    text_eq_iff a.request.cidr b.request.cidr,
  )

  effect-effect :
      (a b : IpamResponse) (old : Option (Option Text))
      → same_target a b ≡ false
      → effect a (effect b old) ≡ effect b (effect a old)
  effect-effect a b none d = refl
  effect-effect a b (some old) d = elim (Bool-cases (is_about a)) [
    | inl about ↦ rw (about, is_about-apart a b d about) refl
    | inr other ↦ rw other refl
  ]

  -- A response that is apart from those before it may come first.
  pub effects-shift :
      (resp : IpamResponse) (before after : List IpamResponse) (old : Option (Option Text))
      → All (λ b. same_target b resp ≡ false) before
      → effects (before ++ resp ∷ after) old ≡ effects (before ++ after) (effect resp old)
  effects-shift resp [] after old d = refl
  effects-shift resp (b ∷ before) after old (d, ds) =
      effects-shift resp before after (effect b old) ds
      ∙ ap (effects (before ++ after)) (sym (effect-effect b resp old d))

Apart-append :
    (a resp : IpamResponse) (before after : List IpamResponse)
    → Apart a (before ++ resp ∷ after)
    → (same_target a resp ≡ false) × Apart a (before ++ after)
Apart-append a resp [] after d = d
Apart-append a resp (b ∷ before) after (d, ds) =
    let rest_apart = Apart-append a resp before after ds in (rest_apart.0, (d, rest_apart.1))

-- Taking one response out leaves the others apart, and those before it are apart from it.
pub DistinctTargets-take :
    (resp : IpamResponse) (before after : List IpamResponse)
    → DistinctTargets (before ++ resp ∷ after)
    → All (λ b. same_target b resp ≡ false) before × DistinctTargets (before ++ after)
DistinctTargets-take resp [] after d = (tt, d.1)
DistinctTargets-take resp (b ∷ before) after (d, ds) =
    let (first, others) = DistinctTargets-take resp before after ds in
    let (apart, rest_apart) = Apart-append b resp before after d in
    ((apart, first), (rest_apart, others))
