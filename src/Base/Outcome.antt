-- ===== src/Base/Outcome.antt =====
-- How a call ends.
use f5_ipam_controller_base.Base.{◌≡◌, refl}

-- By returning, by a nil dereference, by os.Exit, or not at all.
pub data Outcome {ℓ} (A : Type ℓ) : Type ℓ where
  returns : A → Outcome A
  panics exits loops : Outcome A

abbrev pub and_then : {A B : Type 0} → Outcome A → (A → Outcome B) → Outcome B
and_then (returns a) f = f a
and_then panics f = panics
and_then exits f = exits
and_then loops f = loops

-- What is returned, if anything is, has the property.
abbrev pub Returned : {A : Type 0} → (A → Type 0) → Outcome A → Type 0
Returned P (returns a) = P a
Returned P _ = Unit

module _ {A B : Type 0} where
  pub and_then-Returned :
      (P : A → Type 0) (Q : B → Type 0) (o : Outcome A) (f : A → Outcome B)
      → Returned P o
      → ((a : A) → P a → Returned Q (f a))
      → Returned Q (and_then o f)
  and_then-Returned P Q (returns a) f h k = k a h
  and_then-Returned P Q panics f h k = tt
  and_then-Returned P Q exits f h k = tt
  and_then-Returned P Q loops f h k = tt

  pub and_then-returns :
      (o : Outcome A) (f : A → Outcome B) (b : B)
      → and_then o f ≡ returns b
      → (a : A) × (o ≡ returns a) × (f a ≡ returns b)
  and_then-returns (returns a) f b h = (a, refl, h)
  and_then-returns panics f b h = cc
  and_then-returns exits f b h = cc
  and_then-returns loops f b h = cc
