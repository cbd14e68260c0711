-- ===== src/Base/Absent.antt =====
-- Texts in which a byte does not occur, and what splitting and trimming make of them.
use mathlib.Core.List.{reverse-cons, append-nil, append_assoc}
use f5_ipam_controller_base.Base.Tests.{◌==◌, Bool-cases}
use f5_ipam_controller_base.Base.Lists.{All}
use f5_ipam_controller_base.Base.Text.{Text, contains, split, split_from, trim, trim_left}
use Prim.Native.Nat.{ℕ}
use mathlib.Core.Path.{◌≡◌, refl, ap, sym, ◌∙◌}
use mathlib.Core.Logic.{inl, inr}
use mathlib.Core.Bool.{false}
use mathlib.Core.List.{[], ◌∷◌, ◌++◌, reverse}
use native.Mathlib.Omega.{arith}

module _ (b : ℕ) where
  -- The byte does not occur.
  abbrev pub Absent : Text → Type 0
  Absent s = contains s b ≡ false

  pub Absent-append : (s t : Text) → Absent s → Absent t → Absent (s ++ t)
  Absent-append [] t h k = k
  Absent-append (c ∷ s) t h k = ground (arith, Absent-append s t)

  Absent-reverse : (s : Text) → Absent s → Absent (reverse s)
  Absent-reverse [] h = refl
  Absent-reverse (c ∷ s) h =
      rw (reverse-cons c s)
        (Absent-append (reverse s) (c ∷ []) (Absent-reverse s (ground arith)) (ground arith))

  Absent-trim_left : (cut : ℕ) (s : Text) → Absent s → Absent (trim_left s cut)
  unfolding trim_left
  Absent-trim_left cut [] h = refl
  Absent-trim_left cut (c ∷ s) h = ground (arith, Absent-trim_left cut s)

  pub Absent-trim : (cut : ℕ) (s : Text) → Absent s → Absent (trim s cut)
  unfolding trim
  Absent-trim cut s h =
      Absent-reverse _ (Absent-trim_left cut _ (Absent-reverse _ (Absent-trim_left cut s h)))

  Absent-split_from :
      (sep : ℕ) (field s : Text) → Absent field → Absent s → All Absent (split_from sep field s)
  unfolding split_from
  Absent-split_from sep field [] h k = (Absent-reverse field h, tt)
  Absent-split_from sep field (c ∷ s) h k = elim (Bool-cases (c == sep)) [
    | inl closed ↦
        rw closed (Absent-reverse field h, Absent-split_from sep [] s refl (ground arith))
    | inr longer ↦ rw longer (Absent-split_from sep (c ∷ field) s (ground arith) (ground arith))
  ]

  pub Absent-split : (sep : ℕ) (s : Text) → Absent s → All Absent (split s sep)
  unfolding split
  Absent-split sep s h = Absent-split_from sep [] s refl h

  split_from-Absent : (field s : Text) → Absent s → split_from b field s ≡ (reverse field ++ s) ∷ []
  unfolding split_from
  split_from-Absent field [] h = ap (λ f. f ∷ []) (sym (append-nil (reverse field)))
  split_from-Absent field (c ∷ s) h =
      let other : (c == b) ≡ false = ground arith in
      rw other (
        split_from-Absent (c ∷ field) s (ground arith)
        ∙ ap (λ f. f ∷ [])
            (ap (λ f. f ++ s) (reverse-cons c field) ∙ append_assoc (reverse field) (c ∷ []) s))

  -- Without the separator a split has the text as its one field.
  pub split-Absent : (s : Text) → Absent s → split s b ≡ s ∷ []
  unfolding split
  split-Absent s h = split_from-Absent [] s h
