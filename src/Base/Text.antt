-- ===== src/Base/Text.antt =====
-- Go strings as lists of bytes, with the functions of package strings that the program calls.
use Prim.Native.Char.{code}
use Prim.Native.String.{String}
use Prim.Native.Nat.{ℕ, ◌+◌}
use mathlib.Core.Path.{◌≡◌, refl}
use mathlib.Core.Bool.{not, Bool, true, false, ◌&&◌}
use mathlib.Core.List.{List, [], ◌∷◌, map, reverse}
use mathlib.Core.Logic.{inl, inr, ◌↔◌, ◌≢◌}
use native.Mathlib.Omega.{arith}
use f5_ipam_controller_base.Base.Tests.{◌==◌, leb, Bool-cases, if◌then◌else◌}
use f5_ipam_controller_base.Base.Lists.{any}

abbrev pub Text : Type 0
Text = List ℕ

-- A literal: its code points, which are its bytes, since all literals of the program are ASCII.
abbrev pub text : String → Text
text String.[] = []
text (String.◌∷◌ c s) = code c ∷ text s

unfoldable pub text_eq : Text → Text → Bool
text_eq [] [] = true
text_eq [] (d ∷ t) = false
text_eq (c ∷ s) [] = false
text_eq (c ∷ s) (d ∷ t) = (c == d) && text_eq s t

pub text_eq_iff : (s t : Text) → (text_eq s t ≡ true) ↔ (s ≡ t)
unfolding text_eq
text_eq_iff [] [] = (λ _. refl, λ _. refl)
text_eq_iff [] (d ∷ t) = (λ h. cc, λ h. cc)
text_eq_iff (c ∷ s) [] = (λ h. cc, λ h. cc)
text_eq_iff (c ∷ s) (d ∷ t) = ground (arith, text_eq_iff s t)

pub text_eq_refl : (s : Text) → text_eq s s ≡ true
text_eq_refl s = (text_eq_iff s s).1 refl

pub ne_of_text_eq : (s t : Text) → text_eq s t ≡ false → s ≢ t
ne_of_text_eq s t h = ground (arith, text_eq_iff s t)

pub text_eq-false : (s t : Text) → s ≢ t → text_eq s t ≡ false
text_eq-false s t h = ground (arith, text_eq_iff s t)

abbrev pub is_empty : Text → Bool
is_empty [] = true
is_empty (c ∷ s) = false

-- strings.Split for a separator of one byte: the loop, with the field read so far in reverse.
unfoldable pub split_from : ℕ → Text → Text → List Text
split_from sep field [] = reverse field ∷ []
split_from sep field (c ∷ s) =
    let closed = reverse field ∷ split_from sep [] s in
    let longer = split_from sep (c ∷ field) s in if c == sep then closed else longer

unfoldable pub split : Text → ℕ → List Text
unfolding split_from
split s sep = split_from sep [] s

-- A split has at least one field.
pub split_from-cons :
    (sep : ℕ) (field s : Text) → (f : Text) × (fs : List Text) × (split_from sep field s ≡ f ∷ fs)
unfolding split_from
split_from-cons sep field [] = (reverse field, [], refl)
split_from-cons sep field (c ∷ s) = elim (Bool-cases (c == sep)) [
  | inl closed ↦ (reverse field, split_from sep [] s, rw closed)
  | inr longer ↦ rw longer (split_from-cons sep (c ∷ field) s)
]

pub split-cons : (s : Text) (sep : ℕ) → (f : Text) × (fs : List Text) × (split s sep ≡ f ∷ fs)
unfolding split
split-cons s sep = split_from-cons sep [] s

-- strings.Trim for a cutset of one byte.
unfoldable pub trim_left : Text → ℕ → Text
trim_left [] cut = []
trim_left (c ∷ s) cut = let rest = trim_left s cut in if c == cut then rest else c ∷ s

unfoldable pub trim : Text → ℕ → Text
unfolding trim_left
trim s cut = reverse (trim_left (reverse (trim_left s cut)) cut)

-- strings.Contains for a substring of one byte.
abbrev pub contains : Text → ℕ → Bool
contains s b = any (λ c. c == b) s

-- strings.ToLower on ASCII letters; other bytes are kept.
abbrev pub lower_byte : ℕ → ℕ
lower_byte c = if leb b'A' c && leb c b'Z' then c + 32 else c

-- The texts of ASCII in lower case.
abbrev pub to_lower : Text → Text
to_lower s = map lower_byte s

abbrev pub is_ascii : Text → Bool
is_ascii s = not (any (λ c. leb 128 c) s)

-- strings.ToLower of Go, with what it makes of a text that is not ASCII.
unfoldable pub lower : (Text → Text) → Text → Text
lower unicode s = if is_ascii s then to_lower s else unicode s
