-- ===== src/Net/RoundTrip.antt =====
-- The dotted form of an IPv4 address is read back, so that it determines the address.
use mathlib.Core.List.{append-nil}
use f5_ipam_controller_base.Base.{
  ℕ, ◌+◌, ◌-◌, ◌*◌, ◌/◌, ◌%◌, ◌<◌, ◌≡◌, refl, ap, ◌∙◌, inl, inr, true, false, some, [], ◌∷◌, ◌++◌,
  arith, Bool-cases, ltb, leb,
}
use f5_ipam_controller_base.Base.Text.{Text}
use f5_ipam_controller_base.Net.Address.{ipv4}
use f5_ipam_controller_base.Net.Parse.{dtoi, dtoi_from, is_digit, octet, parse_ipv4}
use f5_ipam_controller_base.Net.Print.{print_byte, print_ipv4}

-- A text that does not go on with a digit.
abbrev EndsNumber : Text → Type 0
EndsNumber [] = Unit
EndsNumber (c ∷ s) = is_digit c ≡ false

dtoi_from-digit :
    (n d : ℕ) (s : Text)
    → d < 10
    → n * 10 + d < 0xFFFFFF
    → dtoi_from n ((b'0' + d) ∷ s) ≡ dtoi_from (n * 10 + d) s
unfolding dtoi_from
dtoi_from-digit n d s h k = ground arith

dtoi_from-end : (n : ℕ) (s : Text) → EndsNumber s → dtoi_from n s ≡ some (n, s)
unfolding dtoi_from
dtoi_from-end n [] h = refl
dtoi_from-end n (c ∷ s) h = rw h refl

digit-is_digit : (d : ℕ) → d < 10 → is_digit (b'0' + d) ≡ true
digit-is_digit d h = ground arith

dtoi-digit : (d : ℕ) (s : Text) → d < 10 → dtoi ((b'0' + d) ∷ s) ≡ dtoi_from d s
unfolding dtoi
dtoi-digit d s h =
    let same : 0 * 10 + (b'0' + d - b'0') ≡ d = omega arith in
    let small : leb 0xFFFFFF d ≡ false = ground arith in rw (digit-is_digit d h, same, small) refl

dtoi-print_byte :
    (v : ℕ) (s : Text) → v < 256 → EndsNumber s → dtoi (print_byte v ++ s) ≡ some (v, s)
unfolding print_byte
dtoi-print_byte v s h e = elim (Bool-cases (ltb v 10)) [
  | inl one ↦ rw one (dtoi-digit v s (ground arith) ∙ dtoi_from-end v s e)
  | inr more ↦ rw more (elim (Bool-cases (ltb v 100)) [
    | inl two ↦ rw two (
        dtoi-digit (v / 10) _ (ground arith)
        ∙ dtoi_from-digit (v / 10) (v % 10) s (omega arith) (ground arith)
        ∙ dtoi_from-end _ s e
        ∙ ap (λ (n : ℕ). some (n, s)) (omega arith))
    | inr three ↦ rw three (
        dtoi-digit (v / 100) _ (ground arith)
        ∙ dtoi_from-digit (v / 100) ((v / 10) % 10) _ (omega arith) (ground arith)
        ∙ dtoi_from-digit _ (v % 10) s (omega arith) (ground arith)
        ∙ dtoi_from-end _ s e
        ∙ ap (λ (n : ℕ). some (n, s)) (omega arith))
  ])
]

octet-print_byte :
    (v : ℕ) (s : Text) → v < 256 → EndsNumber s → octet (print_byte v ++ s) ≡ some (v, s)
octet-print_byte v s h e = rw (dtoi-print_byte v s h e) (ground arith)

abbrev pub dotted : ℕ → ℕ → ℕ → ℕ → Text
dotted a b c d =
    print_byte a ++ b'.' ∷ (print_byte b ++ b'.' ∷ (print_byte c ++ b'.' ∷ print_byte d))

pub print_ipv4-dotted : (a b c d : ℕ) → print_ipv4 (a ∷ b ∷ c ∷ d ∷ []) ≡ dotted a b c d
unfolding print_ipv4
print_ipv4-dotted a b c d = refl

octet-last : (v : ℕ) → v < 256 → octet (print_byte v) ≡ some (v, [])
octet-last v h = rw (← append-nil (print_byte v)) (octet-print_byte v [] h tt)

parse_ipv4-dotted :
    (a b c d : ℕ)
    → a < 256
    → b < 256
    → c < 256
    → d < 256
    → parse_ipv4 (dotted a b c d) ≡ some (ipv4 a b c d)
unfolding parse_ipv4
parse_ipv4-dotted a b c d ha hb hc hd =
    let after_b = print_byte c ++ b'.' ∷ print_byte d in
    simp (
      octet-print_byte a (b'.' ∷ (print_byte b ++ b'.' ∷ after_b)) ha refl,
      octet-print_byte b (b'.' ∷ after_b) hb refl,
      octet-print_byte c (b'.' ∷ print_byte d) hc refl,
      octet-last d hd,
    )

-- What IP.String prints for an IPv4 address, parseIPv4 reads back.
pub parse_ipv4-print_ipv4 :
    (a b c d : ℕ)
    → a < 256
    → b < 256
    → c < 256
    → d < 256
    → parse_ipv4 (print_ipv4 (a ∷ b ∷ c ∷ d ∷ [])) ≡ some (ipv4 a b c d)
parse_ipv4-print_ipv4 a b c d ha hb hc hd =
    ap parse_ipv4 (print_ipv4-dotted a b c d) ∙ parse_ipv4-dotted a b c d ha hb hc hd
