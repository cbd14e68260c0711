-- ===== src/Net/Bytes.antt =====
-- An address as a number: what `inc` does to it, and that its bytes are determined by it.
use f5_ipam_controller_base.Base.{
  ==_iff, ltb→lt, sym, ◌∙◌, ◌==◌, ltb, ℕ, ◌+◌, ◌*◌, ◌%◌, ◌<◌, ◌≤◌, ◌≡◌, refl, ap, ◌⊎◌, inl, inr,
  Bool, true, false, List, [], ◌∷◌, length, arith, Bool-cases,
}
use f5_ipam_controller_base.Net.Address.{Ip}
use f5_ipam_controller_base.Net.Cidr.{inc, inc_carry}

abbrev pub IsBytes : List ℕ → Type 0
IsBytes [] = Unit
IsBytes (x ∷ xs) = (x < 256) × IsBytes xs

-- How many addresses have that many bytes.
abbrev pub space : List ℕ → ℕ
space [] = 1
space (x ∷ xs) = 256 * space xs

-- The number with these bytes, the first one highest.
abbrev pub value : List ℕ → ℕ
value [] = 0
value (x ∷ xs) = x * space xs + value xs

mul_step : (x y p : ℕ) → x < y → x * p + p ≤ y * p
mul_step x y p h = grind arith

pub value-lt-space : (xs : List ℕ) → IsBytes xs → value xs < space xs
value-lt-space [] h = omega arith
value-lt-space (x ∷ xs) h = omega (arith, mul_step x 256 (space xs) h.0, value-lt-space xs h.1)

-- The first byte of a number is determined by it.
head_eq : (x y p a b : ℕ) → a < p → b < p → x * p + a ≡ y * p + b → x ≡ y
head_eq x y p a b ha hb e = elim (Bool-cases (ltb x y)) [
  | inl lt ↦ absurd (omega (arith, mul_step x y p (ltb→lt x y lt)))
  | inr ge ↦ elim (Bool-cases (ltb y x)) [
    | inl gt ↦ absurd (omega (arith, mul_step y x p (ltb→lt y x gt)))
    | inr le ↦ ground arith
  ]
]

pub space-length : (xs ys : List ℕ) → length xs ≡ length ys → space xs ≡ space ys
space-length [] [] l = refl
space-length [] (y ∷ ys) l = absurd (omega arith)
space-length (x ∷ xs) [] l = absurd (omega arith)
space-length (x ∷ xs) (y ∷ ys) l = omega (arith, space-length xs ys (omega arith))

-- Two byte lists of one length with one value are equal.
pub value_injective :
    (xs ys : List ℕ)
    → IsBytes xs
    → IsBytes ys
    → length xs ≡ length ys
    → value xs ≡ value ys
    → xs ≡ ys
value_injective [] [] h k l e = refl
value_injective [] (y ∷ ys) h k l e = absurd (omega arith)
value_injective (x ∷ xs) [] h k l e = absurd (omega arith)
value_injective (x ∷ xs) (y ∷ ys) h k l e =
    let same = space-length xs ys (omega arith) in
    let first =
      head_eq x y (space xs) (value xs) (value ys) (value-lt-space xs h.1)
        (rw same (value-lt-space ys k.1)) (e ∙ ap (λ p. y * p + value ys) (sym same)) in
    let rest =
      value_injective xs ys h.1 k.1 (omega arith)
        (omega (arith, ap (λ t. t * space xs) first, ap (λ t. y * t) same)) in
    cc (first, rest)

-- The increment of the low bytes: the next number, or zero with a carry behind the last one.
abbrev Next : List ℕ → List ℕ × Bool → Type 0
Next xs (ys, carry) =
    ((carry ≡ false) × (value ys ≡ value xs + 1))
    ⊎ ((carry ≡ true) × (value xs + 1 ≡ space xs) × (value ys ≡ 0))

pub inc_carry-Shape :
    (xs : List ℕ) → IsBytes xs → (length (inc_carry xs).0 ≡ length xs) × IsBytes (inc_carry xs).0
unfolding inc_carry
inc_carry-Shape [] h = (refl, tt)
inc_carry-Shape (x ∷ xs) h = ground (arith, inc_carry-Shape xs h.1)

inc_carry-Next : (xs : List ℕ) → IsBytes xs → Next xs (inc_carry xs)
unfolding inc_carry
inc_carry-Next [] h = inr (refl, refl, refl)
inc_carry-Next (x ∷ xs) h =
    let same = space-length (inc_carry xs).0 xs (inc_carry-Shape xs h.1).0 in
    elim (inc_carry-Next xs h.1) [
      | inl (c, v) ↦ rw (c, inc_carry) (inl (refl, rw same (omega arith)))
      | inr (c, full, zero_below) ↦ rw c (elim (Bool-cases ((x + 1) % 256 == 0)) [
        | inl wraps ↦
            let byte : (x + 1) % 256 ≡ 0 = (==_iff _ _).0 wraps in
            let top : x ≡ 255 = omega arith in
            inr (wraps, omega (arith, ap (λ t. t * space xs) top), rw byte (omega arith))
        | inr more ↦
            let byte : (x + 1) % 256 ≡ x + 1 = ground arith in
            inl (more, rw (byte, same) (omega arith))
      ])
    ]

pub inc-Shape : (ip : Ip) → IsBytes ip → (length (inc ip) ≡ length ip) × IsBytes (inc ip)
unfolding inc
inc-Shape ip h = inc_carry-Shape ip h

-- `inc` adds one to an address, and takes the last one to zero.
pub value-inc :
    (ip : Ip)
    → IsBytes ip
    → (value (inc ip) ≡ value ip + 1) ⊎ ((value ip + 1 ≡ space ip) × (value (inc ip) ≡ 0))
unfolding inc
value-inc ip h = elim (inc_carry-Next ip h) [
  | inl (c, v) ↦ inl v
  | inr (c, full, low) ↦ inr (full, low)
]
