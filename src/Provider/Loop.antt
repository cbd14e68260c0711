-- ===== src/Provider/Loop.antt =====
-- The loop over the addresses of a range, and that it ends.
use f5_ipam_controller_base.Base.{
  subst, replicate, leb, ◌≢◌, if◌then◌else◌, ℕ, zero, suc, ◌+◌, ◌-◌, ◌<◌, ◌≡◌, sym, ap, ◌∙◌, ◌⊎◌,
  inl, inr, some, List, [], ◌∷◌, length, arith, Bool-cases,
}
use f5_ipam_controller_base.Base.Text.{Text, text_eq, text_eq_iff}
use f5_ipam_controller_base.Net.Address.{Ip, IpNet, net_contains}
use f5_ipam_controller_base.Net.Print.{print_ip}
use f5_ipam_controller_base.Net.Cidr.{inc}
use f5_ipam_controller_base.Net.Bytes.{
  IsBytes, space, value, value-lt-space, value_injective, space-length, inc-Shape, value-inc,
}
use f5_ipam_controller_base.Net.Shapes.{IsAddress}
use f5_ipam_controller_base.Provider.Ranges.{collect, all_addresses}

-- How many increments lead from one number to another in a space where the last is followed by zero.
abbrev distance : ℕ → ℕ → ℕ → ℕ
distance p a b = if leb a b then b - a else p - a + b

distance_step :
    (p a a' b : ℕ)
    → a < p
    → b < p
    → a ≢ b
    → (a' ≡ a + 1) ⊎ ((a + 1 ≡ p) × (a' ≡ 0))
    → distance p a' b < distance p a b
distance_step p a a' b ha hb n s = ground arith

-- With more fuel than there are increments up to the last address the loop ends.
collect_total :
    (fuel : ℕ) (net : IpNet) (ip last : Ip)
    → IsBytes ip
    → IsBytes last
    → length ip ≡ length last
    → distance (space last) (value ip) (value last) < fuel
    → (ips : List Text) × (collect fuel net ip (print_ip last) ≡ some ips)
unfolding collect
collect_total zero net ip last h k l d = elim d [ ]
collect_total (suc fuel) net ip last h k l d = elim (Bool-cases (net_contains net ip)) [
  | inr outside ↦ ([], ground arith)
  | inl inside ↦ elim (Bool-cases (text_eq (print_ip ip) (print_ip last))) [
    | inl stops ↦ (print_ip ip ∷ [], ground arith)
    | inr goes ↦
        let differ : value ip ≢ value last =
          λ e. cc ((text_eq_iff _ _).1 (ap print_ip (value_injective ip last h k l e)), goes) in
        let (shape, bytes) = inc-Shape ip h in
        let same = space-length ip last l in
        let closer =
          distance_step (space last) (value ip) (value (inc ip)) (value last)
            (rw (← same) (value-lt-space ip h)) (value-lt-space last k) differ
            (rw same at (value-inc ip h)) in
        let (ips, done) =
          collect_total fuel net (inc ip) last bytes k (shape ∙ l) (omega (arith, closer)) in
        (print_ip ip ∷ ips, ground (arith, done))
  ]
]

space-16 : (xs : List ℕ) → length xs ≡ 16 → space xs ≡ all_addresses
space-16 xs l = space-length xs (replicate 16 0) l

distance-lt : (p a b : ℕ) → a < p → b < p → distance p a b < p
distance-lt p a b ha hb = ground arith

-- The loop of a range ends with the fuel that the model gives it, whatever the two addresses.
pub collect-all :
    (net : IpNet) (ip last : Ip)
    → IsAddress ip
    → IsAddress last
    → (ips : List Text) × (collect all_addresses net ip (print_ip last) ≡ some ips)
collect-all net ip last (h, l) (k, m) =
    let same = space-length ip last (l ∙ sym m) in
    let near =
      distance-lt (space last) (value ip) (value last)
        (subst (λ p. value ip < p) same (value-lt-space ip h)) (value-lt-space last k) in
    collect_total all_addresses net ip last h k (l ∙ sym m)
      (subst (λ p. distance (space last) (value ip) (value last) < p) (space-16 last m) near)
