-- ===== src/Provider/Pool.antt =====
-- What the loop over a range of IPv4 addresses collects.
use native.Mathlib.Decide.{dec_lt}
use f5_ipam_controller_base.Base.{
  ℕ, zero, suc, ◌+◌, ◌<◌, ◌≤◌, ◌≡◌, sym, ap, ◌∙◌, inl, inr, true, some, List, [], ◌∷◌, arith,
  Bool-cases, Option-cases,
}
use f5_ipam_controller_base.Base.Text.{Text, text_eq, text_eq_refl, text_eq-false}
use f5_ipam_controller_base.Net.Address.{Ip, IpNet, net_contains}
use f5_ipam_controller_base.Net.Print.{print_ip}
use f5_ipam_controller_base.Net.Cidr.{inc}
use f5_ipam_controller_base.Net.Ipv4.{all_v4, v4, inc-v4, overflow_outside, print_ip-injective}
use f5_ipam_controller_base.Net.NoColon.{IsV4Block}
use f5_ipam_controller_base.Provider.Ranges.{collect, all_addresses}

-- The printed forms of as many addresses from a number on.
abbrev pub counted : ℕ → ℕ → List Text
counted n zero = []
counted n (suc k) = print_ip (v4 n) ∷ counted (n + 1) k

-- No address behind the last one is in the block.
collect-overflow :
    (fuel : ℕ) (net : IpNet) (n : ℕ) (stop : Text) (ips : List Text)
    → IsV4Block net
    → n + 1 ≡ all_v4
    → collect fuel net (inc (v4 n)) stop ≡ some ips
    → ips ≡ []
unfolding collect
collect-overflow zero net n stop ips b l e = cc
collect-overflow (suc fuel) net n stop ips b l e = ground (arith, overflow_outside net n b l)

-- What is collected are consecutive IPv4 addresses from the first one on.
pub collect-counted :
    (fuel : ℕ) (net : IpNet) (n : ℕ) (stop : Text) (ips : List Text)
    → IsV4Block net
    → n < all_v4
    → collect fuel net (v4 n) stop ≡ some ips
    → (k : ℕ) × (ips ≡ counted n k) × (n + k ≤ all_v4)
unfolding collect
collect-counted zero net n stop ips b h e = cc
collect-counted (suc fuel) net n stop ips b h e = elim (Bool-cases (net_contains net (v4 n))) [
  | inr outside ↦ (0, ground (arith, outside), omega arith)
  | inl inside ↦ elim (Bool-cases (text_eq (print_ip (v4 n)) stop)) [
    | inl stops ↦ (1, ground (arith, inside, stops), omega arith)
    | inr goes ↦ elim (Option-cases (collect fuel net (inc (v4 n)) stop)) [
      | inl open_end ↦ ground (arith, inside, goes, open_end)
      | inr (rest, more) ↦
          let joined : ips ≡ print_ip (v4 n) ∷ rest = ground (arith, inside, goes, more) in
          elim (dec_lt (n + 1) all_v4) [
            | no last ↦ (
              1,
              joined
                  ∙ ap (◌∷◌ (print_ip (v4 n)))
                      (collect-overflow fuel net n stop rest b (omega arith) more),
              omega arith,
            )
            | yes below ↦
                let (k, same, bound) =
                  collect-counted fuel net (n + 1) stop rest b below
                    (ap (λ ip. collect fuel net ip stop) (sym (inc-v4 n below)) ∙ more) in
                (suc k, joined ∙ ap (◌∷◌ (print_ip (v4 n))) same, omega arith)
          ]
    ]
  ]
]

-- Every one of so many addresses from a number on is in the block.
abbrev pub AllInside : IpNet → ℕ → ℕ → Type 0
AllInside net n zero = Unit
AllInside net n (suc k) = (net_contains net (v4 n) ≡ true) × AllInside net (n + 1) k

collect_here :
    (fuel : ℕ) (net : IpNet) (ip : Ip)
    → net_contains net ip ≡ true
    → collect (suc fuel) net ip (print_ip ip) ≡ some (print_ip ip ∷ [])
unfolding collect
collect_here fuel net ip inside = ground (arith, inside, text_eq_refl (print_ip ip))

-- A range all of whose addresses are in the block of its start is collected whole, and exactly.
collect-range_from :
    (fuel : ℕ) (net : IpNet) (n k : ℕ)
    → n + k < all_v4
    → k < fuel
    → AllInside net n (suc k)
    → collect fuel net (v4 n) (print_ip (v4 (n + k))) ≡ some (counted n (suc k))
unfolding collect
collect-range_from zero net n k h f inside = absurd (omega arith)
collect-range_from (suc fuel) net n zero h f inside =
    let here : n + 0 ≡ n = omega arith in
    ap (λ m. collect (suc fuel) net (v4 n) (print_ip (v4 m))) here
    ∙ collect_here fuel net (v4 n) inside.0
collect-range_from (suc fuel) net n (suc k) h f inside =
    let goes =
      text_eq-false (print_ip (v4 n)) (print_ip (v4 (n + suc k)))
        (λ e. absurd (omega (arith, print_ip-injective n (n + suc k) (omega arith) h e))) in
    let shifted : n + suc k ≡ n + 1 + k = omega arith in
    let rest = collect-range_from fuel net (n + 1) k (omega arith) (omega arith) inside.1 in
    let next =
      ap (λ ip. collect fuel net ip (print_ip (v4 (n + suc k)))) (inc-v4 n (omega arith))
      ∙ ap (λ m. collect fuel net (v4 (n + 1)) (print_ip (v4 m))) shifted
      ∙ rest in
    ground (arith, inside.0, goes, next)

-- A range of IPv4 addresses that are all in the block of its start is collected exactly, and whole.
pub collect-range :
    (net : IpNet) (n k : ℕ)
    → n + k < all_v4
    → AllInside net n (suc k)
    → collect all_addresses net (v4 n) (print_ip (v4 (n + k))) ≡ some (counted n (suc k))
collect-range net n k h inside = collect-range_from all_addresses net n k h (omega arith) inside
