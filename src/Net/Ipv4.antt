-- ===== src/Net/Ipv4.antt =====
-- IPv4 addresses by number: printed forms, increments, and the blocks that hold them.
use f5_ipam_controller_base.Base.{
  ℕ, ◌+◌, ◌*◌, ◌/◌, ◌%◌, ◌<◌, ◌≡◌, refl, ap, sym, ◌∙◌, inl, inr, false, some, [], ◌∷◌, length,
  arith, ◌==◌,
}
use f5_ipam_controller_base.Base.Text.{Text}
use f5_ipam_controller_base.Net.Address.{
  Ip, IpNet, ipv4, to4, net_contains, network_number_and_mask,
}
use f5_ipam_controller_base.Net.Bytes.{IsBytes, value, value_injective, value-inc, inc-Shape}
use f5_ipam_controller_base.Net.Cidr.{inc}
use f5_ipam_controller_base.Net.Parse.{parse_ipv4, octet, expect, at_end}
use f5_ipam_controller_base.Net.Shapes.{bind-some, octet-lt}
use f5_ipam_controller_base.Net.Print.{print_ip, print_ipv4}
use f5_ipam_controller_base.Net.RoundTrip.{parse_ipv4-print_ipv4}

abbrev pub all_v4 : ℕ
all_v4 = 0x100000000

-- The address with a number below `all_v4`.
abbrev pub v4 : ℕ → Ip
v4 n = ipv4 (n / 0x1000000) (n / 0x10000 % 256) (n / 256 % 256) (n % 256)

pub print_ip-v4 :
    (n : ℕ)
    → print_ip (v4 n)
      ≡ print_ipv4 (n / 0x1000000 ∷ n / 0x10000 % 256 ∷ n / 256 % 256 ∷ n % 256 ∷ [])
unfolding print_ip to4
print_ip-v4 n = refl

pub parse_ipv4-print_ip : (n : ℕ) → n < all_v4 → parse_ipv4 (print_ip (v4 n)) ≡ some (v4 n)
parse_ipv4-print_ip n h =
    ap parse_ipv4 (print_ip-v4 n)
    ∙ parse_ipv4-print_ipv4 _ _ _ _ (omega arith) (omega arith) (omega arith) (omega arith)

pub v4-IsBytes : (n : ℕ) → n < all_v4 → IsBytes (v4 n)
v4-IsBytes n h = omega arith

value-v4 : (n : ℕ) → n < all_v4 → value (v4 n) ≡ 0xFFFF * all_v4 + n
value-v4 n h = omega arith

v4_injective : (n m : ℕ) → n < all_v4 → m < all_v4 → some (v4 n) ≡ some (v4 m) → n ≡ m
v4_injective n m h k e =
    let same : v4 n ≡ v4 m = cc in omega (arith, ap value same, value-v4 n h, value-v4 m k)

pub print_ip-injective :
    (n m : ℕ) → n < all_v4 → m < all_v4 → print_ip (v4 n) ≡ print_ip (v4 m) → n ≡ m
print_ip-injective n m h k e =
    v4_injective n m h k (sym (parse_ipv4-print_ip n h) ∙ ap parse_ipv4 e ∙ parse_ipv4-print_ip m k)

pub inc-v4 : (n : ℕ) → n + 1 < all_v4 → inc (v4 n) ≡ v4 (n + 1)
inc-v4 n h =
    let (shape, bytes) = inc-Shape (v4 n) (v4-IsBytes n (omega arith)) in
    value_injective _ _ bytes (v4-IsBytes (n + 1) h) shape
      (elim (value-inc (v4 n) (v4-IsBytes n (omega arith))) [
        | inl next ↦ omega (arith, next, value-v4 n (omega arith), value-v4 (n + 1) h)
        | inr (full, low) ↦ absurd (omega (arith, full, value-v4 n (omega arith)))
      ])

-- With a mask of four bytes a network number has four bytes, or none.
number_narrow :
    (net : IpNet) → length net.mask ≡ 4 → (16 == length (network_number_and_mask net).0) ≡ false
unfolding network_number_and_mask
number_narrow net l = ground arith

-- The increment of the last address is in no block of IPv4 addresses.
pub overflow_outside :
    (net : IpNet) (n : ℕ)
    → length net.mask ≡ 4
    → n + 1 ≡ all_v4
    → net_contains net (inc (v4 n)) ≡ false
unfolding net_contains inc
overflow_outside net n l h =
    let last : n ≡ 0xFFFFFFFF = omega arith in rw last (rw (number_narrow net l) refl)

ipv4-v4 :
    (a b c d : ℕ)
    → a < 256
    → b < 256
    → c < 256
    → d < 256
    → ipv4 a b c d ≡ v4 (a * 0x1000000 + b * 0x10000 + c * 256 + d)
ipv4-v4 a b c d ha hb hc hd =
    let n = a * 0x1000000 + b * 0x10000 + c * 256 + d in
    let first : n / 0x1000000 ≡ a = omega arith in
    let second : n / 0x10000 % 256 ≡ b = omega arith in
    let third : n / 256 % 256 ≡ c = omega arith in let fourth : n % 256 ≡ d = omega arith in cc

at_end-eq : (x : Ip) (s : Text) (ip : Ip) → at_end x s ≡ some ip → ip ≡ x
at_end-eq x [] ip h = cc
at_end-eq x (c ∷ s) ip h = cc

-- What parseIPv4 returns.
abbrev pub IsV4 : Ip → Type 0
IsV4 ip = (n : ℕ) × (n < all_v4) × (ip ≡ v4 n)

pub parse_ipv4-IsV4 : (s : Text) (ip : Ip) → parse_ipv4 s ≡ some ip → IsV4 ip
unfolding parse_ipv4
parse_ipv4-IsV4 s ip h =
    let ((a, s1), ha, h1) = bind-some (octet s) _ h in
    let (s2, _, h2) = bind-some (expect b'.' s1) _ h1 in
    let ((b, s3), hb, h3) = bind-some (octet s2) _ h2 in
    let (s4, _, h4) = bind-some (expect b'.' s3) _ h3 in
    let ((c, s5), hc, h5) = bind-some (octet s4) _ h4 in
    let (s6, _, h6) = bind-some (expect b'.' s5) _ h5 in
    let ((d, s7), hd, h7) = bind-some (octet s6) _ h6 in
    let a8 = octet-lt s a s1 ha in
    let b8 = octet-lt s2 b s3 hb in
    let c8 = octet-lt s4 c s5 hc in
    let d8 = octet-lt s6 d s7 hd in
    (
      a * 0x1000000 + b * 0x10000 + c * 256 + d,
      omega arith,
      at_end-eq _ s7 ip h7 ∙ ipv4-v4 a b c d a8 b8 c8 d8,
    )
