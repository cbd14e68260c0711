-- ===== src/Net/Address.antt =====
-- net.IP and net.IPMask as byte slices: To4, Mask, CIDRMask, Size and IPNet.Contains.
use Prim.Native.Nat.{bit_and}
use f5_ipam_controller_base.Base.{
  ℕ, zero, suc, ◌+◌, ◌-◌, ◌*◌, ◌/◌, ◌%◌, ◌^◌, Bool, true, false, ◌&&◌, Option, none, some, List, [],
  ◌∷◌, ◌++◌, length, take, drop, replicate, leb, ◌==◌, not, if◌then◌else◌,
}

abbrev pub Ip : Type 0
Ip = List ℕ

abbrev pub v4_in_v6_prefix : List ℕ
v4_in_v6_prefix = replicate 10 0 ++ 255 ∷ 255 ∷ []

-- net.IPv4: the 16-byte form.
abbrev pub ipv4 : ℕ → ℕ → ℕ → ℕ → Ip
ipv4 a b c d = 0 ∷ 0 ∷ 0 ∷ 0 ∷ 0 ∷ 0 ∷ 0 ∷ 0 ∷ 0 ∷ 0 ∷ 255 ∷ 255 ∷ a ∷ b ∷ c ∷ d ∷ []

unfoldable pub bytes_equal : List ℕ → List ℕ → Bool
bytes_equal [] [] = true
bytes_equal [] (y ∷ ys) = false
bytes_equal (x ∷ xs) [] = false
bytes_equal (x ∷ xs) (y ∷ ys) = (x == y) && bytes_equal xs ys

-- IP.To4; `none` is nil.
unfoldable pub to4 : Ip → Option Ip
unfolding bytes_equal
to4 ip =
    if length ip == 4
    then some ip
    else if (length ip == 16) && bytes_equal (take 12 ip) v4_in_v6_prefix
    then some (drop 12 ip)
    else none

-- net.CIDRMask of `ones` over `len` bytes.
unfoldable pub cidr_mask : ℕ → ℕ → List ℕ
cidr_mask ones zero = []
cidr_mask ones (suc len) =
    (if leb 8 ones then 255 else 255 - 255 / 2 ^ ones) ∷ cidr_mask (ones - 8) len

unfoldable pub and_bytes : List ℕ → List ℕ → List ℕ
and_bytes [] ms = []
and_bytes (x ∷ xs) [] = []
and_bytes (x ∷ xs) (m ∷ ms) = bit_and x m ∷ and_bytes xs ms

and_same_length : List ℕ → List ℕ → Ip
unfolding and_bytes
and_same_length ip mask = if length ip == length mask then and_bytes ip mask else []

-- IP.Mask; the empty slice is nil.
unfoldable pub mask_ip : Ip → List ℕ → Ip
unfolding and_same_length bytes_equal
mask_ip ip mask =
    if ((length mask == 16) && (length ip == 4)) && bytes_equal (take 12 mask) (replicate 12 255)
    then and_same_length ip (drop 12 mask)
    else if ((length mask == 4) && (length ip == 16)) && bytes_equal (take 12 ip) v4_in_v6_prefix
    then and_same_length (drop 12 ip) mask
    else and_same_length ip mask

-- The one bits at the top of a byte, and whether the bits below them are zero; `k` bits are left.
unfoldable pub leading_ones : ℕ → ℕ → ℕ → Option ℕ
leading_ones zero n v = if v == 0 then some n else none
leading_ones (suc k) n v =
    let more = leading_ones k (n + 1) ((v * 2) % 256) in
    if leb 128 v then more else if v == 0 then some n else none

unfoldable pub all_zero : List ℕ → Bool
all_zero [] = true
all_zero (x ∷ xs) = (x == 0) && all_zero xs

-- simpleMaskLength; `none` is -1.
unfoldable pub simple_mask_length : ℕ → List ℕ → Option ℕ
unfolding leading_ones all_zero
simple_mask_length n [] = some n
simple_mask_length n (v ∷ mask) =
    let more = simple_mask_length (n + 8) mask in
    if v == 255 then more else if all_zero mask then leading_ones 8 n v else none

-- The first result of IPMask.Size.
unfoldable pub mask_size : List ℕ → ℕ
unfolding simple_mask_length
mask_size mask = elim (simple_mask_length 0 mask) [ none ↦ 0 | some n ↦ n ]

pub record IpNet : Type 0 where
  pub ip : Ip
  pub mask : List ℕ

or_self : Option Ip → Ip → Ip
or_self none ip = ip
or_self (some ip4) ip = ip4

-- networkNumberAndMask; a pair of empty slices is nil, nil.
unfoldable pub network_number_and_mask : IpNet → List ℕ × List ℕ
unfolding to4 or_self
network_number_and_mask n =
    let ip = or_self (to4 n.ip) n.ip in
    if not (length ip == 4) && not (length ip == 16)
    then ([], [])
    else if length n.mask == 4
    then (if length ip == 4 then (ip, n.mask) else ([], []))
    else if length n.mask == 16
    then (ip, if length ip == 4 then drop 12 n.mask else n.mask)
    else ([], [])

-- IPNet.Contains.
unfoldable pub net_contains : IpNet → Ip → Bool
unfolding network_number_and_mask or_self and_bytes bytes_equal to4
net_contains n ip =
    let x = or_self (to4 ip) ip in
    let (nn, m) = network_number_and_mask n in
    (length x == length nn) && bytes_equal (and_bytes nn m) (and_bytes x m)
