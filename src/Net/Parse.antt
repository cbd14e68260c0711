-- ===== src/Net/Parse.antt =====
-- net.ParseIP and net.ParseCIDR of Go 1.15, over the bytes of the text.
use f5_ipam_controller_base.Base.{
  ℕ, zero, suc, ◌+◌, ◌-◌, ◌*◌, ◌/◌, ◌%◌, Bool, true, false, ◌&&◌, Option, none, some, List, [], ◌∷◌,
  ◌++◌, length, take, drop, replicate, ltb, leb, ◌==◌, not, if◌then◌else◌,
}
use f5_ipam_controller_base.Base.Text.{Text}
use f5_ipam_controller_base.Net.Address.{Ip, ipv4, IpNet, cidr_mask, mask_ip}

infixl 5 ◌>>=◌
abbrev pub ◌>>=◌ {ℓ κ} : {A : Type ℓ} {B : Type κ} → Option A → (A → Option B) → Option B
none >>= f = none
some a >>= f = f a

-- `big` of package net.
abbrev big : ℕ
big = 0xFFFFFF

abbrev pub is_digit : ℕ → Bool
is_digit c = leb b'0' c && leb c b'9'

-- dtoi: the number and the text behind it; `none` is a result that is not ok.
unfoldable pub dtoi_from : ℕ → Text → Option (ℕ × Text)
dtoi_from n [] = some (n, [])
dtoi_from n (c ∷ s) =
    let more = dtoi_from (n * 10 + (c - b'0')) s in
    if is_digit c then (if leb big (n * 10 + (c - b'0')) then none else more) else some (n, c ∷ s)

unfoldable pub dtoi : Text → Option (ℕ × Text)
unfolding dtoi_from
dtoi [] = none
dtoi (c ∷ s) = if is_digit c then dtoi_from 0 (c ∷ s) else none

abbrev pub hex_value : ℕ → Option ℕ
hex_value c =
    if is_digit c
    then some (c - b'0')
    else if leb b'a' c && leb c b'f'
    then some (c - b'a' + 10)
    else if leb b'A' c && leb c b'F'
    then some (c - b'A' + 10)
    else none

-- xtoi.
unfoldable pub xtoi_from : ℕ → Text → Option (ℕ × Text)
xtoi_from n [] = some (n, [])
xtoi_from n (c ∷ s) = elim (hex_value c) [
  | none ↦ some (n, c ∷ s)
  | some d ↦ if leb big (n * 16 + d) then none else xtoi_from (n * 16 + d) s
]

unfoldable pub xtoi : Text → Option (ℕ × Text)
unfolding xtoi_from
xtoi [] = none
xtoi (c ∷ s) = elim (hex_value c) [ none ↦ none | some d ↦ xtoi_from 0 (c ∷ s) ]

abbrev pub octet : Text → Option (ℕ × Text)
octet s = do (n, rest) ← dtoi s; if ltb 255 n then none else some (n, rest)

abbrev pub expect : ℕ → Text → Option Text
expect b [] = none
expect b (c ∷ s) = if c == b then some s else none

abbrev pub at_end : Ip → Text → Option Ip
at_end ip [] = some ip
at_end ip (c ∷ s) = none

-- parseIPv4: leading zeros are accepted.
unfoldable pub parse_ipv4 : Text → Option Ip
parse_ipv4 s = do
  (a, s1) ← octet s
  s2 ← expect b'.' s1
  (b, s3) ← octet s2
  s4 ← expect b'.' s3
  (c, s5) ← octet s4
  s6 ← expect b'.' s5
  (d, s7) ← octet s6
  at_end (ipv4 a b c d) s7

-- What the loop of parseIPv6 leaves: the bytes read, the place of the ellipsis, the text left.
abbrev pub Groups : Type 0
Groups = List ℕ × Option ℕ × Text

-- Behind a 16-bit chunk: the end, a colon, or an ellipsis.
unfoldable pub after_chunk :
    (List ℕ → Option ℕ → Text → Option Groups) → List ℕ → Option ℕ → Text → Option Groups
after_chunk next ip ellipsis [] = some (ip, ellipsis, [])
after_chunk next ip ellipsis (c ∷ []) = none
after_chunk next ip none (c ∷ d ∷ s) =
    if not (c == b':')
    then none
    else if d == b':'
    then elim s [
      | [] ↦ some (ip, some (length ip), [])
      | x ∷ r ↦ next ip (some (length ip)) (x ∷ r)
    ]
    else next ip none (d ∷ s)
after_chunk next ip (some e) (c ∷ d ∷ s) =
    if not (c == b':') then none else if d == b':' then none else next ip (some e) (d ∷ s)

abbrev pub starts_with_dot : Text → Bool
starts_with_dot [] = false
starts_with_dot (c ∷ s) = c == b'.'

abbrev pub is_none : Option ℕ → Bool
is_none none = true
is_none (some n) = false

unfoldable pub trailing_ipv4 : List ℕ → Option ℕ → Text → Option Groups
trailing_ipv4 ip ellipsis s =
    if is_none ellipsis && not (length ip == 12)
    then none
    else if ltb 16 (length ip + 4)
    then none
    else do ip4 ← parse_ipv4 s; some (ip ++ drop 12 ip4, ellipsis, [])

unfoldable pub chunk_end :
    (List ℕ → Option ℕ → Text → Option Groups) → List ℕ → Option ℕ → Text → ℕ → Text → Option Groups
chunk_end next ip ellipsis s n rest =
    if ltb 0xFFFF n
    then none
    else if starts_with_dot rest
    then trailing_ipv4 ip ellipsis s
    else after_chunk next (ip ++ n / 256 ∷ n % 256 ∷ []) ellipsis rest

-- The loop of parseIPv6; the number of groups that are still open bounds it.
unfoldable pub parse_groups : ℕ → List ℕ → Option ℕ → Text → Option Groups
parse_groups zero ip ellipsis s = some (ip, ellipsis, s)
parse_groups (suc k) ip ellipsis s = do
  (n, rest) ← xtoi s
  chunk_end (parse_groups k) ip ellipsis s n rest

-- The whole text must be used, and an ellipsis stands for at least one group.
unfoldable pub expand_ellipsis : Groups → Option Ip
expand_ellipsis (ip, none, []) = if length ip == 16 then some ip else none
expand_ellipsis (ip, some e, []) =
    if ltb (length ip) 16
    then some (take e ip ++ replicate (16 - length ip) 0 ++ drop e ip)
    else none
expand_ellipsis (ip, ellipsis, c ∷ s) = none

parse_ipv6_plain : Text → Option Ip
parse_ipv6_plain s = do g ← parse_groups 8 [] none s; expand_ellipsis g

-- parseIPv6.
unfoldable pub parse_ipv6 : Text → Option Ip
unfolding parse_ipv6_plain
parse_ipv6 (c ∷ d ∷ s) =
    if (c == b':') && (d == b':')
    then elim s [
      | [] ↦ some (replicate 16 0)
      | x ∷ r ↦ parse_groups 8 [] (some 0) (x ∷ r) >>= expand_ellipsis
    ]
    else parse_ipv6_plain (c ∷ d ∷ s)
parse_ipv6 s = parse_ipv6_plain s

-- net.ParseIP looks for the first dot or colon.
unfoldable pub parse_ip_at : Text → Text → Option Ip
parse_ip_at whole [] = none
parse_ip_at whole (c ∷ s) =
    let later = parse_ip_at whole s in
    if c == b'.' then parse_ipv4 whole else if c == b':' then parse_ipv6 whole else later

unfoldable pub parse_ip : Text → Option Ip
unfolding parse_ip_at
parse_ip s = parse_ip_at s s

-- The text before and behind the first slash.
unfoldable pub cut_slash : Text → Option (Text × Text)
cut_slash [] = none
cut_slash (c ∷ s) =
    let later = cut_slash s in
    if c == b'/' then some ([], s) else do (addr, mask) ← later; some (c ∷ addr, mask)

unfoldable pub with_ones : ℕ → Ip → ℕ → Text → Option (Ip × IpNet)
with_ones iplen ip n (c ∷ s) = none
with_ones iplen ip n [] =
    if ltb (8 * iplen) n
    then none
    else some (ip, record { ip = mask_ip ip (cidr_mask n iplen); mask = cidr_mask n iplen })

unfoldable pub with_mask : ℕ → Ip → Text → Option (Ip × IpNet)
with_mask iplen ip mask = do (n, rest) ← dtoi mask; with_ones iplen ip n rest

parse_addr : Option Ip → Text → Text → Option (Ip × IpNet)
parse_addr (some ip) addr mask = with_mask 4 ip mask
parse_addr none addr mask = do ip ← parse_ipv6 addr; with_mask 16 ip mask

-- net.ParseCIDR; `none` is an error.
unfoldable pub parse_cidr : Text → Option (Ip × IpNet)
unfolding parse_addr
parse_cidr s = do (addr, mask) ← cut_slash s; parse_addr (parse_ipv4 addr) addr mask
