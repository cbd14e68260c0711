-- ===== src/Net/Print.antt =====
-- IP.String of package net, and the decimal numbers of fmt.Sprintf.
use f5_ipam_controller_base.Base.{
  ℕ, suc, ◌+◌, ◌-◌, ◌*◌, ◌/◌, ◌%◌, none, some, List, [], ◌∷◌, ◌++◌, length, take, drop, ltb, leb,
  ◌==◌, if◌then◌else◌,
}
use f5_ipam_controller_base.Base.Text.{Text, text}
use f5_ipam_controller_base.Net.Address.{Ip, to4}

-- A byte in decimal, as ubtoa writes it.
unfoldable pub print_byte : ℕ → Text
print_byte v =
    if ltb v 10
    then (b'0' + v) ∷ []
    else if ltb v 100
    then (b'0' + v / 10) ∷ (b'0' + v % 10) ∷ []
    else (b'0' + v / 100) ∷ (b'0' + (v / 10) % 10) ∷ (b'0' + v % 10) ∷ []

unfoldable pub print_ipv4 : List ℕ → Text
unfolding print_byte
print_ipv4 [] = []
print_ipv4 (a ∷ []) = print_byte a
print_ipv4 (a ∷ b ∷ rest) = print_byte a ++ b'.' ∷ print_ipv4 (b ∷ rest)

abbrev hex_digit : ℕ → ℕ
hex_digit d = if ltb d 10 then b'0' + d else b'a' + (d - 10)

-- appendHex of a 16-bit group: no leading zeros.
print_group : ℕ → Text
print_group n =
    if ltb n 16
    then hex_digit n ∷ []
    else if ltb n 256
    then hex_digit (n / 16) ∷ hex_digit (n % 16) ∷ []
    else if ltb n 4096
    then hex_digit (n / 256) ∷ hex_digit ((n / 16) % 16) ∷ hex_digit (n % 16) ∷ []
    else hex_digit (n / 4096)
      ∷ hex_digit ((n / 256) % 16)
      ∷ hex_digit ((n / 16) % 16)
      ∷ hex_digit (n % 16)
      ∷ []

groups_of : List ℕ → List ℕ
groups_of (hi ∷ lo ∷ rest) = (hi * 256 + lo) ∷ groups_of rest
groups_of _ = []

zero_run : List ℕ → ℕ
zero_run [] = 0
zero_run (g ∷ gs) = let more = suc (zero_run gs) in if g == 0 then more else 0

-- The first longest run of zero groups from place `i` on, against the best run so far. Places inside
-- a run are tried too, where the source jumps behind it: their runs are shorter.
longest_run : ℕ → List ℕ → ℕ × ℕ → ℕ × ℕ
unfolding zero_run
longest_run i [] best = best
longest_run i (g ∷ gs) (start, len) =
    longest_run (suc i) gs
      (if ltb len (zero_run (g ∷ gs)) then (i, zero_run (g ∷ gs)) else (start, len))

join_groups : List ℕ → Text
unfolding print_group
join_groups [] = []
join_groups (g ∷ []) = print_group g
join_groups (g ∷ h ∷ gs) = print_group g ++ b':' ∷ join_groups (h ∷ gs)

print_groups : List ℕ → ℕ × ℕ → Text
unfolding join_groups
print_groups gs (start, len) =
    if leb len 1
    then join_groups gs
    else join_groups (take start gs) ++ text "::" ++ join_groups (drop (start + len) gs)

print_hex : List ℕ → Text
print_hex [] = []
print_hex (x ∷ xs) = hex_digit (x / 16) ∷ hex_digit (x % 16) ∷ print_hex xs

print_long : Ip → Text
unfolding print_groups longest_run groups_of print_hex
print_long ip =
    if length ip == 16
    then print_groups (groups_of ip) (longest_run 0 (groups_of ip) (0, 0))
    else b'?' ∷ print_hex ip

-- IP.String.
unfoldable pub print_ip : Ip → Text
unfolding print_ipv4 to4 print_long
print_ip [] = text "<nil>"
print_ip (x ∷ xs) = elim (to4 (x ∷ xs)) [ some ip4 ↦ print_ipv4 ip4 | none ↦ print_long (x ∷ xs) ]
