-- ===== src/Net/NoColon.antt =====
-- A text without a colon is read as an IPv4 address, or not at all.
use f5_ipam_controller_base.Base.{
  ◌%◌, ◌/◌, ℕ, ◌*◌, ◌+◌, ◌≡◌, refl, inl, inr, false, Option, none, some, List, [], ◌∷◌, length,
  arith, ◌==◌, Option-cases,
}
use f5_ipam_controller_base.Base.Text.{Text, contains}
use f5_ipam_controller_base.Net.Address.{Ip, IpNet, cidr_mask}
use f5_ipam_controller_base.Net.Parse.{
  hex_value, xtoi, xtoi_from, Groups, after_chunk, chunk_end, trailing_ipv4, parse_groups,
  expand_ellipsis, parse_ipv6, parse_ipv4, cut_slash, with_mask, with_ones, parse_cidr, ◌>>=◌, dtoi,
  parse_ipv4,
}
use f5_ipam_controller_base.Net.Shapes.{bind-some, with_mask-address}
use f5_ipam_controller_base.Net.Ipv4.{IsV4, parse_ipv4-IsV4}

xtoi_from-contains :
    (b n k : ℕ) (s rest : Text)
    → xtoi_from n s ≡ some (k, rest)
    → contains s b ≡ false
    → contains rest b ≡ false
unfolding xtoi_from
xtoi_from-contains b n k [] rest h c = ground arith
xtoi_from-contains b n k (x ∷ s) rest h c = elim (Option-cases (hex_value x)) [
  | inl stops ↦ ground (arith, stops)
  | inr (d, goes) ↦ ground (arith, goes, xtoi_from-contains b (n * 16 + d) k s rest)
]

xtoi-contains :
    (b k : ℕ) (s rest : Text)
    → xtoi s ≡ some (k, rest)
    → contains s b ≡ false
    → contains rest b ≡ false
unfolding xtoi
xtoi-contains b k [] rest h c = cc
xtoi-contains b k (x ∷ s) rest h c = elim (Option-cases (hex_value x)) [
  | inl bad ↦ ground (arith, bad)
  | inr (d, good) ↦ ground (arith, good, xtoi_from-contains b 0 k (x ∷ s) rest)
]

after_chunk-no_colon :
    (next : List ℕ → Option ℕ → Text → Option Groups) (ip : List ℕ) (s : Text)
    → length ip ≡ 2
    → contains s b':' ≡ false
    → (after_chunk next ip none s >>= expand_ellipsis) ≡ none
unfolding after_chunk expand_ellipsis
after_chunk-no_colon next ip [] l c = rw l refl
after_chunk-no_colon next ip (x ∷ []) l c = refl
after_chunk-no_colon next ip (x ∷ y ∷ s) l c =
    let other : (x == b':') ≡ false = ground arith in rw other refl

chunk_end-no_colon :
    (next : List ℕ → Option ℕ → Text → Option Groups) (s : Text) (n : ℕ) (rest : Text)
    → contains rest b':' ≡ false
    → (chunk_end next [] none s n rest >>= expand_ellipsis) ≡ none
unfolding chunk_end trailing_ipv4
chunk_end-no_colon next s n rest c =
    ground (arith, after_chunk-no_colon next (n / 256 ∷ n % 256 ∷ []) rest refl c)

cut_slash-contains :
    (b : ℕ) (s addr mask : Text)
    → cut_slash s ≡ some (addr, mask)
    → contains s b ≡ false
    → contains addr b ≡ false
unfolding cut_slash
cut_slash-contains b [] addr mask h c = cc
cut_slash-contains b (x ∷ s) addr mask h c = elim (Option-cases (cut_slash s)) [
  | inl missing ↦ ground (arith, missing)
  | inr ((a, m), found) ↦ ground (arith, found, cut_slash-contains b s a m found)
]

groups-no_colon :
    (s : Text) → contains s b':' ≡ false → (parse_groups 8 [] none s >>= expand_ellipsis) ≡ none
unfolding parse_groups
groups-no_colon s c = elim (Option-cases (xtoi s)) [
  | inl bad ↦ rw bad refl
  | inr ((n, rest), good) ↦
      rw good (chunk_end-no_colon (parse_groups 7) s n rest (xtoi-contains b':' n s rest good c))
]

parse_ipv6-no_colon : (s : Text) → contains s b':' ≡ false → parse_ipv6 s ≡ none
unfolding parse_ipv6
parse_ipv6-no_colon [] c = groups-no_colon [] c
parse_ipv6-no_colon (x ∷ []) c = groups-no_colon (x ∷ []) c
parse_ipv6-no_colon (x ∷ y ∷ s) c =
    let other : (x == b':') ≡ false = ground arith in rw other (groups-no_colon (x ∷ y ∷ s) c)

-- A block of IPv4 addresses.
abbrev pub IsV4Block : IpNet → Type 0
IsV4Block net = length net.mask ≡ 4

with_ones-IsV4Block :
    (addr ip : Ip) (n : ℕ) (rest : Text) (net : IpNet)
    → with_ones 4 addr n rest ≡ some (ip, net)
    → IsV4Block net
unfolding with_ones cidr_mask
with_ones-IsV4Block addr ip n [] net h = ground arith
with_ones-IsV4Block addr ip n (c ∷ s) net h = cc

with_mask-IsV4Block :
    (addr : Ip) (mask : Text) (ip : Ip) (net : IpNet)
    → with_mask 4 addr mask ≡ some (ip, net)
    → IsV4Block net
unfolding with_mask
with_mask-IsV4Block addr mask ip net h =
    let ((n, rest), found, done) = bind-some (dtoi mask) _ h in
    with_ones-IsV4Block addr ip n rest net done

-- Without a colon, ParseCIDR returns an IPv4 address and a block of such.
pub parse_cidr-IsV4 :
    (s : Text) (ip : Ip) (net : IpNet)
    → contains s b':' ≡ false
    → parse_cidr s ≡ some (ip, net)
    → IsV4 ip × IsV4Block net
unfolding parse_cidr
parse_cidr-IsV4 s ip net c h =
    let ((addr, mask), cut, rest) = bind-some (cut_slash s) _ h in
    elim (Option-cases (parse_ipv4 addr)) [
      | inr (ip4, good) ↦ (
        rw (with_mask-address 4 ip4 mask ip net (rw good at rest)) (parse_ipv4-IsV4 addr ip4 good),
        with_mask-IsV4Block ip4 mask ip net (rw good at rest),
      )
      | inl bad ↦
          let (ip6, good, done) = bind-some (parse_ipv6 addr) _ (rw bad at rest) in
          cc (good, parse_ipv6-no_colon addr (cut_slash-contains b':' s addr mask cut c))
    ]
