-- ===== src/Net/Shapes.antt =====
-- What the parsers return: sixteen bytes.
use f5_ipam_controller_base.Base.{
  ◌&&◌, ◌==◌, ltb→lt, subst, ℕ, zero, suc, ◌+◌, ◌-◌, ◌<◌, ◌≡◌, refl, inl, inr, Option, none, some,
  List, [], ◌∷◌, ◌++◌, length, take, drop, replicate, arith, Bool-cases, Option-cases,
  length-append, ltb,
}
use f5_ipam_controller_base.Base.Text.{Text}
use f5_ipam_controller_base.Net.Address.{Ip, IpNet}
use f5_ipam_controller_base.Net.Bytes.{IsBytes}
use f5_ipam_controller_base.Net.Parse.{
  with_ones, cut_slash, with_mask, starts_with_dot, trailing_ipv4, after_chunk, chunk_end, dtoi,
  xtoi, octet, expect, parse_ipv4, parse_groups, expand_ellipsis, parse_ipv6, parse_cidr, ◌>>=◌,
  Groups,
}

abbrev pub IsAddress : Ip → Type 0
IsAddress ip = IsBytes ip × (length ip ≡ 16)

pub bind-some {ℓ κ} :
    {A : Type ℓ} {B : Type κ} (m : Option A) (f : A → Option B) {b : B}
    → (m >>= f) ≡ some b
    → (a : A) × (m ≡ some a) × (f a ≡ some b)
bind-some none f h = cc
bind-some (some a) f h = (a, refl, h)

pub octet-lt : (s : Text) (n : ℕ) (rest : Text) → octet s ≡ some (n, rest) → n < 256
octet-lt s n rest h = let ((m, r), found, e) = bind-some (dtoi s) _ h in ground arith

parse_ipv4-IsAddress : (s : Text) (ip : Ip) → parse_ipv4 s ≡ some ip → IsAddress ip
unfolding parse_ipv4
parse_ipv4-IsAddress s ip h =
    let ((a, s1), ha, h1) = bind-some (octet s) _ h in
    let (s2, _, h2) = bind-some (expect b'.' s1) _ h1 in
    let ((b, s3), hb, h3) = bind-some (octet s2) _ h2 in
    let (s4, _, h4) = bind-some (expect b'.' s3) _ h3 in
    let ((c, s5), hc, h5) = bind-some (octet s4) _ h4 in
    let (s6, _, h6) = bind-some (expect b'.' s5) _ h5 in
    let ((d, s7), hd, h7) = bind-some (octet s6) _ h6 in
    ground
      (arith, octet-lt s a s1 ha, octet-lt s2 b s3 hb, octet-lt s4 c s5 hc, octet-lt s6 d s7 hd, h7)

IsBytes-append : (xs ys : List ℕ) → IsBytes xs → IsBytes ys → IsBytes (xs ++ ys)
IsBytes-append [] ys h k = k
IsBytes-append (x ∷ xs) ys h k = (h.0, IsBytes-append xs ys h.1 k)

IsBytes-take : (n : ℕ) (xs : List ℕ) → IsBytes xs → IsBytes (take n xs)
IsBytes-take zero xs h = tt
IsBytes-take (suc n) [] h = tt
IsBytes-take (suc n) (x ∷ xs) h = (h.0, IsBytes-take n xs h.1)

IsBytes-drop : (n : ℕ) (xs : List ℕ) → IsBytes xs → IsBytes (drop n xs)
IsBytes-drop zero xs h = h
IsBytes-drop (suc n) [] h = tt
IsBytes-drop (suc n) (x ∷ xs) h = IsBytes-drop n xs h.1

IsBytes-zeros : (n : ℕ) → IsBytes (replicate n 0)
IsBytes-zeros zero = tt
IsBytes-zeros (suc n) = (omega arith, IsBytes-zeros n)

length-zeros : (n : ℕ) → length {A = ℕ} (replicate n 0) ≡ n
length-zeros zero = refl
length-zeros (suc n) = omega (arith, length-zeros n)

length-take-drop : (n : ℕ) (xs : List ℕ) → length (take n xs) + length (drop n xs) ≡ length xs
length-take-drop zero xs = omega arith
length-take-drop (suc n) [] = omega arith
length-take-drop (suc n) (x ∷ xs) = omega (arith, length-take-drop n xs)

-- The bytes of what the loop over the groups leaves.
abbrev BytesOf : Option Groups → Type 0
BytesOf none = Unit
BytesOf (some (ip, e, s)) = IsBytes ip

trailing_ipv4-BytesOf :
    (ip : List ℕ) (e : Option ℕ) (s : Text) → IsBytes ip → BytesOf (trailing_ipv4 ip e s)
unfolding trailing_ipv4
trailing_ipv4-BytesOf ip e s h = elim (Option-cases (parse_ipv4 s)) [
  | inl bad ↦ rw bad (ground arith)
  | inr (ip4, good) ↦ rw good (
      ground (
        arith,
        IsBytes-append ip (drop 12 ip4) h (IsBytes-drop 12 ip4 (parse_ipv4-IsAddress s ip4 good).0),
      ))
]

module _ (next : List ℕ → Option ℕ → Text → Option Groups)
    (keeps : (ip : List ℕ) (e : Option ℕ) (s : Text) → IsBytes ip → BytesOf (next ip e s)) where
  after_chunk-BytesOf :
      (ip : List ℕ) (e : Option ℕ) (s : Text) → IsBytes ip → BytesOf (after_chunk next ip e s)
  unfolding after_chunk
  after_chunk-BytesOf ip e [] h = h
  after_chunk-BytesOf ip e (c ∷ []) h = tt
  after_chunk-BytesOf ip none (c ∷ d ∷ []) h = ground (arith, keeps ip none (d ∷ []) h)
  after_chunk-BytesOf ip none (c ∷ d ∷ x ∷ s) h =
      ground (arith, keeps ip (some (length ip)) (x ∷ s) h, keeps ip none (d ∷ x ∷ s) h)
  after_chunk-BytesOf ip (some e) (c ∷ d ∷ s) h = ground (arith, keeps ip (some e) (d ∷ s) h)

  chunk_end-BytesOf :
      (ip : List ℕ) (e : Option ℕ) (s : Text) (n : ℕ) (rest : Text)
      → IsBytes ip
      → BytesOf (chunk_end next ip e s n rest)
  unfolding chunk_end
  chunk_end-BytesOf ip e s n rest h = elim (Bool-cases (ltb 0xFFFF n)) [
    | inl big ↦ rw big tt
    | inr small ↦ rw small (elim (Bool-cases (starts_with_dot rest)) [
      | inl dot ↦ rw dot (trailing_ipv4-BytesOf ip e s h)
      | inr other ↦
          rw other (
            after_chunk-BytesOf _ e rest (IsBytes-append ip _ h (ground arith, (ground arith, tt))))
    ])
  ]

parse_groups-BytesOf :
    (k : ℕ) (ip : List ℕ) (e : Option ℕ) (s : Text) → IsBytes ip → BytesOf (parse_groups k ip e s)
unfolding parse_groups
parse_groups-BytesOf zero ip e s h = h
parse_groups-BytesOf (suc k) ip e s h = elim (Option-cases (xtoi s)) [
  | inl bad ↦ rw bad tt
  | inr ((n, rest), good) ↦
      rw good (chunk_end-BytesOf (parse_groups k) (parse_groups-BytesOf k) ip e s n rest h)
]

expanded-IsAddress :
    (n : ℕ) (bytes : List ℕ)
    → IsBytes bytes
    → length bytes < 16
    → IsAddress (take n bytes ++ replicate (16 - length bytes) 0 ++ drop n bytes)
expanded-IsAddress n bytes h l =
    let zeros = replicate {A = ℕ} (16 - length bytes) 0 in
    (
      IsBytes-append (take n bytes ++ zeros) (drop n bytes)
          (IsBytes-append (take n bytes) zeros (IsBytes-take n bytes h) (IsBytes-zeros _))
          (IsBytes-drop n bytes h),
      omega (
        arith,
        length-append (take n bytes ++ zeros) (drop n bytes),
        length-append (take n bytes) zeros,
        length-take-drop n bytes,
        length-zeros (16 - length bytes),
      ),
    )

expand_ellipsis-IsAddress :
    (g : Groups) (ip : Ip) → BytesOf (some g) → expand_ellipsis g ≡ some ip → IsAddress ip
unfolding expand_ellipsis
expand_ellipsis-IsAddress (bytes, none, []) ip h e = ground arith
expand_ellipsis-IsAddress (bytes, some n, []) ip h e = elim (Bool-cases (ltb (length bytes) 16)) [
  | inl short ↦
      subst IsAddress (ground arith) (expanded-IsAddress n bytes h (ltb→lt (length bytes) 16 short))
  | inr long ↦ ground arith
]
expand_ellipsis-IsAddress (bytes, p, c ∷ s) ip h e = cc

groups-IsAddress :
    (e : Option ℕ) (s : Text) (ip : Ip)
    → (parse_groups 8 [] e s >>= expand_ellipsis) ≡ some ip
    → IsAddress ip
groups-IsAddress e s ip h =
    let (g, found, done) = bind-some (parse_groups 8 [] e s) expand_ellipsis h in
    expand_ellipsis-IsAddress g ip (rw found at (parse_groups-BytesOf 8 [] e s tt)) done

parse_ipv6-IsAddress : (s : Text) (ip : Ip) → parse_ipv6 s ≡ some ip → IsAddress ip
unfolding parse_ipv6
parse_ipv6-IsAddress (c ∷ d ∷ []) ip h = elim (Bool-cases ((c == b':') && (d == b':'))) [
  | inl all ↦ ground arith
  | inr other ↦ groups-IsAddress none (c ∷ d ∷ []) ip (rw other at h)
]
parse_ipv6-IsAddress (c ∷ d ∷ x ∷ s) ip h = elim (Bool-cases ((c == b':') && (d == b':'))) [
  | inl leading ↦ groups-IsAddress (some 0) (x ∷ s) ip (rw leading at h)
  | inr other ↦ groups-IsAddress none (c ∷ d ∷ x ∷ s) ip (rw other at h)
]
parse_ipv6-IsAddress s ip h = groups-IsAddress none s ip h

with_ones-address :
    (len : ℕ) (addr : Ip) (n : ℕ) (rest : Text) (ip : Ip) (net : IpNet)
    → with_ones len addr n rest ≡ some (ip, net)
    → ip ≡ addr
unfolding with_ones
with_ones-address len addr n [] ip net h = ground arith
with_ones-address len addr n (c ∷ s) ip net h = cc

pub with_mask-address :
    (len : ℕ) (addr : Ip) (mask : Text) (ip : Ip) (net : IpNet)
    → with_mask len addr mask ≡ some (ip, net)
    → ip ≡ addr
unfolding with_mask
with_mask-address len addr mask ip net h =
    let ((n, rest), found, done) = bind-some (dtoi mask) _ h in
    with_ones-address len addr n rest ip net done

-- Whatever the text, an address that ParseCIDR returns has sixteen bytes.
pub parse_cidr-IsAddress :
    (s : Text) (ip : Ip) (net : IpNet) → parse_cidr s ≡ some (ip, net) → IsAddress ip
unfolding parse_cidr
parse_cidr-IsAddress s ip net h =
    let ((addr, mask), cut, rest) = bind-some (cut_slash s) _ h in
    elim (Option-cases (parse_ipv4 addr)) [
      | inr (ip4, good) ↦
          rw (with_mask-address 4 ip4 mask ip net (rw good at rest))
            (parse_ipv4-IsAddress addr ip4 good)
      | inl bad ↦
          let (ip6, good, done) = bind-some (parse_ipv6 addr) _ (rw bad at rest) in
          rw (with_mask-address 16 ip6 mask ip net done) (parse_ipv6-IsAddress addr ip6 good)
    ]
