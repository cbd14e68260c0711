-- ===== src/Net/Dotted.antt =====
-- The printed form of an IPv4 address is an IPv4 address to isIPV4Addr of the manager.
use f5_ipam_controller_base.Base.{
  ℕ, ◌+◌, ◌/◌, ◌%◌, ◌<◌, ◌≡◌, refl, sym, ap, ◌∙◌, inl, inr, some, [], ◌∷◌, ◌++◌, arith, Bool-cases,
  ltb,
}
use f5_ipam_controller_base.Base.Text.{Text}
use f5_ipam_controller_base.Base.Absent.{Absent, Absent-append}
use f5_ipam_controller_base.Net.Parse.{parse_ip, parse_ip_at, parse_ipv4}
use f5_ipam_controller_base.Net.Print.{print_ip, print_byte}
use f5_ipam_controller_base.Net.Ipv4.{all_v4, v4, print_ip-v4, parse_ipv4-print_ip}
use f5_ipam_controller_base.Net.RoundTrip.{print_ipv4-dotted, dotted}

parse_ip_at-digit :
    (whole : Text) (d : ℕ) (s : Text)
    → d < 10
    → parse_ip_at whole ((b'0' + d) ∷ s) ≡ parse_ip_at whole s
unfolding parse_ip_at
parse_ip_at-digit whole d s h = ground arith

parse_ip_at-print_byte :
    (whole : Text) (v : ℕ) (s : Text)
    → v < 256
    → parse_ip_at whole (print_byte v ++ s) ≡ parse_ip_at whole s
unfolding print_byte
parse_ip_at-print_byte whole v s h = elim (Bool-cases (ltb v 10)) [
  | inl one ↦ rw one (parse_ip_at-digit whole v s (ground arith))
  | inr more ↦ rw more (elim (Bool-cases (ltb v 100)) [
    | inl two ↦ rw two (
        parse_ip_at-digit whole (v / 10) _ (ground arith)
        ∙ parse_ip_at-digit whole (v % 10) s (omega arith))
    | inr three ↦ rw three (
        parse_ip_at-digit whole (v / 100) _ (ground arith)
        ∙ parse_ip_at-digit whole ((v / 10) % 10) _ (omega arith)
        ∙ parse_ip_at-digit whole (v % 10) s (omega arith))
  ])
]

digit-Absent : (d : ℕ) (s : Text) → d < 10 → Absent b':' s → Absent b':' ((b'0' + d) ∷ s)
digit-Absent d s h a = ground arith

print_byte-Absent : (v : ℕ) → v < 256 → Absent b':' (print_byte v)
unfolding print_byte
print_byte-Absent v h = elim (Bool-cases (ltb v 10)) [
  | inl one ↦ rw one (digit-Absent v [] (ground arith) refl)
  | inr more ↦ rw more (elim (Bool-cases (ltb v 100)) [
    | inl two ↦ rw two (
        digit-Absent (v / 10) ((b'0' + v % 10) ∷ []) (ground arith)
          (digit-Absent (v % 10) [] (omega arith) refl))
    | inr three ↦ rw three (
        digit-Absent (v / 100) ((b'0' + (v / 10) % 10) ∷ (b'0' + v % 10) ∷ []) (ground arith) (
          digit-Absent ((v / 10) % 10) ((b'0' + v % 10) ∷ []) (omega arith)
            (digit-Absent (v % 10) [] (omega arith) refl)))
  ])
]

dotted-Absent : (a b c d : ℕ) → a < 256 → b < 256 → c < 256 → d < 256 → Absent b':' (dotted a b c d)
dotted-Absent a b c d ha hb hc hd = Absent-append b':' (print_byte a) _ (print_byte-Absent a ha) (
    Absent-append b':' (print_byte b) _ (print_byte-Absent b hb)
      (Absent-append b':' (print_byte c) _ (print_byte-Absent c hc) (print_byte-Absent d hd)))

print_ip-dotted :
    (n : ℕ) → print_ip (v4 n) ≡ dotted (n / 0x1000000) (n / 0x10000 % 256) (n / 256 % 256) (n % 256)
print_ip-dotted n = print_ip-v4 n ∙ print_ipv4-dotted _ _ _ _

pub print_ip-Absent : (n : ℕ) → n < all_v4 → Absent b':' (print_ip (v4 n))
print_ip-Absent n h =
    rw (print_ip-dotted n)
      (dotted-Absent _ _ _ _ (omega arith) (omega arith) (omega arith) (omega arith))

parse_ip-dotted : (a b c d : ℕ) → a < 256 → parse_ip (dotted a b c d) ≡ parse_ipv4 (dotted a b c d)
unfolding parse_ip
parse_ip-dotted a b c d h = parse_ip_at-print_byte (dotted a b c d) a _ h

pub parse_ip-print_ip : (n : ℕ) → n < all_v4 → parse_ip (print_ip (v4 n)) ≡ some (v4 n)
parse_ip-print_ip n h =
    ap parse_ip (print_ip-dotted n)
    ∙ parse_ip-dotted _ _ _ _ (omega arith)
    ∙ sym (ap parse_ipv4 (print_ip-dotted n))
    ∙ parse_ipv4-print_ip n h
