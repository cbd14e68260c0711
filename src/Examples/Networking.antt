-- ===== src/Examples/Networking.antt =====
-- Parsing, increments and the start of a provider at concrete texts.
use f5_ipam_controller_base.Base.{arith, ◌≡◌, refl, ◌⊎◌, [], ◌∷◌, ◌+◌}
use f5_ipam_controller_base.Base.Text.{text}
use f5_ipam_controller_base.Net.Address.{cidr_mask, mask_ip, ipv4}
use f5_ipam_controller_base.Net.Parse.{
  cut_slash, with_ones, with_mask, dtoi, parse_ipv4, parse_cidr,
}
use f5_ipam_controller_base.Net.Cidr.{inc}
use f5_ipam_controller_base.Net.Bytes.{space, value, value-inc}
use f5_ipam_controller_base.Net.Shapes.{IsAddress, parse_cidr-IsAddress}

value-inc_example :
    (value (inc (ipv4 10 0 0 255)) ≡ value (ipv4 10 0 0 255) + 1)
    ⊎ ((value (ipv4 10 0 0 255) + 1 ≡ space (ipv4 10 0 0 255))
        × (value (inc (ipv4 10 0 0 255)) ≡ 0))
value-inc_example = value-inc (ipv4 10 0 0 255) (omega arith)

parse_cidr-IsAddress_example : IsAddress (ipv4 172 16 1 5)
unfolding parse_cidr parse_ipv4 dtoi with_mask with_ones cut_slash mask_ip cidr_mask
parse_cidr-IsAddress_example =
    parse_cidr-IsAddress (text "172.16.1.5/24") (ipv4 172 16 1 5)
      (record { ip = 172 ∷ 16 ∷ 1 ∷ 0 ∷ []; mask = 255 ∷ 255 ∷ 255 ∷ 0 ∷ [] }) refl
