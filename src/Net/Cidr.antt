-- ===== src/Net/Cidr.antt =====
-- The printed form of a block, and the increment `inc` of pkg/provider/provider.go.
use f5_ipam_controller_base.Base.{◌+◌, ◌%◌, Bool, true, false, [], ◌∷◌, ◌++◌, ◌==◌, if◌then◌else◌}
use f5_ipam_controller_base.Base.Text.{Text}
use f5_ipam_controller_base.Net.Address.{Ip, IpNet, mask_size}
use f5_ipam_controller_base.Net.Print.{print_ip, print_byte}

-- `inc`, from the last byte on; the flag tells that the byte before must be incremented too.
unfoldable pub inc_carry : Ip → Ip × Bool
inc_carry [] = ([], true)
inc_carry (x ∷ xs) =
    let (ys, carry) = inc_carry xs in
    if carry then (((x + 1) % 256) ∷ ys, (x + 1) % 256 == 0) else (x ∷ ys, false)

unfoldable pub inc : Ip → Ip
unfolding inc_carry
inc ip = (inc_carry ip).0

-- fmt.Sprintf("%s/%v", ipNet.IP.String(), maskSize). A mask has at most 128 ones, which
-- `print_byte` writes as %v does.
unfoldable pub print_block : IpNet → Text
unfolding mask_size print_byte print_ip
print_block n = print_ip n.ip ++ b'/' ∷ print_byte (mask_size n.mask)
