-- ===== src/Provider.antt =====
-- pkg/provider/provider.go: address ranges, CIDRs and A records in front of the store.
pub mod Ranges
pub mod Ipam
pub mod Loop
pub mod Filled
pub mod Pool
pub mod Fresh
pub mod Distinct
pub mod Counted
