-- ===== src/Net.antt =====
-- What the program uses of Go's package net: addresses as byte slices, their parsing and printing,
-- CIDR blocks, and the increment of pkg/provider/provider.go.
pub mod Address
pub mod Parse
pub mod Print
pub mod Cidr
pub mod Bytes
pub mod Shapes
pub mod Ipv4
pub mod NoColon
pub mod RoundTrip
pub mod Dotted
