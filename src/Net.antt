-- ===== src/Net.antt =====
-- The part of Go's net/netip that the program uses. An address is a number with its family; a
-- prefix is an address without a zone and a count of leading bits. `no_addr` and `no_prefix` are the
-- zero values, and stand for every value that IsValid rejects.
pub mod Addr
pub mod Prefix
pub mod Masks
pub mod Overlap
