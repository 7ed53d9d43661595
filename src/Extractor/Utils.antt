-- ===== src/Extractor/Utils.antt =====
-- pkg/extractor/utils/binary.go: the helpers of the family parsers. A byte slice is a list of
-- numbers below 256; slices are never mutated through an alias.
pub mod Xor
pub mod Rc4
pub mod Sections
pub mod Calls
pub mod Strings
pub mod Ipv4
pub mod Addresses
pub mod Dedup
