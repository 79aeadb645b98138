-- ===== src/Wire.antt =====
-- The MySQL wire encoding, pkg/misc/encoding.go. A byte slice is a list of numbers below 256.
pub mod Write
pub mod Read
pub mod Stores
pub mod RoundTrip
pub mod Strings
pub mod Bounds
mod Examples
