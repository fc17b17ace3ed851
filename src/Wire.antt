-- ===== src/Wire.antt =====
-- test/e2e/internal/wire: the CBOR codec of the end-to-end harness, written apart from the daemon's.
pub mod Cbor
pub mod Command
pub mod Decode
mod Contents
pub mod Encoded
mod Examples
mod Heads
mod Returns
pub mod RoundTrip
