-- ===== src/Codec.antt =====
-- crates/kobako-codec/src/msgpack: the MessagePack codec over the `rmp` crate, and the payload of an
-- invocation.
pub mod Values
pub mod Rmp
pub mod Decoder
pub mod Encoder
pub mod Sizes
pub mod Legal
pub mod Limits
pub mod RoundTrip
pub mod Payload
mod Runs
