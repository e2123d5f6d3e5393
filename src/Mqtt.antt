-- ===== src/Mqtt.antt =====
-- src/codec/mqtt.rs: the MQTT 5 codec, bottom up. A `String` is its bytes (Utf8.antt), `u8`, `u16` and
-- `u32` are numbers below 2 ^ 8, 2 ^ 16 and 2 ^ 32.
pub mod Types
pub mod VarInt
pub mod Reader
pub mod Writer
pub mod Property
pub mod Connect
pub mod Publish
pub mod Acks
pub mod Subscribe
pub mod Packet
pub mod Codec
pub mod Fuel
