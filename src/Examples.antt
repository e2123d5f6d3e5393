-- ===== src/Examples.antt =====
-- The theorems at concrete inputs.
pub mod Frames
pub mod Json
pub mod Http
pub mod Packets
pub mod Messages
pub mod Echo
pub mod Pipelines
pub mod Connections
pub mod Datagrams
