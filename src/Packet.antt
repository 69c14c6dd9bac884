-- ===== src/Packet.antt =====
-- The packet protocol of the network layer: src/interface/packet_stream.h and
-- src/impl/packet_stream.cpp. The child modules hold the proofs.
pub mod Registry
pub mod Wire
pub mod Output
pub mod Input
pub mod Frames
pub mod Chunks
pub mod Sender
pub mod RoundTrip
pub mod Feed
pub mod HighTypes
mod Examples
