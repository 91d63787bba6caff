-- ===== src/Tests.antt =====
-- Concrete runs of the model, and the theorems at concrete inputs.
mod PacketRuns
mod WriteRuns
mod ReadRuns
mod TableRuns
mod ListenRuns
mod ShutdownRuns
mod ListingRuns
mod ClientRuns
mod CompressionRuns
pub mod HuffmanRuns
mod FileRuns
mod DeliveryRuns
