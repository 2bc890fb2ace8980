-- ===== src/Mac/UlHarq.antt =====
-- ue/src/mac/ul_harq.cc: the uplink HARQ processes and the entity that routes grants and feedback to
-- them (3GPP TS 36.321, 5.4.2). The codes of the PHY library's RNTI types, the configured limits and
-- the mux's answers are arguments.
mod Defs
mod Routes
pub mod Versions
pub mod Limits
pub mod Routing
unfoldable pub use Defs.*
unfoldable pub use Routes.*
