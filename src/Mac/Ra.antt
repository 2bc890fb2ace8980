-- ===== src/Mac/Ra.antt =====
-- ue/src/mac/proc_ra.cc: the random access procedure (3GPP TS 36.321, 5.1). RRC's configuration,
-- what the PHY and the mux answer, and `rand()` are arguments of the calls; the calls to the PHY,
-- the mux and RRC are the actions returned.
mod Defs
mod Steps
mod Events
pub mod Preamble
pub mod Attempts
pub mod Contention
unfoldable pub use Defs.*
unfoldable pub use Steps.*
unfoldable pub use Events.*
