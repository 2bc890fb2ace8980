-- ===== src/Mac/Bsr.antt =====
-- ue/src/mac/proc_bsr.cc: the buffer status report procedure. The RLC's queue lengths are the
-- argument `rlc`, the configured timer values `periodic` and `retx`; the two timers of the database
-- that the procedure owns are fields.
mod Defs
mod Rounds
pub mod Totals
pub mod Priority
pub mod Request
pub mod Invariant
unfoldable pub use Defs.*
unfoldable pub use Rounds.*
