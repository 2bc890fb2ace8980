-- ===== src/Upper/Um.antt =====
-- ue/src/upper/rlc_um.cc: an unacknowledged-mode RLC entity. Its sending half (`Send`) cuts SDUs into
-- PDUs, its receiving half (`Receive`) reorders PDUs and puts SDUs together. An SDU and a PDU are
-- the lists of their bytes. The mutex makes a history a sequence of calls,
-- and the pool is taken to have a buffer for each SDU that is put together.
pub mod Joined
pub mod Fits
pub mod Stream
pub mod InOrder
pub mod Exchange
pub mod Run
pub mod Drain
pub mod Overflow
pub mod Window
pub mod Taken
pub mod Loops
pub mod Valid
pub mod Upkeep
pub mod Calls
pub mod History
mod Send
mod Receive
unfoldable pub use Send.*
unfoldable pub use Receive.*
