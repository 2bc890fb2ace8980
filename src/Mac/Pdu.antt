-- ===== src/Mac/Pdu.antt =====
-- The MAC PDUs of ue/src/common/pdu.cc and ue/hdr/common/pdu.h.
pub mod Subheader
pub mod Packet
pub mod Elements
pub mod Write
pub mod Wire
pub mod Front
pub mod Order
pub mod Parse
pub mod SubheaderTrip
pub mod Trip
pub mod Received
pub mod Buffer
pub mod Built
pub mod Written
pub mod Items
pub mod Exchange
pub mod Grow
pub mod Keeps
pub mod KeepsSdu
pub mod KeepsBytes
pub mod Levels
pub mod ElementTrip
pub mod Start
