-- ===== src/Mac.antt =====
-- The MAC layer's procedures, ue/hdr/mac and ue/src/mac.
pub mod Bsr
pub mod Sr
pub mod Ra
pub mod UlHarq
pub mod Pdu
pub mod Rar
pub mod Phr
