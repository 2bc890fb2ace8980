-- ===== src/Common.antt =====
-- The building blocks of ue/hdr/common and ue/src/common that the layers share.
pub mod Timers
pub mod MsgQueue
