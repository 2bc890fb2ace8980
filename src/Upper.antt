-- ===== src/Upper.antt =====
-- The layers above the MAC, ue/hdr/upper and ue/src/upper.
pub mod Extension
pub mod UmHeader
pub mod Um
pub mod AmHeader
pub mod AmStatus
pub mod AmControl
pub mod Tm
pub mod Pdcp
