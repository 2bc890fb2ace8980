-- ===== src/Upper/Pdcp.antt =====
-- ue/src/upper/pdcp_entity.cc: one PDCP entity, with its packing of PDUs.
mod Pack
mod Defs
pub mod Trip
pub mod Security
unfoldable pub use Pack.*
unfoldable pub use Defs.*
