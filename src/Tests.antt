-- ===== src/Tests.antt =====
-- The theorems at concrete inputs, by the part of the program.
mod Common
mod Bsr
mod Ra
mod UlHarq
mod Phr
mod Upper
mod Um
mod Bits
mod Am
mod Tm
mod Pdu
mod Rar
