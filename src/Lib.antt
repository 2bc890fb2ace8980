-- ===== src/Lib.antt =====
-- The MAC procedures and the upper-layer formats of srsUE, the user equipment of an LTE network.
--
-- The program and its files. The PHY (ue/src/phy) calls the MAC (ue/src/mac) once per TTI of one
-- millisecond and for every grant and feedback; the MAC's procedures share one set of timers;
-- below the upper layers (ue/src/upper) RLC cuts SDUs into PDUs with headers, and PDCP numbers
-- and protects SDUs for it; RRC configures all of them. Files by part:
-- + Common/Timers: ue/hdr/common/timers.h. A timer's callback is a number, and what it does is a
--   handler that is an argument of `step_all`.
-- + Common/MsgQueue: ue/hdr/common/msg_queue.h, the ring between the threads. A call that waits
--   is `none`; the operations run under a mutex, so a history is a sequence of them.
-- + Mac/Bsr (Defs: state and loops over channels; Rounds: reports and grants):
--   ue/src/mac/proc_bsr.cc. The RLC's queue lengths are a function argument.
-- + Mac/Sr: ue/src/mac/proc_sr.cc, the scheduling requests that a Regular BSR asks for.
-- + Mac/Ra (Defs, Steps, Events): ue/src/mac/proc_ra.cc. `step` is one TTI; the other functions
--   are the calls of the MAC, the demux and the contention resolution timer. What it tells the
--   PHY, the mux and RRC is the list of actions.
-- + Mac/UlHarq (Defs: a process; Routes: the entity): ue/src/mac/ul_harq.cc.
-- + Mac/Phr: ue/src/mac/proc_phr.cc. `tick` is what one TTI of the MAC (ue/src/mac/mac.cc) does
--   to it: its step and a step of its two timers.
-- + Mac/Pdu: the MAC PDU for the shared channels in ue/src/common/pdu.cc and
--   ue/hdr/common/pdu.h. Subheader: one subheader, written and read; Packet: the template `pdu`
--   and the space that is left; Elements: the control elements and their tables; Write and
--   Parse: `write_packet` and `parse_packet`. The other files prove: Wire, Front, Order and
--   Items say what is sent in which order, Built, Keeps, KeepsSdu and KeepsBytes what holds
--   while a PDU is built, Written, Received and Exchange follow a packet from the one side to
--   the other. A pointer into a packet is the bytes from it on. The loop that reads subheaders
--   runs over the vector that they are read into.
-- + Mac/Rar: the random access response PDU of the same files.
-- + Upper/UmHeader, Upper/AmHeader and, for the length indicators of both, Upper/Extension: the
--   headers of data PDUs in ue/src/upper/rlc_um.cc and rlc_am.cc.
-- + Upper/AmStatus: the STATUS PDU of ue/src/upper/rlc_am.cc, as bits. Reading runs on the
--   number of bits as fuel.
-- + Upper/AmControl: `handle_control_pdu` of the same file on a STATUS PDU that has been read.
--   Of a PDU that was sent the length and the mark are kept. The loop over the sequence numbers
--   has their number as fuel.
-- + Upper/Um (Send, Receive; the other files prove): the unacknowledged-mode entity of
--   ue/src/upper/rlc_um.cc. SDUs and PDUs are lists of bytes; each call of the PDCP, the MAC and
--   the timer is one function, and the calls are sequences under the mutex. What is delivered is
--   returned. The flag `overran` marks a read behind a PDU's end.
-- + Upper/Tm: the transparent-mode entity of ue/src/upper/rlc_tm.cc, on Common/MsgQueue.
-- + Upper/Pdcp (Pack: formats; Defs: the entity): ue/src/upper/pdcp_entity.cc.
-- + Prelude: lists, words, signed numbers, bits and windows of a ring; Tests: the theorems at
--   concrete inputs.
--
-- Numbers. An unsigned field is a natural number and what wraps is written out (u32, sub_u32);
-- an `int` is an integer, or its bits where the code mixes it with unsigned numbers. Most loops
-- run over a list or count down. The three loops of the RLC UM receiver run on fuel: the first
-- of `reassemble_rx_sdus` and that of `timer_expired` have the number of sequence numbers, the
-- second one round more than there are PDUs, and the theorems on them show that this is enough.
-- The loop of `step_all` counts the timers, and is `none` where a handler would take timers
-- away.
--
-- Arguments. The tables of liblte, the codes of the PHY library, `srslte_tti_interval`,
-- `rand()`, the answers of the PHY and the mux, the functions on bits of the PHY library, and
-- the two integrity algorithms are arguments of the definitions that use them.
--
-- Not modelled: the PHY and radio (signal processing and drivers), RRC and NAS, in RLC the
-- choice of the entity, and of the acknowledged one what builds, receives and sends PDUs again,
-- in RLC UM the constructor and init, the mux, demux and downlink HARQ, liblte (a library of its
-- own), logging, capture, metrics, threads and start-up, and in the uplink HARQ the
-- floating-point average and the soft buffer.
pub mod Prelude
pub mod Common
pub mod Mac
pub mod Upper
mod Tests
