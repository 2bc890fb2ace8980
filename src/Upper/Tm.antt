-- ===== src/Upper/Tm.antt =====
-- ue/src/upper/rlc_tm.cc: a transparent-mode RLC entity, a queue of SDUs (`ul_queue`). An SDU is the
-- list of its bytes, and `none` a call that waits in the queue or reads through a pointer that is not
-- set.
pub mod Fifo
use srs_ue.Prelude.{
  ℕ, zero, suc, Bool, List, [], Option, none, some, ltb, if◌then◌else◌, length, u32,
}
use srs_ue.Common.MsgQueue
use srs_ue.Common.MsgQueue.{MsgQueue}

-- `N_bytes` of a buffer.
abbrev pub n_bytes : List ℕ → ℕ
n_bytes sdu = u32 (length sdu)

abbrev pub Entity : Type 0
Entity = MsgQueue (List ℕ)

unfoldable pub write_sdu : List ℕ → Entity → Option Entity
write_sdu sdu q = MsgQueue.write n_bytes sdu q

-- The loop of `empty_queue`: a read for each message that `size` counts.
unfoldable pub empty_rounds : ℕ → Entity → Option Entity
empty_rounds zero q = some q
empty_rounds (suc n) q = elim (MsgQueue.read n_bytes q) [
  | none ↦ none
  | some (sdu, q') ↦ empty_rounds n q'
]

-- `empty_queue`, which is `reset` too.
unfoldable pub empty_queue : Entity → Option Entity
unfolding empty_rounds
empty_queue q = empty_rounds (MsgQueue.size q) q

unfoldable pub get_buffer_state : Entity → ℕ
get_buffer_state q = MsgQueue.size_bytes q

-- What is sent; an SDU that is longer than the grant stays, and nothing is sent.
unfoldable pub read_pdu : ℕ → Entity → Option (List ℕ × Entity)
read_pdu nof_bytes q = elim (MsgQueue.size_tail_bytes n_bytes q) [
  | none ↦ none
  | some pdu_size ↦ if ltb nof_bytes pdu_size then some ([], q) else MsgQueue.read n_bytes q
]

-- What the PDCP gets. `allocated` tells whether the pool had a buffer; the code does not ask.
unfoldable pub write_pdu : Bool → List ℕ → Option (List ℕ)
write_pdu allocated payload = if allocated then some payload else none
