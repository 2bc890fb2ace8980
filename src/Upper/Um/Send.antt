-- ===== src/Upper/Um/Send.antt =====
-- ue/src/upper/rlc_um.cc: SDUs into PDUs.
use srs_ue.Prelude.{
  ℕ, ◌+◌, ◌-◌, ◌%◌, Bool, true, false, not, ◌&&◌, ◌||◌, List, [], ◌∷◌, ◌++◌, Option, none, some,
  ltb, leb, ◌==◌, if◌then◌else◌, length, take, drop, u32,
}
use srs_ue.Upper.Extension.{extension_length}
use srs_ue.Upper.UmHeader.{
  SnSize, sn_5_bits, sn_10_bits, Header, fixed_length, write_data_pdu_header,
}

-- The queue of SDUs, oldest first, the SDU that is sent in part, and the sequence numbers.
pub record Tx : Type 0 where
  pub tx_sdu_queue : List (List ℕ)
  pub tx_sdu : Option (List ℕ)
  pub vt_us : ℕ
  pub tx_mod : ℕ
  pub tx_sn_field_length : SnSize

abbrev pub modulus : SnSize → ℕ
modulus sn_5_bits = 32
modulus sn_10_bits = 1024

-- `configure`, the part for sending.
unfoldable configure_tx : SnSize → Tx → Tx
configure_tx size t = record t { tx_sn_field_length = size; tx_mod = modulus size }

-- `reset`, the part for sending, with `empty_queue`; the rest of an SDU in part is emptied, not freed.
unfoldable reset_tx : Tx → Tx
reset_tx t = record t {
  vt_us = 0;
  tx_sdu = elim t.tx_sdu [ none ↦ none | some s ↦ some [] ];
  tx_sdu_queue = [];
}

-- The queue holds 16 SDUs; `none` is a call that waits.
unfoldable pub write_sdu : List ℕ → Tx → Option Tx
write_sdu sdu t =
    if length t.tx_sdu_queue == 16
    then none
    else some (record t { tx_sdu_queue = t.tx_sdu_queue ++ sdu ∷ [] })

-- `tx_sdu_queue.size_bytes()`.
unfoldable pub size_bytes : List (List ℕ) → ℕ
size_bytes [] = 0
size_bytes (s ∷ q) = length s + size_bytes q

abbrev pub part_of : Option (List ℕ) → List ℕ
part_of none = []
part_of (some s) = s

abbrev pub is_some : Option (List ℕ) → Bool
is_some none = false
is_some (some s) = true

unfoldable pub get_buffer_state : Tx → ℕ
unfolding size_bytes
get_buffer_state t =
    let n_sdus = length t.tx_sdu_queue + (if is_some t.tx_sdu then 1 else 0) in
    let n_bytes = size_bytes t.tx_sdu_queue + length (part_of t.tx_sdu) in
    let extended = if ltb 1 n_sdus then n_bytes + extension_length (n_sdus - 1) else n_bytes in
    u32 (if ltb 0 extended then extended + 2 else extended)

-- `rlc_um_packed_length` of the header so far.
abbrev pub head_length : SnSize → List ℕ → ℕ
head_length size li = fixed_length size + extension_length (length li)

-- `((pdu_space-head_len) >= N_bytes) ? N_bytes : pdu_space-head_len`. The difference is an `int` and is
-- compared as unsigned, so a negative one is above any length.
abbrev pub to_move : ℕ → ℕ → ℕ → ℕ
to_move pdu_space head_len n =
    if ltb pdu_space head_len
    then n
    else if leb n (pdu_space - head_len)
    then n
    else pdu_space - head_len

-- The variables of `build_data_pdu`. `pdu_space` is an `int`; once it is below 0 nothing is moved any
-- more, as for the 0 here.
pub record Filling : Type 0 where
  pub li : List ℕ
  pub last_li : ℕ
  pub bytes : List ℕ
  pub pdu_space : ℕ
  pub sdu : Option (List ℕ)
  pub queue : List (List ℕ)

-- What is left of an SDU of which `n` bytes are moved.
abbrev pub remainder : ℕ → List ℕ → Option (List ℕ)
remainder n s = if length s == n then none else some (drop n s)

-- One SDU, or the rest of one, moved as far as it fits.
unfoldable pub move_sdu : ℕ → List ℕ → Filling → Filling
move_sdu head_len s f =
    let n = to_move f.pdu_space head_len (length s) in
    record f {
      last_li = n;
      bytes = f.bytes ++ take n s;
      pdu_space = f.pdu_space - n;
      sdu = remainder n s;
    }

-- The indicator for the segment before, if it is not empty.
abbrev pub with_last : Filling → List ℕ
with_last f = if ltb 0 f.last_li then f.li ++ f.last_li ∷ [] else f.li

-- The loop that pulls SDUs from the queue; `head_len` is that of the last round.
unfoldable pub pull_sdus : SnSize → ℕ → List (List ℕ) → Filling → Filling
unfolding move_sdu
pull_sdus size head_len [] f = record f { queue = [] }
pull_sdus size head_len (s ∷ q) f =
    let head' = head_length size (with_last f) in
    let pulled = pull_sdus size head' q (move_sdu head' s (record f { li = with_last f })) in
    if ltb head_len f.pdu_space then pulled else record f { queue = s ∷ q }

abbrev pub no_filling : ℕ → List (List ℕ) → Filling
no_filling nof_bytes q = record {
  li = [];
  last_li = 0;
  bytes = [];
  pdu_space = nof_bytes;
  sdu = none;
  queue = q;
}

-- The rest of the SDU that was sent in part, if any.
unfoldable pub start_filling : ℕ → SnSize → Option (List ℕ) → List (List ℕ) → Filling
unfolding move_sdu
start_filling nof_bytes size none q = no_filling nof_bytes q
start_filling nof_bytes size (some s) q = move_sdu (fixed_length size) s (no_filling nof_bytes q)

-- The rest, and then the SDUs from the queue.
unfoldable pub fill_pdu : ℕ → SnSize → Option (List ℕ) → List (List ℕ) → Filling
unfolding start_filling pull_sdus
fill_pdu nof_bytes size sdu q =
    pull_sdus size (fixed_length size) q (start_filling nof_bytes size sdu q)

unfoldable pub fill : ℕ → Tx → Filling
unfolding fill_pdu
fill nof_bytes t = fill_pdu nof_bytes t.tx_sn_field_length t.tx_sdu t.tx_sdu_queue

-- The header of the PDU: 2 is NOT_START_ALIGNED, 1 is NOT_END_ALIGNED.
unfoldable pub header_of : Tx → Filling → Header
header_of t f = record {
  fi = (if is_some t.tx_sdu then 2 else 0) + (if is_some f.sdu then 1 else 0);
  sn_size = t.tx_sn_field_length;
  sn = t.vt_us;
  li = f.li;
}

-- The PDU, which is empty where the source returns 0. `allocated` tells whether the pool had a buffer.
unfoldable pub build_data_pdu : Bool → ℕ → Tx → Tx × List ℕ
unfolding fill header_of
build_data_pdu allocated nof_bytes t =
    let f = fill nof_bytes t in
    if not (is_some t.tx_sdu) && (length t.tx_sdu_queue == 0)
    then (t, [])
    else if not allocated || leb nof_bytes (fixed_length t.tx_sn_field_length)
    then (t, [])
    else (
      record t { tx_sdu = f.sdu; tx_sdu_queue = f.queue; vt_us = (t.vt_us + 1) % t.tx_mod },
      write_data_pdu_header (header_of t f) ++ f.bytes,
    )
