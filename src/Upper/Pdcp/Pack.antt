-- ===== src/Upper/Pdcp/Pack.antt =====
-- ue/src/upper/pdcp_entity.cc: the helpers that pack and unpack PDUs (3GPP TS 36.323).
use srs_ue.Prelude.{
  ℕ, ◌+◌, List, ◌∷◌, get_or, set, take, drop, u8, u32, sub_u32, low_bits, ◌<<<◌, ◌>>>◌, bit_or,
}

-- `byte_buffer_t`: the memory from `msg` on, and `N_bytes`. Moving `msg` back takes bytes of the
-- headroom, which is taken to be there.
pub record Buffer : Type 0 where
  pub memory : List ℕ
  pub n_bytes : ℕ

abbrev pub contents : Buffer → List ℕ
contents b = take b.n_bytes b.memory

-- Four bytes written at `msg[i]`.
abbrev pub put_four : ℕ → List ℕ → ℕ → ℕ → ℕ → ℕ → List ℕ
put_four i m a b c d = set (set (set (set m i a) (i + 1) b) (i + 2) c) (i + 3) d

-- `PDCP_CONTROL_MAC_I`.
abbrev pub control_mac_i : ℕ
control_mac_i = 0

unfoldable pub pack_control_pdu : ℕ → Buffer → Buffer
pack_control_pdu sn b = record {
  memory =
      put_four (b.n_bytes + 1) (low_bits sn 5 ∷ b.memory) (u8 (control_mac_i >>> 24))
        (u8 (control_mac_i >>> 16)) (u8 (control_mac_i >>> 8)) (u8 control_mac_i);
  n_bytes = u32 (b.n_bytes + 5);
}

-- The unpacking functions return the sequence number and the buffer. A buffer without memory is not
-- read by the callers.
unfoldable pub unpack_control_pdu : Buffer → ℕ × Buffer
unpack_control_pdu b = (
  low_bits (get_or b.memory 0 0) 5,
  record { memory = drop 1 b.memory; n_bytes = sub_u32 (sub_u32 b.n_bytes 1) 4 },
)

-- `PDCP_D_C_DATA_PDU` is 1.
unfoldable pub pack_data_pdu_short_sn : ℕ → Buffer → Buffer
pack_data_pdu_short_sn sn b = record {
  memory = bit_or (1 <<< 7) (low_bits sn 7) ∷ b.memory;
  n_bytes = u32 (b.n_bytes + 1);
}

unfoldable pub unpack_data_pdu_short_sn : Buffer → ℕ × Buffer
unpack_data_pdu_short_sn b = (
  low_bits (get_or b.memory 0 0) 7,
  record { memory = drop 1 b.memory; n_bytes = sub_u32 b.n_bytes 1 },
)

unfoldable pub pack_data_pdu_long_sn : ℕ → Buffer → Buffer
pack_data_pdu_long_sn sn b = record {
  memory = bit_or (1 <<< 7) (low_bits (sn >>> 8) 4) ∷ low_bits sn 8 ∷ b.memory;
  n_bytes = u32 (b.n_bytes + 2);
}

unfoldable pub unpack_data_pdu_long_sn : Buffer → ℕ × Buffer
unpack_data_pdu_long_sn b = (
  bit_or (low_bits (get_or b.memory 0 0) 4 <<< 8) (get_or b.memory 1 0),
  record { memory = drop 2 b.memory; n_bytes = sub_u32 b.n_bytes 2 },
)
