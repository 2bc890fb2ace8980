-- ===== src/Upper/Pdcp/Defs.antt =====
-- ue/src/upper/pdcp_entity.cc: the entity between RRC or the gateway and the RLC.
use srs_ue.Prelude.{
  ℕ, ◌+◌, ◌-◌, Bool, true, false, ◌||◌, List, [], ◌∷◌, ◌==◌, if◌then◌else◌, take, drop, u8, u32,
  sub_u32,
}
use srs_ue.Upper.Pdcp.Pack.{
  Buffer, put_four, pack_control_pdu, unpack_control_pdu, pack_data_pdu_short_sn,
  unpack_data_pdu_short_sn, pack_data_pdu_long_sn, unpack_data_pdu_long_sn,
}

-- `INTEGRITY_ALGORITHM_ID_ENUM`, with one name for the values that are not used.
pub data Integrity : Type 0 where
  eia0 eia1 eia2 other_integrity : Integrity

-- A message authentication code: what an algorithm writes to the four bytes at `mac`.
pub record Mac : Type 0 where
  pub m0 : ℕ
  pub m1 : ℕ
  pub m2 : ℕ
  pub m3 : ℕ

-- `security_128_eia1` and `security_128_eia2`, of the key, the count, the bearer, the direction and
-- the message.
pub record Algorithms : Type 0 where
  pub run_eia1 : List ℕ → ℕ → ℕ → ℕ → List ℕ → Mac
  pub run_eia2 : List ℕ → ℕ → ℕ → ℕ → List ℕ → Mac

-- The ciphering algorithm and key are stored and not used.
pub record Entity : Type 0 where
  pub active : Bool
  pub lcid : ℕ
  pub do_security : Bool
  pub sn_len : ℕ
  pub tx_count : ℕ
  pub rx_count : ℕ
  pub k_rrc_enc : List ℕ
  pub k_rrc_int : List ℕ
  pub cipher_algo : ℕ
  pub integ_algo : Integrity

-- What is passed on, and to whom.
pub data Output : Type 0 where
  to_rlc to_rrc to_gw : (lcid : ℕ) → Buffer → Output

-- `short` tells whether the configuration asks for sequence numbers of 7 bits; without one, or
-- with one of 12 bits, the length stays what it was.
unfoldable pub init : ℕ → (short : Bool) → Entity → Entity
init lcid short p = record p {
  lcid = lcid;
  active = true;
  tx_count = 0;
  rx_count = 0;
  do_security = false;
  sn_len = if short then 7 else p.sn_len;
}

unfoldable pub reset : Entity → Entity
reset p = record p { active = false }

unfoldable pub is_active : Entity → Bool
is_active p = p.active

-- The first 32 bytes of each key.
unfoldable pub config_security : List ℕ → List ℕ → ℕ → Integrity → Entity → Entity
config_security enc int cipher integ p = record p {
  do_security = true;
  k_rrc_enc = take 32 enc;
  k_rrc_int = take 32 int;
  cipher_algo = cipher;
  integ_algo = integ;
}

-- `SECURITY_DIRECTION_UPLINK`.
abbrev pub uplink : ℕ
uplink = 0

abbrev pub put_mac : ℕ → Mac → Buffer → Buffer
put_mac i m b = record b { memory = put_four i b.memory m.m0 m.m1 m.m2 m.m3 }

-- For a message of `msg_len` bytes whose code is written at `mac`.
unfoldable pub integrity_generate :
    Algorithms → Integrity → List ℕ → ℕ → ℕ → ℕ → (msg_len mac : ℕ) → Buffer → Buffer
integrity_generate a eia0 key count rb dir len mac b = b
integrity_generate a eia1 key count rb dir len mac b =
    put_mac mac (a.run_eia1 key count rb dir (take len b.memory)) b
integrity_generate a eia2 key count rb dir len mac b =
    put_mac mac (a.run_eia2 key count rb dir (take len b.memory)) b
integrity_generate a other_integrity key count rb dir len mac b = b

-- `RB_ID_SRB0` to `RB_ID_SRB2` are 0 to 2, and `RB_ID_DRB1` is 3.
unfoldable pub write_sdu : Algorithms → Buffer → Entity → Entity × List Output
unfolding integrity_generate pack_control_pdu pack_data_pdu_long_sn pack_data_pdu_short_sn
write_sdu a sdu p =
    let counted : Entity = record p { tx_count = u32 (p.tx_count + 1) } in
    if p.lcid == 0
    then (p, to_rlc p.lcid sdu ∷ [])
    else if (p.lcid == 1) || (p.lcid == 2)
    then (let packed = pack_control_pdu p.tx_count sdu in
        let len = sub_u32 packed.n_bytes 4 in
        let sent : Buffer =
          if p.do_security
          then integrity_generate a p.integ_algo (drop 16 p.k_rrc_int) p.tx_count (u8 (p.lcid - 1))
              uplink len len packed
          else packed in
        (counted, to_rlc p.lcid sent ∷ []))
    else if p.sn_len == 12
    then (counted, to_rlc p.lcid (pack_data_pdu_long_sn p.tx_count sdu) ∷ [])
    else (counted, to_rlc p.lcid (pack_data_pdu_short_sn p.tx_count sdu) ∷ [])

-- Nothing of the state changes.
unfoldable pub write_pdu : Buffer → Entity → List Output
unfolding unpack_control_pdu unpack_data_pdu_long_sn unpack_data_pdu_short_sn
write_pdu pdu p =
    if p.lcid == 0
    then to_rrc 0 pdu ∷ []
    else if (p.lcid == 1) || (p.lcid == 2)
    then to_rrc p.lcid (unpack_control_pdu pdu).1 ∷ []
    else if p.sn_len == 12
    then to_gw p.lcid (unpack_data_pdu_long_sn pdu).1 ∷ []
    else to_gw p.lcid (unpack_data_pdu_short_sn pdu).1 ∷ []
