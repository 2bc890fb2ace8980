-- ===== src/Upper/Pdcp/Trip.antt =====
-- What one entity writes, the entity of the other side reads back.
use srs_ue.Prelude.{
  ℕ, suc, ◌+◌, ◌-◌, ◌≤◌, ◌<◌, ◌≡◌, refl, sym, ◌∙◌, ap, List, [], ◌∷◌, map, arith, take, drop, set,
  take-set, take-drop_one, if◌then◌else◌, ltb, u8, u32, sub_u32, low_bits,
}
use srs_ue.Upper.Pdcp.Pack.{
  Buffer, contents, put_four, pack_control_pdu, unpack_control_pdu, pack_data_pdu_short_sn,
  unpack_data_pdu_short_sn, pack_data_pdu_long_sn, unpack_data_pdu_long_sn,
}
use srs_ue.Upper.Pdcp.Defs.{
  Integrity, eia0, eia1, eia2, other_integrity, Algorithms, Entity, Output, to_rlc, to_rrc, to_gw,
  integrity_generate, write_sdu, write_pdu,
}

-- What an RLC that loses nothing hands to the entity of the other side.
abbrev pub carry : List Output → Entity → List Output
carry [] q = []
carry (to_rlc lcid pdu ∷ more) q = write_pdu pdu q
carry (to_rrc lcid pdu ∷ more) q = carry more q
carry (to_gw lcid pdu ∷ more) q = carry more q

-- Outputs by their contents.
pub data Delivered : Type 0 where
  rlc rrc gw : (lcid : ℕ) → List ℕ → Delivered

abbrev pub delivered : Output → Delivered
delivered (to_rlc lcid b) = rlc lcid (contents b)
delivered (to_rrc lcid b) = rrc lcid (contents b)
delivered (to_gw lcid b) = gw lcid (contents b)

pub take-put_four :
    (n i : ℕ) (m : List ℕ) (a b c d : ℕ) → n ≤ i → take n (put_four i m a b c d) ≡ take n m
take-put_four n i m a b c d h =
    take-set n (set (set (set m i a) (i + 1) b) (i + 2) c) (i + 3) d (omega arith)
    ∙ take-set n (set (set m i a) (i + 1) b) (i + 2) c (omega arith)
    ∙ take-set n (set m i a) (i + 1) b (omega arith)
    ∙ take-set n m i a h

tail-put_four :
    (n i : ℕ) (m : List ℕ) (a b c d : ℕ)
    → suc n ≤ i
    → take n (drop 1 (put_four i m a b c d)) ≡ take n (drop 1 m)
tail-put_four n i m a b c d h =
    take-drop_one n (put_four i m a b c d)
    ∙ ap (drop 1) (take-put_four (suc n) i m a b c d h)
    ∙ sym (take-drop_one n m)

-- The code behind a message leaves the message in place.
integrity_generate-tail :
    (a : Algorithms) (alg : Integrity) (key : List ℕ) (count rb dir len n i : ℕ) (b : Buffer)
    → suc n ≤ i
    → take n (drop 1 (integrity_generate a alg key count rb dir len i b).memory)
      ≡ take n (drop 1 b.memory)
unfolding integrity_generate
integrity_generate-tail a eia0 key count rb dir len n i b h = refl
integrity_generate-tail a eia1 key count rb dir len n i b h = tail-put_four n i b.memory _ _ _ _ h
integrity_generate-tail a eia2 key count rb dir len n i b h = tail-put_four n i b.memory _ _ _ _ h
integrity_generate-tail a other_integrity key count rb dir len n i b h = refl

pub integrity_generate-n_bytes :
    (a : Algorithms) (alg : Integrity) (key : List ℕ) (count rb dir len i : ℕ) (b : Buffer)
    → (integrity_generate a alg key count rb dir len i b).n_bytes ≡ b.n_bytes
unfolding integrity_generate
integrity_generate-n_bytes a eia0 key count rb dir len i b = refl
integrity_generate-n_bytes a eia1 key count rb dir len i b = refl
integrity_generate-n_bytes a eia2 key count rb dir len i b = refl
integrity_generate-n_bytes a other_integrity key count rb dir len i b = refl

-- A control PDU, secured or not, gives the SDU back.
unpack-secured :
    (a : Algorithms) (alg : Integrity) (key : List ℕ) (sn count rb dir len : ℕ) (sdu : Buffer)
    → sdu.n_bytes + 5 < 4294967296
    → contents
        (unpack_control_pdu (
          integrity_generate a alg key count rb dir len
            (sub_u32 (pack_control_pdu sn sdu).n_bytes 4)
            (pack_control_pdu sn sdu))).1
      ≡ contents sdu
unfolding unpack_control_pdu pack_control_pdu
unpack-secured a alg key sn count rb dir len sdu h =
    let n = sdu.n_bytes in
    let packed = pack_control_pdu sn sdu in
    let place : sub_u32 (u32 (n + 5)) 4 ≡ n + 1 = omega arith in
    let size : sub_u32 (sub_u32 (u32 (n + 5)) 1) 4 ≡ n = omega arith in
    rw
      (
        place,
        integrity_generate-n_bytes a alg key count rb dir len (n + 1) packed,
        pack_control_pdu,
        size,
        integrity_generate-tail a alg key count rb dir len n (n + 1) packed (omega arith),
      )
      (tail-put_four n (n + 1) (low_bits sn 5 ∷ sdu.memory) 0 0 0 0 (omega arith))

unpack-plain :
    (sn : ℕ) (sdu : Buffer)
    → sdu.n_bytes + 5 < 4294967296
    → contents (unpack_control_pdu (pack_control_pdu sn sdu)).1 ≡ contents sdu
unfolding unpack_control_pdu pack_control_pdu
unpack-plain sn sdu h =
    let n = sdu.n_bytes in
    let size : sub_u32 (sub_u32 (u32 (n + 5)) 1) 4 ≡ n = omega arith in
    rw size (tail-put_four n (n + 1) (low_bits sn 5 ∷ sdu.memory) 0 0 0 0 (omega arith))

unpack-short :
    (sn : ℕ) (sdu : Buffer)
    → sdu.n_bytes + 5 < 4294967296
    → contents (unpack_data_pdu_short_sn (pack_data_pdu_short_sn sn sdu)).1 ≡ contents sdu
unfolding unpack_data_pdu_short_sn pack_data_pdu_short_sn
unpack-short sn sdu h =
    let size : sub_u32 (u32 (sdu.n_bytes + 1)) 1 ≡ sdu.n_bytes = omega arith in rw size refl

unpack-long :
    (sn : ℕ) (sdu : Buffer)
    → sdu.n_bytes + 5 < 4294967296
    → contents (unpack_data_pdu_long_sn (pack_data_pdu_long_sn sn sdu)).1 ≡ contents sdu
unfolding unpack_data_pdu_long_sn pack_data_pdu_long_sn
unpack-long sn sdu h =
    let size : sub_u32 (u32 (sdu.n_bytes + 2)) 2 ≡ sdu.n_bytes = omega arith in rw size refl

-- Whatever the radio bearer, the length of the sequence numbers, the security and its algorithms, an
-- SDU that one entity writes reaches the upper layer of an entity with the same bearer and length of
-- sequence numbers unchanged: RRC on signalling bearers, the gateway on the others. (The SDU and five
-- bytes more fit into 32 bits.)
pub write_pdu-write_sdu :
    (a : Algorithms) (sdu : Buffer) (p q : Entity)
    → p.lcid ≡ q.lcid
    → p.sn_len ≡ q.sn_len
    → sdu.n_bytes + 5 < 4294967296
    → map delivered (carry (write_sdu a sdu p).1 q)
      ≡ (if ltb p.lcid 3 then rrc p.lcid (contents sdu) else gw p.lcid (contents sdu)) ∷ []
unfolding write_sdu write_pdu
write_pdu-write_sdu a sdu p q l s h = ground (
  arith,
  unpack-plain p.tx_count sdu h,
  unpack-short p.tx_count sdu h,
  unpack-long p.tx_count sdu h,
  unpack-secured a p.integ_algo (drop 16 p.k_rrc_int) p.tx_count p.tx_count (u8 (p.lcid - 1)) 0
      (sub_u32 (pack_control_pdu p.tx_count sdu).n_bytes 4) sdu h,
)
