-- ===== src/Upper/Pdcp/Security.antt =====
-- The bytes of a signalling PDU, its sequence number and its authentication code.
use srs_ue.Prelude.{
  ℕ, zero, suc, ◌+◌, ◌-◌, ◌*◌, ◌/◌, ◌%◌, ◌≤◌, ◌<◌, ◌≡◌, refl, ◌∙◌, ap, ◌⊎◌, List, [], ◌∷◌, ◌++◌,
  map, arith, take, drop, set, length, length-set, u8, u32, sub_u32, bit_or, low_bits,
  if◌then◌else◌,
}
use srs_ue.Prelude.Bits.{or_field}
use srs_ue.Upper.Pdcp.Pack.{
  Buffer, contents, put_four, pack_control_pdu, unpack_control_pdu, pack_data_pdu_short_sn,
  unpack_data_pdu_short_sn, pack_data_pdu_long_sn, unpack_data_pdu_long_sn,
}
use srs_ue.Upper.Pdcp.Defs.{
  Integrity, eia0, eia1, eia2, other_integrity, Mac, Algorithms, Entity, put_mac,
  integrity_generate, write_sdu,
}
use srs_ue.Upper.Pdcp.Trip.{rlc, delivered, take-put_four}

control_sn : (sn : ℕ) (sdu : Buffer) → (unpack_control_pdu (pack_control_pdu sn sdu)).0 ≡ sn % 32
unfolding unpack_control_pdu pack_control_pdu
control_sn sn sdu =
    let e0 : sdu.n_bytes + 1 ≡ suc sdu.n_bytes = omega arith in
    let e1 : suc sdu.n_bytes + 1 ≡ suc (sdu.n_bytes + 1) = omega arith in
    let e2 : suc sdu.n_bytes + 2 ≡ suc (sdu.n_bytes + 2) = omega arith in
    let e3 : suc sdu.n_bytes + 3 ≡ suc (sdu.n_bytes + 3) = omega arith in
    ground (arith, e0, e1, e2, e3)

-- The sequence numbers come back modulo 2 ^ 5, 2 ^ 7 and 2 ^ 12.
pub unpack-pack_sn :
    (sn : ℕ) (sdu : Buffer)
    → ((unpack_control_pdu (pack_control_pdu sn sdu)).0 ≡ sn % 32)
      × ((unpack_data_pdu_short_sn (pack_data_pdu_short_sn sn sdu)).0 ≡ sn % 128)
      × ((unpack_data_pdu_long_sn (pack_data_pdu_long_sn sn sdu)).0 ≡ sn % 4096)
unfolding unpack_control_pdu pack_control_pdu unpack_data_pdu_short_sn pack_data_pdu_short_sn
    unpack_data_pdu_long_sn pack_data_pdu_long_sn
unpack-pack_sn sn sdu =
    let high = (sn / 256) % 16 in
    let short : bit_or 128 (sn % 128) ≡ 128 + sn % 128 =
      or_field 7 1 128 (sn % 128) refl (omega arith) in
    let first : bit_or 128 high ≡ 128 + high = or_field 4 8 128 high refl (omega arith) in
    let kept : (128 + high) % 16 ≡ high = omega arith in
    let joined : bit_or (high * 256) (sn % 256) ≡ high * 256 + sn % 256 =
      or_field 8 high (high * 256) (sn % 256) refl (omega arith) in
    (control_sn sn sdu, rw short (omega arith), rw (first, kept, joined) (omega arith))

take-put_four_at :
    (i : ℕ) (m : List ℕ) (a b c d : ℕ)
    → i + 4 ≤ length m
    → take (i + 4) (put_four i m a b c d) ≡ take i m ++ a ∷ b ∷ c ∷ d ∷ []
take-put_four_at zero [] a b c d h = absurd (omega arith)
take-put_four_at zero (x ∷ []) a b c d h = absurd (omega arith)
take-put_four_at zero (x ∷ y ∷ []) a b c d h = absurd (omega arith)
take-put_four_at zero (x ∷ y ∷ z ∷ []) a b c d h = absurd (omega arith)
take-put_four_at zero (x ∷ y ∷ z ∷ w ∷ m) a b c d h = refl
take-put_four_at (suc i) [] a b c d h = absurd (omega arith)
take-put_four_at (suc i) (x ∷ m) a b c d h =
    let e1 : suc i + 1 ≡ suc (i + 1) = omega arith in
    let e2 : suc i + 2 ≡ suc (i + 2) = omega arith in
    let e3 : suc i + 3 ≡ suc (i + 3) = omega arith in
    let e4 : suc i + 4 ≡ suc (i + 4) = omega arith in
    rw (e1, e2, e3, e4, take-put_four_at i m a b c d (omega arith)) refl

abbrev pub code : Mac → List ℕ
code m = m.m0 ∷ m.m1 ∷ m.m2 ∷ m.m3 ∷ []

abbrev pub no_code : List ℕ
no_code = 0 ∷ 0 ∷ 0 ∷ 0 ∷ []

-- The code that an algorithm gives a message that goes up, or the constant one.
abbrev pub code_by : Algorithms → Integrity → List ℕ → ℕ → ℕ → List ℕ → List ℕ
code_by a eia0 key count bearer message = no_code
code_by a eia1 key count bearer message = code (a.run_eia1 key count bearer 0 message)
code_by a eia2 key count bearer message = code (a.run_eia2 key count bearer 0 message)
code_by a other_integrity key count bearer message = no_code

-- The code that belongs to a message, under the last 16 bytes of the key.
abbrev pub code_of : Algorithms → Entity → List ℕ → List ℕ
code_of a p message =
    if p.do_security
    then code_by a p.integ_algo (drop 16 p.k_rrc_int) p.tx_count (p.lcid - 1) message
    else no_code

packed-message :
    (sn : ℕ) (sdu : Buffer)
    → take (sdu.n_bytes + 1) (pack_control_pdu sn sdu).memory ≡ sn % 32 ∷ contents sdu
unfolding pack_control_pdu
packed-message sn sdu =
    let next : sdu.n_bytes + 1 ≡ suc sdu.n_bytes = omega arith in
    take-put_four (sdu.n_bytes + 1) (sdu.n_bytes + 1) (low_bits sn 5 ∷ sdu.memory) 0 0 0 0
      (omega arith)
    ∙ ap (λ (k : ℕ). take k (low_bits sn 5 ∷ sdu.memory)) next

length-put_four : (i : ℕ) (m : List ℕ) (a b c d : ℕ) → length (put_four i m a b c d) ≡ length m
length-put_four i m a b c d =
    length-set (set (set (set m i a) (i + 1) b) (i + 2) c) (i + 3) d
    ∙ length-set (set (set m i a) (i + 1) b) (i + 2) c
    ∙ length-set (set m i a) (i + 1) b
    ∙ length-set m i a

-- Room for the code behind an SDU.
abbrev pub HasRoom : Buffer → Type 0
HasRoom sdu = (sdu.n_bytes + 4 ≤ length sdu.memory) × (sdu.n_bytes + 5 < 4294967296)

contents-packed :
    (sn : ℕ) (sdu : Buffer)
    → HasRoom sdu
    → contents (pack_control_pdu sn sdu) ≡ (sn % 32 ∷ contents sdu) ++ no_code
unfolding pack_control_pdu
contents-packed sn sdu h =
    let n = sdu.n_bytes in
    let all : u32 (n + 5) ≡ n + 1 + 4 = omega arith in
    let next : n + 1 ≡ suc n = omega arith in
    rw (all, take-put_four_at (n + 1) (low_bits sn 5 ∷ sdu.memory) 0 0 0 0 (omega arith))
      (ap (λ (k : ℕ). take k (low_bits sn 5 ∷ sdu.memory) ++ no_code) next)

-- A code put over the constant one.
contents-put_mac :
    (sn : ℕ) (sdu : Buffer) (m : Mac)
    → HasRoom sdu
    → contents (put_mac (sdu.n_bytes + 1) m (pack_control_pdu sn sdu))
      ≡ (sn % 32 ∷ contents sdu) ++ code m
unfolding pack_control_pdu
contents-put_mac sn sdu m h =
    let n = sdu.n_bytes in
    let inner = put_four (n + 1) (low_bits sn 5 ∷ sdu.memory) 0 0 0 0 in
    let all : u32 (n + 5) ≡ n + 1 + 4 = omega arith in
    let room : n + 1 + 4 ≤ length inner =
      omega (arith, length-put_four (n + 1) (low_bits sn 5 ∷ sdu.memory) 0 0 0 0) in
    rw (all, take-put_four_at (n + 1) inner m.m0 m.m1 m.m2 m.m3 room)
      (ap (λ (xs : List ℕ). xs ++ code m) (packed-message sn sdu))

secured-contents :
    (a : Algorithms) (alg : Integrity) (key : List ℕ) (sn bearer : ℕ) (sdu : Buffer)
    → HasRoom sdu
    → contents (
        integrity_generate a alg key sn bearer 0
          (sdu.n_bytes + 1)
          (sdu.n_bytes + 1)
          (pack_control_pdu sn sdu))
      ≡ (sn % 32 ∷ contents sdu) ++ code_by a alg key sn bearer (sn % 32 ∷ contents sdu)
unfolding integrity_generate
secured-contents a eia0 key sn bearer sdu h = contents-packed sn sdu h
secured-contents a eia1 key sn bearer sdu h =
    rw (packed-message sn sdu)
      (contents-put_mac sn sdu (a.run_eia1 key sn bearer 0 (sn % 32 ∷ contents sdu)) h)
secured-contents a eia2 key sn bearer sdu h =
    rw (packed-message sn sdu)
      (contents-put_mac sn sdu (a.run_eia2 key sn bearer 0 (sn % 32 ∷ contents sdu)) h)
secured-contents a other_integrity key sn bearer sdu h = contents-packed sn sdu h

packed-length :
    (sn : ℕ) (sdu : Buffer)
    → HasRoom sdu
    → sub_u32 (pack_control_pdu sn sdu).n_bytes 4 ≡ sdu.n_bytes + 1
unfolding pack_control_pdu
packed-length sn sdu h = omega arith

-- On the signalling bearers 1 and 2 the RLC gets the sequence number modulo 32, the SDU, and then
-- the code of exactly these bytes: that of the configured algorithm under the count of the SDU, the
-- bearer's number less one and the uplink direction, where security is on, and zeros otherwise.
-- The count is raised, and nothing else changes. (The buffer has room for the code.)
pub write_sdu-code_of :
    (a : Algorithms) (sdu : Buffer) (p : Entity)
    → (p.lcid ≡ 1) ⊎ (p.lcid ≡ 2)
    → HasRoom sdu
    → let message = p.tx_count % 32 ∷ contents sdu in
      (map delivered (write_sdu a sdu p).1 ≡ rlc p.lcid (message ++ code_of a p message) ∷ [])
      × ((write_sdu a sdu p).0 ≡ record p { tx_count = u32 (p.tx_count + 1) })
unfolding write_sdu
write_sdu-code_of a sdu p b h =
    let bearer : u8 (p.lcid - 1) ≡ p.lcid - 1 = omega arith in
    ground (
      arith,
      bearer,
      packed-length p.tx_count sdu h,
      contents-packed p.tx_count sdu h,
      secured-contents a p.integ_algo (drop 16 p.k_rrc_int) p.tx_count (p.lcid - 1) sdu h,
    )
