-- ===== src/Mac/Pdu/Elements.antt =====
-- ue/src/common/pdu.cc: the control elements of a MAC PDU, their tables, and how each is set in the
-- current subheader and read from a received one (3GPP TS 36.321, 6.1.3).
use srs_ue.Prelude.{
  ℕ, zero, suc, ◌+◌, ◌-◌, ◌%◌, Bool, true, false, List, [], ◌∷◌, ◌++◌, map, none, some, ltb, leb,
  ◌==◌, if◌then◌else◌, length, drop, get_or, set, ◌<<<◌, ◌>>>◌, low_bits, bit_or, u8, u16,
}
use srs_ue.Prelude.Int.{ℤ, pos, negsuc}
use srs_ue.Mac.Pdu.Subheader.{SchSubh, crnti, con_res_id, phr_report, ta_cmd, long_bsr}
use srs_ue.Mac.Pdu.Packet.{SchPdu, has_space_ce, update_space_ce, update_current}

-- Table 6.1.3.1-1.
unfoldable pub btable : List ℕ
btable =
    0 ∷ 5 ∷ 10 ∷ 12 ∷ 14 ∷ 17 ∷ 19 ∷ 22 ∷ 26 ∷ 31 ∷ 36 ∷ 42 ∷ 49 ∷ 57 ∷ 67 ∷ 78 ∷ 91 ∷ 107 ∷ 125
    ∷ 146 ∷ 171 ∷ 200 ∷ 234 ∷ 274 ∷ 321 ∷ 376 ∷ 440 ∷ 515 ∷ 603 ∷ 706 ∷ 826 ∷ 967 ∷ 1132 ∷ 1326
    ∷ 1552 ∷ 1817 ∷ 2127 ∷ 2490 ∷ 2915 ∷ 3413 ∷ 3995 ∷ 4667 ∷ 5476 ∷ 6411 ∷ 7505 ∷ 8787 ∷ 10287
    ∷ 12043 ∷ 14099 ∷ 16507 ∷ 19325 ∷ 22624 ∷ 26487 ∷ 31009 ∷ 36304 ∷ 42502 ∷ 49759 ∷ 58255 ∷ 68201
    ∷ 79846 ∷ 93479 ∷ 109439 ∷ 128125 ∷ 150000 ∷ []

-- The loop of `buff_size_table` over the entries from `btable[i + 2]` on, `n` rounds of it.
unfoldable pub search_level : ℕ → List ℕ → ℕ → ℕ → ℕ
search_level zero entries i buffer_size = 62
search_level (suc n) [] i buffer_size = 62
search_level (suc n) (x ∷ entries) i buffer_size =
    let later = search_level n entries (i + 1) buffer_size in
    if ltb buffer_size x then 1 + i else later

unfoldable pub buff_size_table : ℕ → ℕ
buff_size_table buffer_size =
    if buffer_size == 0
    then 0
    else if ltb 150000 buffer_size
    then 63
    else search_level 61 (drop 2 btable) 0 buffer_size

-- `phr_report_table`: `phr` is the greatest integer below the report's `float`; the bounds are
-- integers, so that cutting and rounding can be swapped.
unfoldable pub phr_report_table : ℤ → ℕ
phr_report_table (pos n) = if ltb 40 n then 63 else n + 23
phr_report_table (negsuc n) = if leb 23 n then 0 else 22 - n

-- What the setters share: the bytes of an element, its type and its size are set in the current
-- subheader if the element and its subheader fit.
unfoldable pub set_element : ℕ → List ℕ → SchPdu → SchPdu × Bool
unfolding has_space_ce update_space_ce
set_element lcid bytes p =
    if has_space_ce (length bytes) p
    then (
      update_current
          (λ s. record s {
            w_payload_ce = bytes ++ drop (length bytes) s.w_payload_ce;
            lcid = lcid;
            nof_bytes = length bytes;
          })
          (update_space_ce (length bytes) p).0,
      true,
    )
    else (p, false)

-- The last group with bytes, or 0.
unfoldable pub nonzero_lcg : List ℕ → ℕ
nonzero_lcg buff_size =
    if ltb 0 (get_or buff_size 3 0)
    then 3
    else if ltb 0 (get_or buff_size 2 0)
    then 2
    else if ltb 0 (get_or buff_size 1 0)
    then 1
    else 0

abbrev pub level : List ℕ → ℕ → ℕ
level buff_size i = buff_size_table (get_or buff_size i 0)

-- The octets of a report: the masks and shifts are those of the source.
unfoldable pub bsr_bytes : List ℕ → ℕ → List ℕ
bsr_bytes buff_size format =
    if format == long_bsr
    then u8 (bit_or (low_bits (level buff_size 0) 6 <<< 2) (low_bits (level buff_size 1 >>> 6) 2))
      ∷ u8 (bit_or (low_bits (level buff_size 1) 4 <<< 4) (low_bits (level buff_size 2 >>> 4) 4))
      ∷ u8 (bit_or (low_bits (level buff_size 2) 2 <<< 6) (low_bits (level buff_size 3) 6))
      ∷ []
    else u8 (
        bit_or (low_bits (nonzero_lcg buff_size) 2 <<< 6)
          (low_bits (level buff_size (nonzero_lcg buff_size)) 6))
      ∷ []

unfoldable pub set_bsr : List ℕ → ℕ → SchPdu → SchPdu × Bool
unfolding set_element bsr_bytes
set_bsr buff_size format p = set_element format (bsr_bytes buff_size format) p

-- The cast binds tighter than the shift: the high octet is cut off before it is moved down.
unfoldable pub c_rnti_bytes : ℕ → List ℕ
c_rnti_bytes rnti = (u8 (low_bits (rnti >>> 8) 8 <<< 8) >>> 8) ∷ low_bits rnti 8 ∷ []

unfoldable pub set_c_rnti : ℕ → SchPdu → SchPdu × Bool
unfolding set_element c_rnti_bytes
set_c_rnti rnti p = set_element crnti (c_rnti_bytes rnti) p

unfoldable pub con_res_id_bytes : ℕ → List ℕ
con_res_id_bytes id =
    low_bits (id >>> 40) 8
    ∷ low_bits (id >>> 32) 8
    ∷ low_bits (id >>> 24) 8
    ∷ low_bits (id >>> 16) 8
    ∷ low_bits (id >>> 8) 8
    ∷ low_bits id 8
    ∷ []

unfoldable pub set_con_res_id : ℕ → SchPdu → SchPdu × Bool
unfolding set_element con_res_id_bytes
set_con_res_id id p = set_element con_res_id (con_res_id_bytes id) p

unfoldable pub set_phr : ℤ → SchPdu → SchPdu × Bool
unfolding set_element phr_report_table
set_phr phr p = set_element phr_report (low_bits (phr_report_table phr) 6 ∷ []) p

unfoldable pub set_ta_cmd : ℕ → SchPdu → SchPdu × Bool
unfolding set_element
set_ta_cmd ta p = set_element ta_cmd (low_bits ta 6 ∷ []) p

-- The bytes that a getter looks at: those of the packet, where one behind its end counts as 0, or
-- those that were set.
abbrev pub element_bytes : SchSubh → List ℕ
element_bytes s = elim s.payload [ none ↦ s.w_payload_ce | some bytes ↦ bytes ]

unfoldable pub get_c_rnti : SchSubh → ℕ
get_c_rnti s =
    let bytes = element_bytes s in u16 (bit_or (get_or bytes 1 0 <<< 8) (get_or bytes 0 0))

unfoldable pub get_con_res_id : SchSubh → ℕ
get_con_res_id s =
    let x = get_or (element_bytes s) in
    bit_or
      (bit_or (bit_or (bit_or (bit_or (x 0 0 <<< 40) (x 1 0 <<< 32)) (x 2 0 <<< 24)) (x 3 0 <<< 16))
        (x 4 0 <<< 8))
      (x 5 0)

unfoldable pub get_phr : SchSubh → ℕ
get_phr s = low_bits (get_or (element_bytes s) 0 0) 6

unfoldable pub get_ta_cmd : SchSubh → ℕ
get_ta_cmd s = elim s.payload [ none ↦ 0 | some bytes ↦ low_bits (get_or bytes 0 0) 6 ]

-- The levels that a report carries, put over those in `buff_size`.
unfoldable pub bsr_levels : ℕ → List ℕ → List ℕ → List ℕ
bsr_levels lcid bytes buff_size =
    let x = get_or bytes in
    if lcid == long_bsr
    then low_bits (x 0 0 >>> 2) 6
      ∷ bit_or (low_bits (x 0 0) 2 <<< 4) (low_bits (x 1 0 >>> 4) 4)
      ∷ bit_or (low_bits (x 1 0) 4 <<< 4) (low_bits (x 1 0 >>> 6) 2)
      ∷ low_bits (x 2 0) 6
      ∷ []
    else set buff_size (low_bits (x 0 0 >>> 6) 2 % 4) (low_bits (x 0 0) 6)

abbrev pub level_bytes : ℕ → ℕ
level_bytes l = if ltb 0 l then get_or btable (l % 64) 0 else l

-- The sizes and what is returned: -1 with no payload, else 0, for the `nonzero_lcg` that is set is
-- that of the inner block.
unfoldable pub get_bsr : SchSubh → List ℕ → List ℕ × ℤ
get_bsr s buff_size = elim s.payload [
  | none ↦ (buff_size, negsuc 0)
  | some bytes ↦ (map level_bytes (bsr_levels s.lcid bytes buff_size), pos 0)
]
