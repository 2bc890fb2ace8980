-- ===== src/Mac/Pdu/Subheader.antt =====
-- ue/src/common/pdu.cc, ue/hdr/common/pdu.h: one subheader of a MAC PDU for the shared channels, its
-- sizes, and how it is written and read (3GPP TS 36.321, 6.1.2 and 6.2.1).
use srs_ue.Prelude.{
  ℕ, ◌+◌, Bool, true, false, not, ◌&&◌, List, [], ◌∷◌, Option, none, some, ltb, leb, ◌==◌,
  if◌then◌else◌, ◌<<<◌, ◌>>>◌, low_bits, bit_or, u8, take, drop,
}
use srs_ue.Mac.Bsr.{size_header_sdu}

-- `cetype`. The downlink and the uplink use the numbers 28 to 30 for different elements.
abbrev pub phr_report : ℕ
phr_report = 26

abbrev pub crnti : ℕ
crnti = 27

abbrev pub con_res_id : ℕ
con_res_id = 28

abbrev pub trunc_bsr : ℕ
trunc_bsr = 28

abbrev pub ta_cmd : ℕ
ta_cmd = 29

abbrev pub short_bsr : ℕ
short_bsr = 29

abbrev pub drx_cmd : ℕ
drx_cmd = 30

abbrev pub long_bsr : ℕ
long_bsr = 30

abbrev pub padding : ℕ
padding = 31

-- `sch_subh`. `payload` is a pointer: the bytes from it on, and `none` for NULL. `nof_bytes` is an
-- `int`, held modulo 2 ^ 32.
pub record SchSubh : Type 0 where
  pub lcid : ℕ
  pub nof_bytes : ℕ
  pub payload : Option (List ℕ)
  pub w_payload_ce : List ℕ
  pub f_bit : Bool

unfoldable pub init : SchSubh → SchSubh
init s = record s { lcid = 0; nof_bytes = 0; payload = none }

unfoldable pub is_sdu : SchSubh → Bool
is_sdu s = not (leb phr_report s.lcid)

unfoldable pub sizeof_ce : ℕ → Bool → ℕ
sizeof_ce lcid is_ul =
    if is_ul
    then (if lcid == phr_report
        then 1
        else if lcid == crnti
        then 2
        else if lcid == trunc_bsr
        then 1
        else if lcid == short_bsr
        then 1
        else if lcid == long_bsr
        then 3
        else 0)
    else (if lcid == con_res_id then 6 else if lcid == ta_cmd then 1 else 0)

unfoldable pub size_plus_header : SchSubh → ℕ
unfolding is_sdu size_header_sdu
size_plus_header s = if is_sdu s then size_header_sdu s.nof_bytes + s.nof_bytes else s.nof_bytes + 1

unfoldable pub get_header_size : Bool → SchSubh → ℕ
unfolding is_sdu size_header_sdu
get_header_size is_last s =
    if is_last then 1 else if is_sdu s then size_header_sdu s.nof_bytes else 1

unfoldable pub set_padding : ℕ → SchSubh → SchSubh
set_padding padding_len s = record s { lcid = padding; nof_bytes = padding_len }

-- The length octets of an SDU's subheader. A negative `nof_bytes` is below 128.
abbrev pub write_length : ℕ → List ℕ
write_length n =
    if leb 128 n && ltb n 2147483648
    then u8 (bit_or (1 <<< 7) (low_bits (n >>> 8) 7)) ∷ low_bits n 8 ∷ []
    else low_bits n 7 ∷ []

-- The bytes that are put at the pointer, which moves behind them.
unfoldable pub write_subheader : Bool → SchSubh → List ℕ
unfolding is_sdu
write_subheader is_last s =
    bit_or (if is_last then 0 else 1 <<< 5) (low_bits s.lcid 5)
    ∷ (if is_sdu s && not is_last then write_length s.nof_bytes else [])

-- The bytes of a control element that are put at the pointer, and the subheader with its size set.
-- The pointer moves on by `nof_bytes` in both cases.
unfoldable pub write_payload : Bool → SchSubh → SchSubh × List ℕ
unfolding is_sdu
write_payload is_ul s = if is_sdu s then (s, []) else (
  record s { nof_bytes = sizeof_ce s.lcid is_ul },
  take (sizeof_ce s.lcid is_ul) s.w_payload_ce,
)

-- The length octets of an SDU's subheader: `F`, the length, and the bytes behind; `none` is a read
-- behind the packet.
abbrev pub read_length : List ℕ → Option (Bool × ℕ × List ℕ)
read_length [] = none
read_length (y ∷ []) = if low_bits (y >>> 7) 1 == 1 then none else some (false, low_bits y 7, [])
read_length (y ∷ z ∷ rest) =
    if low_bits (y >>> 7) 1 == 1
    then some (true, bit_or (low_bits y 7 <<< 8) (low_bits z 8), rest)
    else some (false, low_bits y 7, z ∷ rest)

-- The subheader, its `E` bit, and the bytes behind.
unfoldable pub read_subheader : Bool → SchSubh → List ℕ → Option (SchSubh × Bool × List ℕ)
unfolding is_sdu
read_subheader is_ul s [] = none
read_subheader is_ul s (x ∷ rest) =
    let s' : SchSubh = record s { lcid = low_bits x 5 } in
    let e_bit : Bool = low_bits (x >>> 5) 1 == 1 in
    if is_sdu s'
    then (if e_bit
        then elim (read_length rest) [
          | none ↦ none
          | some (f, n, behind) ↦ some (record s' { nof_bytes = n; f_bit = f }, true, behind)
        ]
        else some (record s' { nof_bytes = 0; f_bit = false }, false, rest))
    else some (record s' { nof_bytes = sizeof_ce s'.lcid is_ul }, e_bit, rest)

-- The payload stands at the pointer, which moves behind it.
unfoldable pub read_payload : SchSubh → List ℕ → SchSubh × List ℕ
read_payload s bytes = (record s { payload = some bytes }, drop s.nof_bytes bytes)
