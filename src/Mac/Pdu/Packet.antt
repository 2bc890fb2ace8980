-- ===== src/Mac/Pdu/Packet.antt =====
-- ue/src/common/pdu.cc, ue/hdr/common/pdu.h: a MAC PDU under construction, the space that is left in
-- it, and its subheaders, one after the other. `cur_idx` and `last_sdu_idx` are `none` for -1.
use srs_ue.Prelude.{
  ℕ, ◌+◌, ◌-◌, ◌*◌, Bool, true, false, List, [], ◌++◌, map, Option, none, some, ltb, leb, ◌==◌,
  if◌then◌else◌, length, take, drop, set, get_elem?, u32, sub_u32,
}
use srs_ue.Prelude.Int.{ℤ, pos, negsuc}
use srs_ue.Mac.Bsr.{size_header_sdu}
use srs_ue.Mac.Pdu.Subheader.{SchSubh, init}

-- `pdu<sch_subh>`: `subheaders` holds all the `max_subheaders` of the vector.
pub record SchPdu : Type 0 where
  pub subheaders : List SchSubh
  pub pdu_len : ℕ
  pub rem_len : ℕ
  pub cur_idx : Option ℕ
  pub nof_subheaders : ℕ
  pub max_subheaders : ℕ
  pub pdu_is_ul : Bool
  pub buffer_tx : List ℕ
  pub total_sdu_len : ℕ
  pub sdu_offset_start : ℕ
  pub last_sdu_idx : Option ℕ

-- The constructor; the subheaders of the vector are not set yet, and are those that are given.
unfoldable pub new : List SchSubh → SchPdu
new subheaders = record {
  subheaders = subheaders;
  pdu_len = 0;
  rem_len = 0;
  cur_idx = none;
  nof_subheaders = 0;
  max_subheaders = length subheaders;
  pdu_is_ul = false;
  buffer_tx = [];
  total_sdu_len = 0;
  sdu_offset_start = 0;
  last_sdu_idx = none;
}

unfoldable pub reset : SchPdu → SchPdu
reset p = record p { cur_idx = none; last_sdu_idx = none; rem_len = p.pdu_len }

-- `init_rx` with the empty buffer for NULL, and `init_tx`.
unfoldable pub init_buffer : List ℕ → ℕ → Bool → SchPdu → SchPdu
unfolding reset
init_buffer buffer_tx_ptr pdu_len_bytes is_ulsch p =
    let q = reset (record p {
      nof_subheaders = 0;
      pdu_len = pdu_len_bytes;
      rem_len = pdu_len_bytes;
      pdu_is_ul = is_ulsch;
      buffer_tx = buffer_tx_ptr;
      sdu_offset_start = u32 (p.max_subheaders * 2 + 13);
      total_sdu_len = 0;
      last_sdu_idx = none;
    }) in
    record q { subheaders = map init q.subheaders }

abbrev pub next_idx : Option ℕ → ℕ
next_idx none = 0
next_idx (some i) = i + 1

unfoldable pub next : SchPdu → SchPdu × Bool
next p =
    if ltb (next_idx p.cur_idx) p.nof_subheaders
    then (record p { cur_idx = some (next_idx p.cur_idx) }, true)
    else (p, false)

unfoldable pub new_subh : SchPdu → SchPdu × Bool
unfolding next
new_subh p =
    if ltb p.nof_subheaders (sub_u32 p.max_subheaders 1)
    then ((next (record p { nof_subheaders = p.nof_subheaders + 1 })).0, true)
    else (p, false)

-- The index before, if there is one.
abbrev pub previous_idx : Option ℕ → Option ℕ
previous_idx none = none
previous_idx (some i) = some (i - 1)

unfoldable pub del_subh : SchPdu → SchPdu
del_subh p = record p { nof_subheaders = p.nof_subheaders - 1; cur_idx = previous_idx p.cur_idx }

-- `get()->`: the method `f` of the current subheader, which is given; nothing where there is none.
abbrev pub update_current : (SchSubh → SchSubh) → SchPdu → SchPdu
update_current f p = elim p.cur_idx [
  | none ↦ p
  | some i ↦ elim (get_elem? p.subheaders i) [
    | none ↦ p
    | some s ↦ record p { subheaders = set p.subheaders i (f s) }
  ]
]

-- The payload size of a subheader of the vector.
abbrev pub payload_size_at : List SchSubh → ℕ → ℕ
payload_size_at subheaders i = elim (get_elem? subheaders i) [ none ↦ 0 | some s ↦ s.nof_bytes ]

unfoldable pub has_space_ce : ℕ → SchPdu → Bool
has_space_ce nbytes p = leb (u32 (nbytes + 1)) p.rem_len

unfoldable pub update_space_ce : ℕ → SchPdu → SchPdu × Bool
unfolding has_space_ce
update_space_ce nbytes p =
    if has_space_ce nbytes p
    then (record p { rem_len = sub_u32 p.rem_len (nbytes + 1) }, true)
    else (p, false)

-- What the header of the SDU before grows by, once it is not the last.
abbrev pub growth_at : Option ℕ → List SchSubh → ℕ
growth_at none subheaders = 0
growth_at (some i) subheaders = size_header_sdu (payload_size_at subheaders i) - 1

abbrev pub last_header_growth : SchPdu → ℕ
last_header_growth p = growth_at p.last_sdu_idx p.subheaders

-- A word of 32 bits read as an `int`.
abbrev pub to_int : ℕ → ℤ
to_int n = if ltb n 2147483648 then pos n else negsuc (4294967295 - n)

-- The bits of `get_sdu_space`, as `has_space_sdu` compares them.
unfoldable pub sdu_space_bits : SchPdu → ℕ
unfolding size_header_sdu
sdu_space_bits p = sub_u32 p.rem_len (last_header_growth p + 1)

unfoldable pub get_sdu_space : SchPdu → ℤ
unfolding sdu_space_bits
get_sdu_space p = to_int (sdu_space_bits p)

-- An `int` against a `uint32_t`: both are taken as unsigned.
unfoldable pub has_space_sdu : ℕ → SchPdu → Bool
unfolding sdu_space_bits
has_space_sdu nbytes p = leb nbytes (sdu_space_bits p)

unfoldable pub update_space_sdu : ℕ → SchPdu → SchPdu × Bool
unfolding has_space_sdu size_header_sdu
update_space_sdu nbytes p =
    if has_space_sdu nbytes p
    then (
      record p {
        rem_len = sub_u32 p.rem_len (u32 (nbytes + 1 + last_header_growth p));
        last_sdu_idx = p.cur_idx;
      },
      true,
    )
    else (p, false)

-- Bytes put into a buffer; what would stand behind its end is not kept.
abbrev pub write_at : ℕ → List ℕ → List ℕ → List ℕ
write_at off bytes buffer =
    take (length buffer) (take off buffer ++ (bytes ++ drop (off + length bytes) buffer))

unfoldable pub add_sdu : ℕ → SchPdu → SchPdu
add_sdu sdu_sz p = record p { total_sdu_len = u32 (p.total_sdu_len + sdu_sz) }

-- `memcpy` to `get_current_sdu_ptr()`.
unfoldable pub write_sdu : List ℕ → SchPdu → SchPdu
write_sdu bytes p = record p {
  buffer_tx = write_at (p.total_sdu_len + p.sdu_offset_start) bytes p.buffer_tx;
}

abbrev pub with_size : ℕ → SchPdu → SchPdu
with_size n = update_current (λ s. record s { nof_bytes = n })

-- What `set_sdu` does once the bytes stand in the buffer.
abbrev pub count_sdu : ℕ → SchPdu → SchPdu
count_sdu n p = (update_space_sdu n (add_sdu n p)).0

-- `set_sdu(lcid, nof_bytes, payload)`: `payload` holds the bytes to send. -1 is `negsuc 0`.
unfoldable pub set_sdu : ℕ → List ℕ → SchPdu → SchPdu × ℤ
unfolding has_space_sdu update_space_sdu write_sdu add_sdu
set_sdu lcid payload p =
    let n = length payload in
    if has_space_sdu n p
    then (
      with_size n
          (count_sdu n (write_sdu payload (update_current (λ s. record s { lcid = lcid }) p))),
      to_int n,
    )
    else (p, negsuc 0)

-- `set_sdu(lcid, requested_bytes, sdu_itf)`: `read_pdu` gives what `sdu_itf->read_pdu` returns, and
-- the bytes that it puts at the pointer.
unfoldable pub read_sdu : (ℕ → ℕ → ℤ × List ℕ) → ℕ → ℕ → SchPdu → SchPdu × ℤ
unfolding has_space_sdu update_space_sdu write_sdu add_sdu
read_sdu read_pdu lcid requested_bytes p =
    if has_space_sdu requested_bytes p
    then (let (sdu_sz, bytes) = read_pdu lcid requested_bytes in
        let q : SchPdu = write_sdu bytes p in
        let q : SchPdu =
          update_current
            (λ s. record s {
              lcid = lcid;
              payload = some (drop (p.total_sdu_len + p.sdu_offset_start) q.buffer_tx);
            })
            q in
        elim sdu_sz [
          | negsuc _ ↦ (q, negsuc 0)
          | pos n ↦
              if ltb requested_bytes n
              then (q, negsuc 0)
              else if n == 0
              then (q, pos 0)
              else (count_sdu n (with_size n q), pos n)
        ])
    else (p, negsuc 0)
