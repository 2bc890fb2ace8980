-- ===== src/Mac/Pdu/Write.antt =====
-- ue/src/common/pdu.cc: `sch_pdu::write_packet`, which puts the headers and control elements in front
-- of the SDUs that stand in the buffer (3GPP TS 36.321, 6.1.2). The pointer writes are collected to
-- one list of bytes, and the printed diagnostics are left out.
use srs_ue.Prelude.{
  ℕ, zero, suc, ◌+◌, ◌-◌, Bool, true, false, not, ◌&&◌, List, [], ◌∷◌, ◌++◌, Option, none, some,
  ltb, leb, ◌==◌, if◌then◌else◌, length, take, drop, get_elem?, replicate, u32, sub_u32,
}
use srs_ue.Mac.Pdu.Subheader.{
  SchSubh, is_sdu, get_header_size, write_subheader, write_payload, set_padding,
}
use srs_ue.Mac.Pdu.Packet.{SchPdu, payload_size_at, del_subh, write_at}

-- `last_sdu_idx < 0`.
abbrev pub is_none : Option ℕ → Bool
is_none none = true
is_none (some k) = false

-- `i == last_sdu_idx`.
abbrev pub is_idx : ℕ → Option ℕ → Bool
is_idx i none = false
is_idx i (some k) = i == k

-- The loop over the subheaders from index `i` on: the headers' size and the control elements' size.
unfoldable pub header_sizes : Bool → Option ℕ → ℕ → List SchSubh → ℕ × ℕ
header_sizes multibyte last i [] = (0, 0)
header_sizes multibyte last i (s ∷ ss) =
    let rest = header_sizes multibyte last (i + 1) ss in
    (
      get_header_size (not multibyte && is_idx i last) s + rest.0,
      (if is_sdu s then 0 else s.nof_bytes) + rest.1,
    )

-- The subheaders of the control elements; `closes` is `ce_only && !multibyte_padding`.
unfoldable pub ce_headers : Bool → List SchSubh → List ℕ
ce_headers closes [] = []
ce_headers closes (s ∷ ss) =
    (if is_sdu s then [] else write_subheader (closes && (length ss == 0)) s)
    ++ ce_headers closes ss

unfoldable pub sdu_headers : Bool → Option ℕ → ℕ → List SchSubh → List ℕ
sdu_headers multibyte last i [] = []
sdu_headers multibyte last i (s ∷ ss) =
    (if is_sdu s then write_subheader (not multibyte && is_idx i last) s else [])
    ++ sdu_headers multibyte last (i + 1) ss

-- The payloads of the control elements, and the subheaders with their sizes set.
unfoldable pub ce_payloads : Bool → List SchSubh → List SchSubh × List ℕ
ce_payloads is_ul [] = ([], [])
ce_payloads is_ul (s ∷ ss) =
    let rest = ce_payloads is_ul ss in
    let one = write_payload is_ul s in (one.0 ∷ rest.0, one.1 ++ rest.1)

abbrev pub repeat_bytes : ℕ → List ℕ → List ℕ
repeat_bytes zero bytes = []
repeat_bytes (suc n) bytes = bytes ++ repeat_bytes n bytes

abbrev pub padding_subh : ℕ → SchSubh
padding_subh n = set_padding n (record {
  lcid = 0;
  nof_bytes = 0;
  payload = none;
  w_payload_ce = replicate 8 0;
  f_bit = false;
})

-- `multibyte_padding`, `onetwo_padding` and `rem_len` from what was left.
abbrev pub growth_of : Option ℕ → List SchSubh → ℕ
growth_of none ss = 0
growth_of (some k) ss = elim (get_elem? ss k) [ none ↦ 0 | some s ↦ get_header_size false s - 1 ]

unfoldable pub plan_padding : ℕ → ℕ → Bool × ℕ × ℕ
plan_padding rem_len growth =
    if ltb 2 rem_len then (true, 0, sub_u32 (sub_u32 rem_len 1) growth) else (false, rem_len, 0)

abbrev pub padding_headers : Bool → ℕ → ℕ
padding_headers multibyte onetwo = if multibyte then 1 else onetwo

-- Everything that is written from the packet's start on, before the SDUs.
unfoldable pub front_bytes : Bool → Bool → ℕ → Option ℕ → List SchSubh → List ℕ
unfolding ce_headers sdu_headers ce_payloads
front_bytes is_ul multibyte onetwo last ss =
    repeat_bytes onetwo (write_subheader false (padding_subh 0))
    ++ (ce_headers (not multibyte && is_none last) ss
        ++ ((if is_none last then [] else sdu_headers multibyte last 0 ss)
            ++ ((if multibyte then write_subheader true (padding_subh 0) else [])
                ++ (ce_payloads is_ul ss).1)))

-- The packet that is returned is the `pdu_len` bytes from the start pointer on; `none` is NULL.
unfoldable pub finish : SchPdu → SchPdu × Option (List ℕ)
unfolding header_sizes front_bytes plan_padding
finish p =
    let ss = take p.nof_subheaders p.subheaders in
    let (multibyte, onetwo, rem_len) =
      plan_padding p.rem_len (growth_of p.last_sdu_idx p.subheaders) in
    let sizes = header_sizes multibyte p.last_sdu_idx 0 ss in
    let header_sz = sizes.0 + padding_headers multibyte onetwo in
    let q : SchPdu = record p { rem_len = rem_len } in
    if leb p.sdu_offset_start (sizes.1 + header_sz)
    then (q, none)
    else (let start = p.sdu_offset_start - header_sz - sizes.1 in
        let front = front_bytes p.pdu_is_ul multibyte onetwo p.last_sdu_idx ss in
        let buffer =
          write_at (start + (p.pdu_len - rem_len)) (replicate rem_len 0)
            (write_at start front p.buffer_tx) in
        let q : SchPdu = record q {
          buffer_tx = buffer;
          subheaders = (ce_payloads p.pdu_is_ul ss).0 ++ drop p.nof_subheaders p.subheaders;
        } in
        if u32 (rem_len + header_sz + sizes.1 + p.total_sdu_len) == p.pdu_len
        then (if header_sz + sizes.1 == length front
            then (q, some (take p.pdu_len (drop start buffer)))
            else (q, none))
        else (q, none))

-- A last subheader with no payload is taken away first. With no subheader at all the source reads
-- in front of the vector: the model takes nothing away.
unfoldable pub write_packet : SchPdu → SchPdu × Option (List ℕ)
unfolding finish del_subh
write_packet p =
    if ltb 2147483647 p.rem_len
    then (p, none)
    else if ltb 0 p.nof_subheaders && (payload_size_at p.subheaders (p.nof_subheaders - 1) == 0)
    then finish (del_subh p)
    else finish p
