-- ===== src/Mac/Pdu/Built.antt =====
-- What holds of a MAC PDU while it is built: its subheaders, its SDUs in the buffer, and the count of
-- the bytes that are left.
use srs_ue.Prelude.{
  ℕ, zero, suc, ◌+◌, ◌≤◌, ◌<◌, ◌≡◌, refl, sym, ap, Bool, true, false, not, ◌&&◌, List, [], ◌∷◌,
  ◌++◌, Option, none, some, inl, inr, if◌then◌else◌, length, length-append, take, Bool-cases, arith,
}
use srs_ue.Mac.Bsr.{size_header_sdu}
use srs_ue.Mac.Pdu.Subheader.{SchSubh, is_sdu, get_header_size, write_subheader, set_padding}
use srs_ue.Mac.Pdu.Packet.{SchPdu}
use srs_ue.Mac.Pdu.Write.{
  is_none, header_sizes, ce_headers, sdu_headers, ce_payloads, repeat_bytes, padding_subh,
  growth_of, padding_headers, front_bytes,
}
use srs_ue.Mac.Pdu.Wire.{sdus, AllSendable, LastSdu, header_sizes-headers}
use srs_ue.Mac.Pdu.Front.{element_sizes-payloads, sdu_headers_none}
use srs_ue.Mac.Pdu.Trip.{Item, subheaders_of, contents_of}

-- The subheaders in use.
abbrev pub active : SchPdu → List SchSubh
active p = take p.nof_subheaders p.subheaders

abbrev pub AllFilled : List Item → Type 0
AllFilled [] = Unit
AllFilled ((s, c) ∷ items) = (length c ≡ s.nof_bytes) × AllFilled items

-- The bytes that the subheaders in use take, the last SDU's counted with one octet.
abbrev pub used : SchPdu → ℕ
used p =
    let sizes = header_sizes false p.last_sdu_idx 0 (active p) in
    sizes.0 + sizes.1 + p.total_sdu_len

-- `items` are the SDUs that have been put, in order. Their bytes stand in the buffer from
-- `sdu_offset_start` on, and there is room for the rest of the PDU behind them.
pub record IsBuilt (items : List Item) (p : SchPdu) : Type 0 where
  pub in_vector : p.nof_subheaders ≤ length p.subheaders
  pub sendable : AllSendable p.pdu_is_ul (active p)
  pub last : LastSdu 0 p.last_sdu_idx (active p)
  pub accounted : p.rem_len + used p ≡ p.pdu_len
  pub small : p.pdu_len < 2147483648
  pub are_sdus : subheaders_of items ≡ sdus (active p)
  pub filled : AllFilled items
  pub front : List ℕ
  pub behind : List ℕ
  pub buffer : p.buffer_tx ≡ front ++ (contents_of items ++ behind)
  pub offset : length front ≡ p.sdu_offset_start
  pub total : length (contents_of items) ≡ p.total_sdu_len
  pub room : p.pdu_len ≤ p.total_sdu_len + length behind

length-repeat_bytes :
    (n : ℕ) (bytes : List ℕ) → length bytes ≡ 1 → length (repeat_bytes n bytes) ≡ n
length-repeat_bytes zero bytes h = refl
length-repeat_bytes (suc n) bytes h =
    omega (arith, length-append bytes (repeat_bytes n bytes), length-repeat_bytes n bytes h)

length-padding : (is_last : Bool) → length (write_subheader is_last (padding_subh 0)) ≡ 1
unfolding write_subheader is_sdu set_padding
length-padding is_last = refl

sdu_part_all :
    (multibyte : Bool) (last : Option ℕ) (ss : List SchSubh)
    → LastSdu 0 last ss
    → (if is_none last then [] else sdu_headers multibyte last 0 ss)
      ≡ sdu_headers multibyte last 0 ss
sdu_part_all multibyte none ss l = sym (sdu_headers_none multibyte none 0 ss l)
sdu_part_all multibyte (some k) ss l = refl

-- The code's two counts are the length of what it writes in front of the SDUs.
pub length-front_bytes :
    (is_ul multibyte : Bool) (onetwo : ℕ) (last : Option ℕ) (ss : List SchSubh)
    → AllSendable is_ul ss
    → LastSdu 0 last ss
    → (multibyte ≡ true → onetwo ≡ 0)
    → length (front_bytes is_ul multibyte onetwo last ss)
      ≡ (header_sizes multibyte last 0 ss).0
        + padding_headers multibyte onetwo
        + (header_sizes multibyte last 0 ss).1
unfolding front_bytes
length-front_bytes is_ul multibyte onetwo last ss v l h =
    let closes = not multibyte && is_none last in
    let pads = repeat_bytes onetwo (write_subheader false (padding_subh 0)) in
    let ces = ce_headers closes ss in
    let end : List ℕ = if multibyte then write_subheader true (padding_subh 0) else [] in
    let sdu_part : List ℕ = if is_none last then [] else sdu_headers multibyte last 0 ss in
    let payloads = (ce_payloads is_ul ss).1 in
    let size_end : length end + onetwo ≡ padding_headers multibyte onetwo =
      elim (Bool-cases multibyte) [
        | inl m ↦ rw m (omega (arith, length-padding true, h m))
        | inr m ↦ rw m (omega arith)
      ] in
    let size_sdus : length sdu_part ≡ length (sdu_headers multibyte last 0 ss) =
      ap length (sdu_part_all multibyte last ss l) in
    omega (
      arith,
      size_end,
      length-append pads (ces ++ (sdu_part ++ (end ++ payloads))),
      length-append ces (sdu_part ++ (end ++ payloads)),
      length-append sdu_part (end ++ payloads),
      length-append end payloads,
      length-repeat_bytes onetwo (write_subheader false (padding_subh 0)) (length-padding false),
      header_sizes-headers is_ul multibyte closes last 0 ss v,
      element_sizes-payloads is_ul multibyte last 0 ss v,
    )

-- The header that `growth_of` adds is one or two octets longer.
pub growth_of-le : (last : Option ℕ) (ss : List SchSubh) → growth_of last ss ≤ 2
unfolding get_header_size size_header_sdu
growth_of-le none ss = omega arith
growth_of-le (some k) ss = ground arith
