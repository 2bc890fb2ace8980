-- ===== src/Mac/Pdu/Exchange.antt =====
-- What one side writes, the other side reads.
use srs_ue.Prelude.{
  ℕ, suc, ◌+◌, ◌-◌, ◌≤◌, ◌<◌, ◌≡◌, refl, sym, ap, subst, ◌∙◌, ◌≢◌, Bool, true, false, List, [], ◌∷◌,
  ◌++◌, append_assoc, append-nil, some, inl, inr, if◌then◌else◌, length, length-append, length-take,
  take, replicate, Bool-cases, arith,
}
use srs_ue.Mac.Pdu.Packet.{SchPdu, payload_size_at}
use srs_ue.Mac.Pdu.Subheader.{SchSubh, is_sdu}
use srs_ue.Mac.Pdu.Write.{ce_payloads, padding_subh, plan_padding, growth_of, write_packet}
use srs_ue.Mac.Pdu.Parse.{parse_packet}
use srs_ue.Mac.Pdu.Wire.{sdus, elements, encode, AllSendable}
use srs_ue.Mac.Pdu.Order.{entries}
use srs_ue.Mac.Pdu.Trip.{Item, subheaders_of, contents_of, AllSized, sent, delivered}
use srs_ue.Mac.Pdu.Received.{parse_packet-sent}
use srs_ue.Mac.Pdu.Built.{active, IsBuilt}
use srs_ue.Mac.Pdu.Written.{plan, Fits, packet_of, write_packet-IsBuilt}
use srs_ue.Mac.Pdu.Items.{
  element_items, padding_items, closing, all_items, subheaders_of-append, contents_of-append,
  AllExact, AllExact-append, AllExact-AllSized, AllSized-AllExact, padding-IsSendable,
  element_items-AllExact, sdus-AllSendable, AllFilled-AllExact, padding_items-AllExact,
  subheaders_of-padding_items, contents_of-padding_items, subheaders_of-element_items,
  contents_of-element_items,
}

plan_left : (rem growth : ℕ) → (plan_padding rem growth).0 ≡ false → (plan_padding rem growth).2 ≡ 0
unfolding plan_padding
plan_left rem growth h = ground arith

subheaders_of-closing :
    (m : Bool) (n : ℕ) → subheaders_of (closing m n) ≡ (if m then padding_subh 0 ∷ [] else [])
subheaders_of-closing true n = refl
subheaders_of-closing false n = refl

contents_of-closing :
    (m : Bool) (n : ℕ) → (m ≡ false → n ≡ 0) → contents_of (closing m n) ≡ replicate n 0
contents_of-closing true n h = append-nil (replicate n 0)
contents_of-closing false n h = rw (h refl) refl

closing-AllSized :
    (is_ul m : Bool) (n : ℕ) (a : List Item) → AllExact is_ul a → AllSized is_ul (a ++ closing m n)
closing-AllSized is_ul true n a v =
    AllExact-AllSized is_ul a (padding_subh 0) (replicate n 0) v (padding-IsSendable is_ul)
closing-AllSized is_ul false n a v = rw (append-nil a) (AllSized-AllExact is_ul a v)

module _ (p : SchPdu) (items : List Item) where
  subheaders_of-all_items :
      subheaders_of items ≡ sdus (active p)
      → subheaders_of (all_items p items) ≡ entries (plan p).0 (plan p).1 (active p)
  subheaders_of-all_items e =
      let pads = padding_items (plan p).1 in
      let ces = element_items p.pdu_is_ul (elements (active p)) in
      let end = closing (plan p).0 (plan p).2 in
      rw
        (
          subheaders_of-append pads (ces ++ (items ++ end)),
          subheaders_of-append ces (items ++ end),
          subheaders_of-append items end,
          subheaders_of-padding_items (plan p).1,
          subheaders_of-element_items p.pdu_is_ul (elements (active p)),
          subheaders_of-closing (plan p).0 (plan p).2,
          e,
        )
        refl

  contents_of-all_items :
      contents_of (all_items p items)
      ≡ (ce_payloads p.pdu_is_ul (active p)).1 ++ (contents_of items ++ replicate (plan p).2 0)
  contents_of-all_items =
      let pads = padding_items (plan p).1 in
      let ces = element_items p.pdu_is_ul (elements (active p)) in
      let end = closing (plan p).0 (plan p).2 in
      rw
        (
          contents_of-append pads (ces ++ (items ++ end)),
          contents_of-append ces (items ++ end),
          contents_of-append items end,
          contents_of-padding_items (plan p).1,
          contents_of-element_items p.pdu_is_ul (active p),
          contents_of-closing (plan p).0 (plan p).2
              (plan_left p.rem_len (growth_of p.last_sdu_idx p.subheaders)),
        )
        refl

  all_items-AllSized : IsBuilt items p → AllSized p.pdu_is_ul (all_items p items)
  all_items-AllSized v =
      let pads = padding_items (plan p).1 in
      let ces = element_items p.pdu_is_ul (elements (active p)) in
      let end = closing (plan p).0 (plan p).2 in
      let sdus_lem : AllSendable p.pdu_is_ul (subheaders_of items) =
        subst (AllSendable p.pdu_is_ul) (sym v.are_sdus)
          (sdus-AllSendable p.pdu_is_ul (active p) v.sendable) in
      let exact =
        AllExact-append p.pdu_is_ul pads (ces ++ items)
          (padding_items-AllExact p.pdu_is_ul (plan p).1)
          (AllExact-append p.pdu_is_ul ces items
            (element_items-AllExact p.pdu_is_ul (active p) v.sendable)
            (AllFilled-AllExact p.pdu_is_ul items sdus_lem v.filled)) in
      let regroup : (pads ++ (ces ++ items)) ++ end ≡ pads ++ (ces ++ (items ++ end)) =
        simp (append_assoc) in
      subst (AllSized p.pdu_is_ul) regroup
        (closing-AllSized p.pdu_is_ul (plan p).0 (plan p).2 (pads ++ (ces ++ items)) exact)

length-subheaders_of : (items : List Item) → length (subheaders_of items) ≡ length items
length-subheaders_of [] = refl
length-subheaders_of ((s, c) ∷ items) = ap suc (length-subheaders_of items)

length-elements-sdus : (ss : List SchSubh) → length (elements ss) + length (sdus ss) ≡ length ss
unfolding elements sdus
length-elements-sdus [] = refl
length-elements-sdus (s ∷ ss) = elim (Bool-cases (is_sdu s)) [
  | inl e ↦ rw e (omega (arith, length-elements-sdus ss))
  | inr e ↦ rw e (omega (arith, length-elements-sdus ss))
]

-- Every subheader in use is among the items.
active-le-all_items :
    (p : SchPdu) (items : List Item)
    → subheaders_of items ≡ sdus (active p)
    → length (active p) ≤ length (all_items p items)
active-le-all_items p items e =
    let pads = replicate (plan p).1 (padding_subh 0) in
    let end : List SchSubh = if (plan p).0 then padding_subh 0 ∷ [] else [] in
    omega (
      arith,
      length-elements-sdus (active p),
      length-subheaders_of (all_items p items),
      ap length (subheaders_of-all_items p items e),
      length-append pads (elements (active p) ++ (sdus (active p) ++ end)),
      length-append (elements (active p)) (sdus (active p) ++ end),
      length-append (sdus (active p)) end,
    )

-- The parser on a list of items that is not known to start with one.
parse_items :
    (r : SchPdu) (items : List Item)
    → 0 < length items
    → AllSized r.pdu_is_ul items
    → length items ≤ length r.subheaders
    → r.pdu_len ≡ length (encode (subheaders_of items) ++ contents_of items)
    → r.pdu_len < 4294967296
    → (q : SchPdu) × (parse_packet (encode (subheaders_of items) ++ contents_of items) r ≡ some q)
      × (q.nof_subheaders ≡ length items)
      × (delivered (take q.nof_subheaders q.subheaders) ≡ sent items)
parse_items r [] some_item v h e small = absurd (omega arith)
parse_items r (i ∷ items) some_item v h e small = parse_packet-sent r i items v h e small

-- A PDU that was built, with a last subheader that has a payload and with room in front of the SDUs,
-- is written, and a receiver of the same direction and length, whose vector has a place for every
-- subheader, parses the packet: it has the padding subheaders, the control elements and the SDUs in
-- that order and then what closes the packet, each with the channel and the bytes that were sent.
pub parse_packet-write_packet :
    (p r : SchPdu) (items : List Item)
    → IsBuilt items p
    → Fits p
    → 0 < p.nof_subheaders
    → payload_size_at p.subheaders (p.nof_subheaders - 1) ≢ 0
    → r.pdu_is_ul ≡ p.pdu_is_ul
    → r.pdu_len ≡ p.pdu_len
    → length (all_items p items) ≤ length r.subheaders
    → (packet : List ℕ) × (q : SchPdu) × ((write_packet p).1 ≡ some packet)
      × (parse_packet packet r ≡ some q)
      × (q.nof_subheaders ≡ length (all_items p items))
      × (delivered (take q.nof_subheaders q.subheaders) ≡ sent (all_items p items))
parse_packet-write_packet p r items v fits h last same_way same_len places =
    let all = all_items p items in
    let written = write_packet-IsBuilt items p v fits h last in
    let same : packet_of p items ≡ encode (subheaders_of all) ++ contents_of all =
      rw (subheaders_of-all_items p items v.are_sdus, contents_of-all_items p items) refl in
    let some_item : 0 < length all = omega (
      arith,
      active-le-all_items p items v.are_sdus,
      length-take p.nof_subheaders p.subheaders v.in_vector,
    ) in
    let (q, parsed, count, got) =
      parse_items r all some_item
        (subst (λ (b : Bool). AllSized b all) (sym same_way) (all_items-AllSized p items v)) places
        (same_len ∙ sym written.1 ∙ ap length same) (omega (arith, same_len, v.small)) in
    (encode (subheaders_of all) ++ contents_of all, q, written.0 ∙ ap some same, parsed, count, got)
