-- ===== src/Mac/Pdu/Received.antt =====
-- `parse_packet` on a packet in the specification's order.
use srs_ue.Prelude.{
  ℕ, suc, ◌+◌, ◌≤◌, ◌<◌, ◌≡◌, refl, sym, ap, ◌∙◌, List, [], ◌∷◌, ◌++◌, append-nil, some, length,
  length-append, take, drop, take-append, u32, sub_u32, arith,
}
use srs_ue.Mac.Pdu.Subheader.{SchSubh, read_payload}
use srs_ue.Mac.Pdu.Packet.{SchPdu}
use srs_ue.Mac.Pdu.Parse.{read_payloads, read_len, correct_last, parse_packet}
use srs_ue.Mac.Pdu.Wire.{encode}
use srs_ue.Mac.Pdu.Trip.{
  Item, subheaders_of, contents_of, AllSized, sent, delivered, receive, last_content,
  length-receive, read_subheaders-encode, delivered-read_payloads, read_len-receive,
}

length-read_payloads :
    (ss : List SchSubh) (bytes : List ℕ) → length (read_payloads ss bytes) ≡ length ss
unfolding read_payloads
length-read_payloads [] bytes = refl
length-read_payloads (s ∷ ss) bytes = ap suc (length-read_payloads ss (read_payload s bytes).1)

length-correct_last : (size : ℕ) (ss : List SchSubh) → length (correct_last size ss) ≡ length ss
unfolding correct_last
length-correct_last size [] = refl
length-correct_last size (s ∷ []) = refl
length-correct_last size (s ∷ t ∷ ss) = ap suc (length-correct_last size (t ∷ ss))

take_front : (n : ℕ) (xs ys : List SchSubh) → length xs ≡ n → take n (xs ++ ys) ≡ xs
take_front n xs ys e = ap (λ (k : ℕ). take k (xs ++ ys)) (sym e) ∙ take-append xs ys

-- A packet of subheaders that can be sent, each but the last with a payload of its size, and of their
-- payloads in the same order, is parsed whenever the vector has a place for each subheader and the
-- PDU's length is the packet's: as many subheaders are there as were sent, and each has the channel
-- and the bytes that were sent with it.
pub parse_packet-sent :
    (p : SchPdu) (i : Item) (items : List Item)
    → AllSized p.pdu_is_ul (i ∷ items)
    → length (i ∷ items) ≤ length p.subheaders
    → p.pdu_len ≡ length (encode (subheaders_of (i ∷ items)) ++ contents_of (i ∷ items))
    → p.pdu_len < 4294967296
    → (q : SchPdu) × (parse_packet (encode (subheaders_of (i ∷ items)) ++ contents_of (i ∷ items)) p
        ≡ some q)
      × (q.nof_subheaders ≡ length (i ∷ items))
      × (delivered (take q.nof_subheaders q.subheaders) ≡ sent (i ∷ items))
unfolding parse_packet
parse_packet-sent p i items v h e small =
    let got = receive (i ∷ items) p.subheaders in
    let contents = contents_of (i ∷ items) in
    let size = sub_u32 p.pdu_len (u32 (read_len got + 1)) in
    let size_lem : size ≡ length (last_content (i ∷ items)) = omega (
      arith,
      length-append (encode (subheaders_of (i ∷ items))) contents,
      read_len-receive p.pdu_is_ul p.subheaders i items h v,
    ) in
    let count : length got ≡ length (i ∷ items) = length-receive p.subheaders (i ∷ items) h in
    let filled = correct_last size (read_payloads got contents) in
    let behind = drop (length (i ∷ items)) p.subheaders in
    let count' : length filled ≡ length got =
      length-correct_last size (read_payloads got contents) ∙ length-read_payloads got contents in
    let all =
      ap (λ (l : List ℕ). delivered (correct_last size (read_payloads got l)))
        (sym (append-nil contents))
      ∙ delivered-read_payloads p.pdu_is_ul p.subheaders (i ∷ items) [] size h v size_lem in
    (
      record p { subheaders = filled ++ behind; nof_subheaders = length got },
      rw (parse_packet, read_subheaders-encode p.pdu_is_ul p.subheaders i items contents h v) refl,
      count,
      ap delivered (take_front (length got) filled behind count') ∙ all,
    )
