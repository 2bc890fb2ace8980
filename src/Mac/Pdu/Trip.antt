-- ===== src/Mac/Pdu/Trip.antt =====
-- A packet in the specification's order is parsed to its subheaders and their payloads.
use srs_ue.Prelude.{
  ℕ, suc, ◌+◌, ◌≤◌, ◌≡◌, refl, sym, ap, ◌∙◌, Bool, true, false, List, [], ◌∷◌, ◌++◌, append_assoc,
  append-nil, none, some, inl, inr, leb, length, length-append, take, drop, take-append,
  drop-append, Bool-cases, arith,
}
use srs_ue.Mac.Pdu.Subheader.{
  SchSubh, phr_report, write_subheader, read_payload, size_plus_header, get_header_size,
}
use srs_ue.Mac.Pdu.Parse.{read_subheaders, read_payloads, read_len, correct_last}
use srs_ue.Mac.Pdu.Wire.{encode, IsSendable, length-write_subheader}
use srs_ue.Mac.Pdu.SubheaderTrip.{received, read-write_subheader}

-- A subheader and the payload that goes with it.
abbrev pub Item : Type 0
Item = SchSubh × List ℕ

abbrev pub subheaders_of : List Item → List SchSubh
subheaders_of [] = []
subheaders_of ((s, c) ∷ items) = s ∷ subheaders_of items

abbrev pub contents_of : List Item → List ℕ
contents_of [] = []
contents_of ((s, c) ∷ items) = c ++ contents_of items

-- Every subheader can be sent, and has its payload's size; the last one's size is not sent.
abbrev pub AllSized : Bool → List Item → Type 0
AllSized is_ul [] = Unit
AllSized is_ul ((s, c) ∷ []) = IsSendable is_ul s
AllSized is_ul ((s, c) ∷ i ∷ items) =
    IsSendable is_ul s × (length c ≡ s.nof_bytes) × AllSized is_ul (i ∷ items)

-- What is sent of an item, and what the receiver has of it.
abbrev pub sent : List Item → List (ℕ × List ℕ)
sent [] = []
sent ((s, c) ∷ items) = (s.lcid, c) ∷ sent items

abbrev pub payload_of : SchSubh → List ℕ
payload_of s = elim s.payload [ none ↦ [] | some bytes ↦ take s.nof_bytes bytes ]

abbrev pub delivered : List SchSubh → List (ℕ × List ℕ)
delivered [] = []
delivered (s ∷ ss) = (s.lcid, payload_of s) ∷ delivered ss

abbrev pub is_empty : List Item → Bool
is_empty [] = true
is_empty (i ∷ items) = false

-- The vector's subheaders once the items have been read into them.
abbrev pub receive : List Item → List SchSubh → List SchSubh
receive [] ts = []
receive (i ∷ items) [] = []
receive ((s, c) ∷ items) (t ∷ ts) = received (is_empty items) t s ∷ receive items ts

abbrev pub last_content : List Item → List ℕ
last_content [] = []
last_content ((s, c) ∷ []) = c
last_content ((s, c) ∷ i ∷ items) = last_content (i ∷ items)

pub length-receive :
    (ts : List SchSubh) (items : List Item)
    → length items ≤ length ts
    → length (receive items ts) ≡ length items
length-receive [] [] h = refl
length-receive [] (i ∷ items) h = absurd (omega arith)
length-receive (t ∷ ts) [] h = refl
length-receive (t ∷ ts) ((s, c) ∷ items) h = ap suc (length-receive ts items (omega arith))

pub read_subheaders-encode :
    (is_ul : Bool) (ts : List SchSubh) (i : Item) (items : List Item) (rest : List ℕ)
    → length (i ∷ items) ≤ length ts
    → AllSized is_ul (i ∷ items)
    → read_subheaders is_ul ts (encode (subheaders_of (i ∷ items)) ++ rest)
      ≡ some (receive (i ∷ items) ts, drop (length (i ∷ items)) ts, rest)
unfolding read_subheaders encode
read_subheaders-encode is_ul [] (s, c) items rest h v = absurd (omega arith)
read_subheaders-encode is_ul (t ∷ ts) (s, c) [] rest h v =
    rw (read_subheaders, read-write_subheader is_ul true t s rest v) refl
read_subheaders-encode is_ul (t ∷ ts) (s, c) (i ∷ items) rest h v =
    let behind = encode (subheaders_of (i ∷ items)) in
    rw
      (
        read_subheaders,
        append_assoc (write_subheader false s) behind rest,
        read-write_subheader is_ul false t s (behind ++ rest) v.0,
        read_subheaders-encode is_ul ts i items rest (omega arith) v.2,
      )
      refl

received_open :
    (is_last : Bool) (t s : SchSubh)
    → ((received is_last t s).lcid ≡ s.lcid)
      × ((received false t s).nof_bytes ≡ s.nof_bytes)
      × (size_plus_header (received false t s) ≡ size_plus_header s)
unfolding received size_plus_header
received_open is_last t s = elim (Bool-cases (leb phr_report s.lcid)) [
  | inl e ↦ (rw e refl, rw e refl, rw (received, e) (rw e refl))
  | inr e ↦ (rw e refl, rw e refl, rw (received, e) (rw e refl))
]

read_payloads-append :
    (t : SchSubh) (ts : List SchSubh) (c rest : List ℕ)
    → t.nof_bytes ≡ length c
    → read_payloads (t ∷ ts) (c ++ rest)
      ≡ record t { payload = some (c ++ rest) } ∷ read_payloads ts rest
unfolding read_payloads read_payload
read_payloads-append t ts c rest e = rw (e, drop-append c rest) refl

pub delivered-read_payloads :
    (is_ul : Bool) (ts : List SchSubh) (items : List Item) (tail : List ℕ) (size : ℕ)
    → length items ≤ length ts
    → AllSized is_ul items
    → size ≡ length (last_content items)
    → delivered (correct_last size (read_payloads (receive items ts) (contents_of items ++ tail)))
      ≡ sent items
unfolding correct_last read_payloads read_payload
delivered-read_payloads is_ul [] [] tail size h v e = refl
delivered-read_payloads is_ul [] (i ∷ items) tail size h v e = absurd (omega arith)
delivered-read_payloads is_ul (t ∷ ts) [] tail size h v e = refl
delivered-read_payloads is_ul (t ∷ ts) ((s, c) ∷ []) tail size h v e =
    rw
      (correct_last, read_payloads, e, append-nil c, (received_open true t s).0, take-append c tail)
      refl
delivered-read_payloads is_ul (t ∷ []) ((s, c) ∷ i ∷ items) tail size h v e = absurd (omega arith)
delivered-read_payloads is_ul (t ∷ u ∷ ts) ((s, c) ∷ i ∷ items) tail size h v e =
    let got = received false t s in
    let rest = contents_of (i ∷ items) ++ tail in
    let ih = delivered-read_payloads is_ul (u ∷ ts) (i ∷ items) tail size (omega arith) v.2 e in
    let sized : got.nof_bytes ≡ length c = (received_open false t s).1 ∙ sym v.1 in
    let front = read_payloads-append got (receive (i ∷ items) (u ∷ ts)) c rest sized in
    let payload : take got.nof_bytes (c ++ rest) ≡ c = rw (sized, take-append c rest) refl in
    ap
      (λ (l : List ℕ).
        delivered (correct_last size (read_payloads (got ∷ receive (i ∷ items) (u ∷ ts)) l)))
      (append_assoc c (contents_of (i ∷ items)) tail)
    ∙ ap (λ (l : List SchSubh). delivered (correct_last size l)) front
    ∙ ap
        (λ (l : ℕ).
          (l, take got.nof_bytes (c ++ rest))
          ∷ delivered (correct_last size (read_payloads (receive (i ∷ items) (u ∷ ts)) rest)))
        (received_open false t s).0
    ∙ ap
        (λ (l : List ℕ).
          (s.lcid, l)
          ∷ delivered (correct_last size (read_payloads (receive (i ∷ items) (u ∷ ts)) rest)))
        payload
    ∙ ap (◌∷◌ (s.lcid, c)) ih

header_size-size_plus_header :
    (s : SchSubh) → size_plus_header s ≡ get_header_size false s + s.nof_bytes
unfolding size_plus_header get_header_size
header_size-size_plus_header s = ground arith

pub read_len-receive :
    (is_ul : Bool) (ts : List SchSubh) (i : Item) (items : List Item)
    → length (i ∷ items) ≤ length ts
    → AllSized is_ul (i ∷ items)
    → read_len (receive (i ∷ items) ts) + 1 + length (last_content (i ∷ items))
      ≡ length (encode (subheaders_of (i ∷ items))) + length (contents_of (i ∷ items))
unfolding read_len encode get_header_size
read_len-receive is_ul [] i items h v = absurd (omega arith)
read_len-receive is_ul (t ∷ ts) (s, c) [] h v =
    omega (arith, length-append c [], length-write_subheader is_ul true s v)
read_len-receive is_ul (t ∷ []) (s, c) (i ∷ items) h v = absurd (omega arith)
read_len-receive is_ul (t ∷ u ∷ ts) (s, c) (i ∷ items) h v = omega (
  arith,
  (received_open false t s).2,
  length-append (write_subheader false s) (encode (subheaders_of (i ∷ items))),
  length-append c (contents_of (i ∷ items)),
  length-write_subheader is_ul false s v.0,
  header_size-size_plus_header s,
  read_len-receive is_ul (u ∷ ts) i items (omega arith) v.2,
)
