-- ===== src/Mac/Pdu/Written.antt =====
-- `write_packet` on a PDU that was built as the code builds it.
use srs_ue.Prelude.{
  ℕ, zero, suc, ◌+◌, ◌-◌, ◌≤◌, ◌<◌, ◌≡◌, refl, sym, ap, subst, ◌∙◌, ◌≢◌, Bool, true, false, List,
  [], ◌∷◌, ◌++◌, append_assoc, Option, none, some, inl, inr, ltb, leb, ◌==◌, if◌then◌else◌, length,
  length-append, take, drop, get_elem?, replicate, length-replicate, length-take, u32, Bool-cases,
  arith,
}
use srs_ue.Mac.Pdu.Subheader.{SchSubh}
use srs_ue.Mac.Pdu.Packet.{SchPdu, write_at, payload_size_at}
use srs_ue.Mac.Pdu.Write.{
  header_sizes, ce_payloads, growth_of, plan_padding, padding_headers, front_bytes, finish,
  write_packet,
}
use srs_ue.Mac.Pdu.Wire.{LastSdu, encode}
use srs_ue.Mac.Pdu.Front.{header_sizes-growth}
use srs_ue.Mac.Pdu.Order.{entries, front_bytes-entries}
use srs_ue.Mac.Pdu.Buffer.{write_around}
use srs_ue.Mac.Pdu.Trip.{Item, contents_of}
use srs_ue.Mac.Pdu.Built.{active, IsBuilt, length-front_bytes, growth_of-le}

-- The padding that is chosen: multi-byte padding or not, the subheaders in front, the bytes behind.
abbrev pub plan : SchPdu → Bool × ℕ × ℕ
plan p = plan_padding p.rem_len (growth_of p.last_sdu_idx p.subheaders)

plan_lem :
    (rem growth : ℕ)
    → rem < 2147483648
    → growth ≤ 2
    → let (multibyte, onetwo, left) = plan_padding rem growth in
      (left + padding_headers multibyte onetwo + (if multibyte then growth else 0) ≡ rem)
      × (left ≤ rem)
      × (padding_headers multibyte onetwo ≤ 2)
      × (multibyte ≡ true → onetwo ≡ 0)
unfolding plan_padding
plan_lem rem growth h g = elim (Bool-cases (ltb 2 rem)) [
  | inl e ↦ rw e (ground arith, ground arith, omega arith, λ _. refl)
  | inr e ↦ rw e (omega arith, omega arith, ground arith, λ m. absurd (ground arith))
]

-- The payloads' count does not depend on the place of the last SDU.
pub header_sizes-elements :
    (m : Bool) (last : Option ℕ) (i : ℕ) (ss : List SchSubh)
    → (header_sizes m last i ss).1 ≡ (header_sizes false last i ss).1
unfolding header_sizes
header_sizes-elements m last i [] = refl
header_sizes-elements m last i (s ∷ ss) = omega (arith, header_sizes-elements m last (i + 1) ss)

pub header_sizes-no_sdu :
    (i : ℕ) (ss : List SchSubh) → (header_sizes true none i ss).0 ≡ (header_sizes false none i ss).0
unfolding header_sizes
header_sizes-no_sdu i [] = refl
header_sizes-no_sdu i (s ∷ ss) = omega (arith, header_sizes-no_sdu (i + 1) ss)

pub get_elem?-take :
    (n i : ℕ) (ss : List SchSubh)
    → i < length (take n ss)
    → get_elem? (take n ss) i ≡ get_elem? ss i
get_elem?-take zero i ss h = absurd (omega arith)
get_elem?-take (suc n) i [] h = refl
get_elem?-take (suc n) zero (s ∷ ss) h = refl
get_elem?-take (suc n) (suc i) (s ∷ ss) h = get_elem?-take n i ss (omega arith)

-- Counting the last SDU's header in full, in the vector that it stands in.
pub full_sizes :
    (m : Bool) (n : ℕ) (last : Option ℕ) (all : List SchSubh)
    → LastSdu 0 last (take n all)
    → (header_sizes m last 0 (take n all)).0
      ≡ (header_sizes false last 0 (take n all)).0 + (if m then growth_of last all else 0)
full_sizes false n last all l = omega arith
full_sizes true n none all l = omega (arith, header_sizes-no_sdu 0 (take n all))
full_sizes true n (some k) all (pre, s, post, e, hk, d, c) =
    let inside : k < length (take n all) =
      omega (arith, ap length e, length-append pre (s ∷ post)) in
    let found : growth_of (some k) (take n all) ≡ growth_of (some k) all =
      rw (growth_of, get_elem?-take n k all inside) refl in
    let zero_first : 0 + k ≡ k = omega arith in
    let growth =
      subst
        (λ (t : ℕ).
          (header_sizes true (some t) 0 (take n all)).0
          ≡ (header_sizes false (some t) 0 (take n all)).0 + growth_of (some k) (take n all))
        zero_first (header_sizes-growth k 0 (take n all)) in
    omega (arith, growth, found)

-- The headers and elements fit in front of the SDUs.
abbrev pub Fits : SchPdu → Type 0
Fits p =
    let sizes = header_sizes (plan p).0 p.last_sdu_idx 0 (active p) in
    sizes.0 + sizes.1 + 2 < p.sdu_offset_start

-- The packet in the specification's order.
abbrev pub packet_of : SchPdu → List Item → List ℕ
packet_of p items =
    encode (entries (plan p).0 (plan p).1 (active p))
    ++ ((ce_payloads p.pdu_is_ul (active p)).1 ++ (contents_of items ++ replicate (plan p).2 0))

pub finish-IsBuilt :
    (items : List Item) (p : SchPdu)
    → IsBuilt items p
    → Fits p
    → 0 < length (active p)
    → ((finish p).1 ≡ some (packet_of p items)) × (length (packet_of p items) ≡ p.pdu_len)
unfolding finish
finish-IsBuilt items p v fits h =
    let ss = active p in
    let multibyte = (plan p).0 in
    let onetwo = (plan p).1 in
    let left = (plan p).2 in
    let sizes = header_sizes multibyte p.last_sdu_idx 0 ss in
    let header_sz = sizes.0 + padding_headers multibyte onetwo in
    let padding_lem =
      plan_lem p.rem_len (growth_of p.last_sdu_idx p.subheaders)
        (omega (arith, v.accounted, v.small)) (growth_of-le p.last_sdu_idx p.subheaders) in
    let front = front_bytes p.pdu_is_ul multibyte onetwo p.last_sdu_idx ss in
    let size_front : length front ≡ sizes.0 + padding_headers multibyte onetwo + sizes.1 =
      length-front_bytes p.pdu_is_ul multibyte onetwo p.last_sdu_idx ss v.sendable v.last
        padding_lem.3 in
    let whole : left + header_sz + sizes.1 + p.total_sdu_len ≡ p.pdu_len = omega (
      arith,
      v.accounted,
      padding_lem.0,
      full_sizes multibyte p.nof_subheaders p.last_sdu_idx p.subheaders v.last,
      header_sizes-elements multibyte p.last_sdu_idx 0 ss,
    ) in
    let guard : leb p.sdu_offset_start (sizes.1 + header_sz) ≡ false =
      ground (arith, padding_lem.2) in
    let total : (u32 (left + header_sz + sizes.1 + p.total_sdu_len) == p.pdu_len) ≡ true =
      ground (arith, whole, v.small) in
    let counted : (header_sz + sizes.1 == length front) ≡ true = ground (arith, size_front) in
    let start = p.sdu_offset_start - header_sz - sizes.1 in
    let contents = contents_of items in
    let ordered : front ++ (contents ++ replicate left 0) ≡ packet_of p items =
      ap (λ (l : List ℕ). l ++ (contents ++ replicate left 0))
        (front_bytes-entries p.pdu_is_ul multibyte onetwo p.last_sdu_idx ss v.last h)
      ∙ append_assoc (encode (entries multibyte onetwo ss)) (ce_payloads p.pdu_is_ul ss).1
          (contents ++ replicate left 0) in
    let cut =
      ap
        (λ (l : List ℕ). take p.pdu_len (
          drop start
            (write_at (start + (p.pdu_len - left)) (replicate left 0) (write_at start front l))))
        v.buffer
      ∙ write_around start p.pdu_len left v.front contents v.behind front
          (omega (arith, v.offset, size_front, padding_lem.2))
          (omega (arith, v.total, whole, size_front))
          (omega (arith, v.room, v.accounted, padding_lem.1)) in
    (
      rw (guard, total, counted) (ap some (cut ∙ ordered)),
      ap length (sym ordered)
          ∙ omega (
            arith,
            length-append front (contents ++ replicate left 0),
            length-append contents (replicate left 0),
            length-replicate {A = ℕ} left 0,
            v.total,
            whole,
            size_front,
          ),
    )

-- A PDU that was built, with a last subheader that has a payload, and with room for headers and
-- control elements in front of the SDUs, is always written: the packet is the padding subheaders of
-- one or two bytes, the elements' and the SDUs' subheaders and multi-byte padding, the last of them
-- marked, then the elements' bytes, the SDUs' and zeros, `pdu_len` bytes in all.
pub write_packet-IsBuilt :
    (items : List Item) (p : SchPdu)
    → IsBuilt items p
    → Fits p
    → 0 < p.nof_subheaders
    → payload_size_at p.subheaders (p.nof_subheaders - 1) ≢ 0
    → ((write_packet p).1 ≡ some (packet_of p items)) × (length (packet_of p items) ≡ p.pdu_len)
unfolding write_packet
write_packet-IsBuilt items p v fits h last =
    let some_left : ltb 2147483647 p.rem_len ≡ false = ground (arith, v.accounted, v.small) in
    let kept : (payload_size_at p.subheaders (p.nof_subheaders - 1) == 0) ≡ false = ground arith in
    let there : 0 < length (active p) =
      omega (arith, length-take p.nof_subheaders p.subheaders v.in_vector) in
    let some_subh : ltb 0 p.nof_subheaders ≡ true = ground arith in
    rw (some_left, some_subh, kept) (finish-IsBuilt items p v fits there)
