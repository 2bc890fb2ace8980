-- ===== src/Mac/Pdu/Front.antt =====
-- What `write_packet` writes in front of the SDUs is the specification's order of the subheaders, and
-- the control elements' payloads.
use srs_ue.Prelude.{
  ℕ, zero, suc, ◌+◌, ◌≤◌, ◌<◌, ◌≡◌, refl, sym, ap, subst, Bool, true, false, List, [], ◌∷◌, ◌++◌,
  append-nil, append_assoc, Option, some, inl, inr, ◌==◌, length, length-append, length-take, take,
  Bool-cases, arith,
}
use srs_ue.Mac.Bsr.{size_header_sdu}
use srs_ue.Mac.Pdu.Subheader.{
  SchSubh, is_sdu, sizeof_ce, get_header_size, write_subheader, write_payload,
}
use srs_ue.Mac.Pdu.Write.{header_sizes, ce_headers, sdu_headers, ce_payloads, growth_of}
use srs_ue.Mac.Pdu.Wire.{sdus, elements, encode, encode_open, AllSendable}

-- Every size of an element is within the eight octets that it is kept in.
pub sizeof_ce-le : (lcid : ℕ) (is_ul : Bool) → sizeof_ce lcid is_ul ≤ 8
unfolding sizeof_ce
sizeof_ce-le lcid true = ground arith
sizeof_ce-le lcid false = ground arith

pub element_sizes-payloads :
    (is_ul multibyte : Bool) (last : Option ℕ) (i : ℕ) (ss : List SchSubh)
    → AllSendable is_ul ss
    → (header_sizes multibyte last i ss).1 ≡ length (ce_payloads is_ul ss).1
unfolding header_sizes ce_payloads write_payload
element_sizes-payloads is_ul m last i [] v = refl
element_sizes-payloads is_ul m last i (s ∷ ss) v = elim (Bool-cases (is_sdu s)) [
  | inl e ↦ rw e (omega (arith, element_sizes-payloads is_ul m last (i + 1) ss v.1))
  | inr e ↦
      let fits : sizeof_ce s.lcid is_ul ≤ length s.w_payload_ce =
        omega (arith, sizeof_ce-le s.lcid is_ul, v.0.element_room) in
      rw e (
        omega (
          arith,
          v.0.element_size e,
          length-append (take (sizeof_ce s.lcid is_ul) s.w_payload_ce) (ce_payloads is_ul ss).1,
          length-take (sizeof_ce s.lcid is_ul) s.w_payload_ce fits,
          element_sizes-payloads is_ul m last (i + 1) ss v.1,
        ))
]

-- Behind the index nothing changes.
header_sizes-behind :
    (k i : ℕ) (ss : List SchSubh)
    → k < i
    → (header_sizes true (some k) i ss).0 ≡ (header_sizes false (some k) i ss).0
unfolding header_sizes
header_sizes-behind k i [] h = refl
header_sizes-behind k i (s ∷ ss) h = ground (arith, header_sizes-behind k (i + 1) ss)

-- Counting the last SDU's header in full adds what `growth_of` says.
pub header_sizes-growth :
    (k i : ℕ) (ss : List SchSubh)
    → (header_sizes true (some (i + k)) i ss).0
      ≡ (header_sizes false (some (i + k)) i ss).0 + growth_of (some k) ss
unfolding header_sizes get_header_size size_header_sdu
header_sizes-growth k i [] = refl
header_sizes-growth zero i (s ∷ ss) = ground (arith, header_sizes-behind (i + 0) (i + 1) ss)
header_sizes-growth (suc k) i (s ∷ ss) =
    let step : i + 1 + k ≡ i + suc k = omega arith in
    let ih =
      subst
        (λ (t : ℕ).
          (header_sizes true (some t) (i + 1) ss).0
          ≡ (header_sizes false (some t) (i + 1) ss).0 + growth_of (some k) ss)
        step (header_sizes-growth k (i + 1) ss) in
    ground (arith, ih)

pub ce_headers_open : (ss : List SchSubh) → ce_headers false ss ≡ encode_open (elements ss)
unfolding ce_headers encode_open elements
ce_headers_open [] = refl
ce_headers_open (s ∷ ss) = elim (Bool-cases (is_sdu s)) [
  | inl e ↦ rw e (ce_headers_open ss)
  | inr e ↦ rw e (ap (◌++◌ (write_subheader false s)) (ce_headers_open ss))
]

pub sdu_headers_open :
    (last : Option ℕ) (i : ℕ) (ss : List SchSubh)
    → sdu_headers true last i ss ≡ encode_open (sdus ss)
unfolding sdu_headers encode_open sdus
sdu_headers_open last i [] = refl
sdu_headers_open last i (s ∷ ss) = elim (Bool-cases (is_sdu s)) [
  | inl e ↦ rw e (ap (◌++◌ (write_subheader false s)) (sdu_headers_open last (i + 1) ss))
  | inr e ↦ rw e (sdu_headers_open last (i + 1) ss)
]

-- With no SDU behind, nothing is written.
pub sdu_headers_none :
    (m : Bool) (last : Option ℕ) (i : ℕ) (ss : List SchSubh)
    → sdus ss ≡ []
    → sdu_headers m last i ss ≡ []
unfolding sdu_headers sdus
sdu_headers_none m last i [] h = refl
sdu_headers_none m last i (s ∷ ss) h = elim (Bool-cases (is_sdu s)) [
  | inl e ↦ absurd (ground arith)
  | inr e ↦ rw e (sdu_headers_none m last (i + 1) ss (ground arith))
]

-- The subheaders of the SDUs with the last one marked.
pub sdu_headers_last :
    (k i : ℕ) (pre post : List SchSubh) (s : SchSubh)
    → k ≡ i + length pre
    → is_sdu s ≡ true
    → sdus post ≡ []
    → sdu_headers false (some k) i (pre ++ s ∷ post)
      ≡ encode_open (sdus pre) ++ write_subheader true s
unfolding sdu_headers sdus encode_open
sdu_headers_last k i [] post s h e l =
    let here : (i == k) ≡ true = ground arith in
    rw (e, here, sdu_headers_none false (some k) (i + 1) post l) (append-nil _)
sdu_headers_last k i (t ∷ pre) post s h e l =
    let before : (i == k) ≡ false = ground arith in
    let ih = sdu_headers_last k (i + 1) pre post s (omega arith) e l in
    elim (Bool-cases (is_sdu t)) [
      | inl d ↦ rw (d, before, ih) (sym (append_assoc (write_subheader false t) _ _))
      | inr d ↦ rw (d, ih)
    ]

-- A closed list of elements only.
pub ce_headers_closed :
    (s : SchSubh) (ss : List SchSubh)
    → sdus (s ∷ ss) ≡ []
    → ce_headers true (s ∷ ss) ≡ encode (s ∷ ss)
unfolding ce_headers sdus encode
ce_headers_closed s [] h = elim (Bool-cases (is_sdu s)) [
  | inl e ↦ absurd (ground arith)
  | inr e ↦ rw e (append-nil _)
]
ce_headers_closed s (t ∷ ss) h = elim (Bool-cases (is_sdu s)) [
  | inl e ↦ absurd (ground arith)
  | inr e ↦
      let more : (suc (length ss) == 0) ≡ false = ground arith in
      rw (e, more) (ap (◌++◌ (write_subheader false s)) (ce_headers_closed t ss (ground arith)))
]
