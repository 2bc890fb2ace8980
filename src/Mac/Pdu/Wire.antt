-- ===== src/Mac/Pdu/Wire.antt =====
-- The packet as the specification orders it: one or two padding subheaders, the control elements'
-- subheaders, the SDUs', padding, and then the payloads in the same order.
use srs_ue.Prelude.{
  ℕ, ◌+◌, ◌<◌, ◌≡◌, refl, sym, ap, ◌∙◌, Bool, true, false, not, ◌&&◌, List, [], ◌∷◌, ◌++◌,
  append_assoc, Option, none, some, inl, inr, ◌==◌, if◌then◌else◌, length, length-append,
  Bool-cases, arith,
}
use srs_ue.Mac.Bsr.{size_header_sdu}
use srs_ue.Mac.Pdu.Subheader.{SchSubh, is_sdu, sizeof_ce, get_header_size, write_subheader}
use srs_ue.Mac.Pdu.Write.{is_idx, header_sizes, ce_headers, sdu_headers}

-- The SDUs and the control elements among subheaders.
unfoldable pub sdus : List SchSubh → List SchSubh
sdus [] = []
sdus (s ∷ ss) = if is_sdu s then s ∷ sdus ss else sdus ss

unfoldable pub elements : List SchSubh → List SchSubh
elements [] = []
elements (s ∷ ss) = if is_sdu s then elements ss else s ∷ elements ss

-- Subheaders behind one another, each with another one behind it.
unfoldable pub encode_open : List SchSubh → List ℕ
encode_open [] = []
encode_open (s ∷ ss) = write_subheader false s ++ encode_open ss

-- Subheaders behind one another, the last one marked.
unfoldable pub encode : List SchSubh → List ℕ
encode [] = []
encode (s ∷ []) = write_subheader true s
encode (s ∷ t ∷ ss) = write_subheader false s ++ encode (t ∷ ss)

pub encode-append_last :
    (ss : List SchSubh) (s : SchSubh)
    → encode (ss ++ s ∷ []) ≡ encode_open ss ++ write_subheader true s
unfolding encode encode_open
encode-append_last [] s = refl
encode-append_last (t ∷ []) s = simp (append_assoc)
encode-append_last (t ∷ u ∷ ss) s =
    ap (◌++◌ (write_subheader false t)) (encode-append_last (u ∷ ss) s)
    ∙ sym (append_assoc (write_subheader false t) (encode_open (u ∷ ss)) (write_subheader true s))

pub encode_open-append :
    (ss ts : List SchSubh) → encode_open (ss ++ ts) ≡ encode_open ss ++ encode_open ts
unfolding encode_open
encode_open-append [] ts = refl
encode_open-append (s ∷ ss) ts =
    ap (◌++◌ (write_subheader false s)) (encode_open-append ss ts)
    ∙ sym (append_assoc (write_subheader false s) (encode_open ss) (encode_open ts))

-- A subheader that can be sent: an element has the size of its type, an SDU one of at most 15 bits.
pub record IsSendable (is_ul : Bool) (s : SchSubh) : Type 0 where
  pub lcid_bits : s.lcid < 32
  pub sdu_size : is_sdu s ≡ true → s.nof_bytes < 32768
  pub element_size : is_sdu s ≡ false → s.nof_bytes ≡ sizeof_ce s.lcid is_ul
  pub element_room : length s.w_payload_ce ≡ 8

abbrev pub AllSendable : Bool → List SchSubh → Type 0
AllSendable is_ul [] = Unit
AllSendable is_ul (s ∷ ss) = IsSendable is_ul s × AllSendable is_ul ss

-- The index is that of the last SDU, and there is none if there is no SDU; `i` counts from the front.
abbrev pub LastSdu : ℕ → Option ℕ → List SchSubh → Type 0
LastSdu i none ss = sdus ss ≡ []
LastSdu i (some k) ss =
    (pre : List SchSubh) × (s : SchSubh) × (post : List SchSubh) × (ss ≡ pre ++ s ∷ post)
    × (k ≡ i + length pre)
    × (is_sdu s ≡ true)
    × (sdus post ≡ [])

pub length-write_subheader :
    (is_ul is_last : Bool) (s : SchSubh)
    → IsSendable is_ul s
    → length (write_subheader is_last s) ≡ get_header_size is_last s
unfolding write_subheader get_header_size size_header_sdu
length-write_subheader is_ul is_last s v = elim (Bool-cases (is_sdu s)) [
  | inl e ↦ ground (arith, v.sdu_size e)
  | inr e ↦ ground arith
]

-- The size of an element's subheader does not depend on its place.
element_header :
    (a b : Bool) (s : SchSubh) → is_sdu s ≡ false → get_header_size a s ≡ get_header_size b s
unfolding get_header_size
element_header a b s e = ground arith

-- What the code counts is what it writes.
pub header_sizes-headers :
    (is_ul multibyte closes : Bool) (last : Option ℕ) (i : ℕ) (ss : List SchSubh)
    → AllSendable is_ul ss
    → (header_sizes multibyte last i ss).0
      ≡ length (ce_headers closes ss) + length (sdu_headers multibyte last i ss)
unfolding header_sizes ce_headers sdu_headers
header_sizes-headers is_ul m c last i [] v = refl
header_sizes-headers is_ul m c last i (s ∷ ss) v = elim (Bool-cases (is_sdu s)) [
  | inl e ↦ rw e (
      omega (
        arith,
        length-append (write_subheader (not m && is_idx i last) s) (sdu_headers m last (i + 1) ss),
        length-write_subheader is_ul (not m && is_idx i last) s v.0,
        header_sizes-headers is_ul m c last (i + 1) ss v.1,
      ))
  | inr e ↦ rw e (
      omega (
        arith,
        length-append (write_subheader (c && (length ss == 0)) s) (ce_headers c ss),
        length-write_subheader is_ul (c && (length ss == 0)) s v.0,
        element_header (not m && is_idx i last) (c && (length ss == 0)) s e,
        header_sizes-headers is_ul m c last (i + 1) ss v.1,
      ))
]
