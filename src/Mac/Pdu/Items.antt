-- ===== src/Mac/Pdu/Items.antt =====
-- All that a written packet carries, as subheaders with their payloads.
use srs_ue.Prelude.{
  ℕ, zero, suc, ◌≤◌, ◌≡◌, refl, sym, ap, ◌∙◌, Bool, true, false, List, [], ◌∷◌, ◌++◌, append_assoc,
  inl, inr, if◌then◌else◌, length, length-take, take, replicate, Bool-cases, arith,
}
use srs_ue.Mac.Pdu.Subheader.{SchSubh, is_sdu, sizeof_ce, set_padding, write_payload}
use srs_ue.Mac.Pdu.Packet.{SchPdu}
use srs_ue.Mac.Pdu.Write.{ce_payloads, padding_subh}
use srs_ue.Mac.Pdu.Wire.{sdus, elements, AllSendable, IsSendable}
use srs_ue.Mac.Pdu.Front.{sizeof_ce-le}
use srs_ue.Mac.Pdu.Trip.{Item, subheaders_of, contents_of, AllSized}
use srs_ue.Mac.Pdu.Built.{active, AllFilled}
use srs_ue.Mac.Pdu.Written.{plan}

-- A control element and the bytes of it that are sent.
abbrev pub element_items : Bool → List SchSubh → List Item
element_items is_ul [] = []
element_items is_ul (s ∷ ss) =
    (s, take (sizeof_ce s.lcid is_ul) s.w_payload_ce) ∷ element_items is_ul ss

abbrev pub padding_items : ℕ → List Item
padding_items zero = []
padding_items (suc n) = (padding_subh 0, []) ∷ padding_items n

-- The closing padding of more than two bytes, if there is one.
abbrev pub closing : Bool → ℕ → List Item
closing multibyte left = if multibyte then (padding_subh 0, replicate left 0) ∷ [] else []

-- All that is sent, in its order.
abbrev pub all_items : SchPdu → List Item → List Item
all_items p items =
    padding_items (plan p).1
    ++ (element_items p.pdu_is_ul (elements (active p)) ++ (items ++ closing (plan p).0 (plan p).2))

pub subheaders_of-append :
    (a b : List Item) → subheaders_of (a ++ b) ≡ subheaders_of a ++ subheaders_of b
subheaders_of-append [] b = refl
subheaders_of-append ((s, c) ∷ a) b = ap (◌∷◌ s) (subheaders_of-append a b)

pub contents_of-append : (a b : List Item) → contents_of (a ++ b) ≡ contents_of a ++ contents_of b
contents_of-append [] b = refl
contents_of-append ((s, c) ∷ a) b =
    ap (◌++◌ c) (contents_of-append a b) ∙ sym (append_assoc c (contents_of a) (contents_of b))

-- Every item can be sent and has its size.
abbrev pub AllExact : Bool → List Item → Type 0
AllExact is_ul [] = Unit
AllExact is_ul ((s, c) ∷ items) =
    IsSendable is_ul s × (length c ≡ s.nof_bytes) × AllExact is_ul items

pub AllExact-append :
    (is_ul : Bool) (a b : List Item) → AllExact is_ul a → AllExact is_ul b → AllExact is_ul (a ++ b)
AllExact-append is_ul [] b va vb = vb
AllExact-append is_ul ((s, c) ∷ a) b va vb = (va.0, va.1, AllExact-append is_ul a b va.2 vb)

-- The last item's size is not asked for.
pub AllExact-AllSized :
    (is_ul : Bool) (a : List Item) (s : SchSubh) (c : List ℕ)
    → AllExact is_ul a
    → IsSendable is_ul s
    → AllSized is_ul (a ++ (s, c) ∷ [])
AllExact-AllSized is_ul [] s c v w = w
AllExact-AllSized is_ul ((t, d) ∷ []) s c v w = (v.0, v.1, w)
AllExact-AllSized is_ul ((t, d) ∷ i ∷ a) s c v w =
    (v.0, v.1, AllExact-AllSized is_ul (i ∷ a) s c v.2 w)

pub AllSized-AllExact : (is_ul : Bool) (a : List Item) → AllExact is_ul a → AllSized is_ul a
AllSized-AllExact is_ul [] v = v
AllSized-AllExact is_ul ((t, d) ∷ []) v = v.0
AllSized-AllExact is_ul ((t, d) ∷ i ∷ a) v = (v.0, v.1, AllSized-AllExact is_ul (i ∷ a) v.2)

pub padding-IsSendable : (is_ul : Bool) → IsSendable is_ul (padding_subh 0)
unfolding set_padding is_sdu sizeof_ce
padding-IsSendable true = record {
  lcid_bits = omega arith;
  sdu_size = λ e. cc;
  element_size = λ e. refl;
  element_room = refl;
}
padding-IsSendable false = record {
  lcid_bits = omega arith;
  sdu_size = λ e. cc;
  element_size = λ e. refl;
  element_room = refl;
}

pub element_items-AllExact :
    (is_ul : Bool) (ss : List SchSubh)
    → AllSendable is_ul ss
    → AllExact is_ul (element_items is_ul (elements ss))
unfolding elements
element_items-AllExact is_ul [] v = tt
element_items-AllExact is_ul (s ∷ ss) v = elim (Bool-cases (is_sdu s)) [
  | inl e ↦ rw e (element_items-AllExact is_ul ss v.1)
  | inr e ↦
      let fits : sizeof_ce s.lcid is_ul ≤ length s.w_payload_ce =
        omega (arith, sizeof_ce-le s.lcid is_ul, v.0.element_room) in
      rw e (
        v.0,
        length-take (sizeof_ce s.lcid is_ul) s.w_payload_ce fits ∙ sym (v.0.element_size e),
        element_items-AllExact is_ul ss v.1,
      )
]

pub sdus-AllSendable :
    (is_ul : Bool) (ss : List SchSubh) → AllSendable is_ul ss → AllSendable is_ul (sdus ss)
unfolding sdus
sdus-AllSendable is_ul [] v = tt
sdus-AllSendable is_ul (s ∷ ss) v = elim (Bool-cases (is_sdu s)) [
  | inl e ↦ rw e (v.0, sdus-AllSendable is_ul ss v.1)
  | inr e ↦ rw e (sdus-AllSendable is_ul ss v.1)
]

pub AllFilled-AllExact :
    (is_ul : Bool) (items : List Item)
    → AllSendable is_ul (subheaders_of items)
    → AllFilled items
    → AllExact is_ul items
AllFilled-AllExact is_ul [] v f = tt
AllFilled-AllExact is_ul ((s, c) ∷ items) v f = (v.0, f.0, AllFilled-AllExact is_ul items v.1 f.1)

pub padding_items-AllExact : (is_ul : Bool) (n : ℕ) → AllExact is_ul (padding_items n)
unfolding set_padding
padding_items-AllExact is_ul zero = tt
padding_items-AllExact is_ul (suc n) =
    (padding-IsSendable is_ul, refl, padding_items-AllExact is_ul n)

pub subheaders_of-padding_items :
    (n : ℕ) → subheaders_of (padding_items n) ≡ replicate n (padding_subh 0)
subheaders_of-padding_items zero = refl
subheaders_of-padding_items (suc n) = ap (◌∷◌ (padding_subh 0)) (subheaders_of-padding_items n)

pub contents_of-padding_items : (n : ℕ) → contents_of (padding_items n) ≡ []
contents_of-padding_items zero = refl
contents_of-padding_items (suc n) = contents_of-padding_items n

pub subheaders_of-element_items :
    (is_ul : Bool) (ss : List SchSubh) → subheaders_of (element_items is_ul ss) ≡ ss
subheaders_of-element_items is_ul [] = refl
subheaders_of-element_items is_ul (s ∷ ss) = ap (◌∷◌ s) (subheaders_of-element_items is_ul ss)

pub contents_of-element_items :
    (is_ul : Bool) (ss : List SchSubh)
    → contents_of (element_items is_ul (elements ss)) ≡ (ce_payloads is_ul ss).1
unfolding elements ce_payloads write_payload
contents_of-element_items is_ul [] = refl
contents_of-element_items is_ul (s ∷ ss) = elim (Bool-cases (is_sdu s)) [
  | inl e ↦ rw e (contents_of-element_items is_ul ss)
  | inr e ↦ rw e (
      ap (◌++◌ (take (sizeof_ce s.lcid is_ul) s.w_payload_ce)) (contents_of-element_items is_ul ss))
]
