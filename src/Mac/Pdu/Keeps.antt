-- ===== src/Mac/Pdu/Keeps.antt =====
-- A subheader that is added and set keeps what holds of a PDU that is built, and counts its bytes.
use srs_ue.Prelude.{
  ℕ, suc, ◌+◌, ◌-◌, ◌%◌, ◌≤◌, ◌<◌, ◌≡◌, refl, sym, ap, subst, ◌∙◌, Bool, true, false, List, [], ◌∷◌,
  ◌++◌, some, ltb, leb, length, length-append, length-drop, length-set, take, drop, set, get_elem?,
  u32, sub_u32, arith,
}
use srs_ue.Mac.Pdu.Subheader.{SchSubh, is_sdu, sizeof_ce}
use srs_ue.Mac.Pdu.Packet.{SchPdu, next_idx, new_subh, has_space_ce, update_space_ce}
use srs_ue.Mac.Pdu.Elements.{set_element}
use srs_ue.Mac.Pdu.Write.{header_sizes}
use srs_ue.Mac.Pdu.Wire.{sdus, IsSendable, AllSendable, LastSdu}
use srs_ue.Mac.Pdu.Trip.{Item}
use srs_ue.Mac.Pdu.Built.{active, IsBuilt}
use srs_ue.Mac.Pdu.Grow.{
  take-set_next, lt-length, sdus-element, AllSendable-append, LastSdu-element, header_sizes-element,
}

-- There is a place for one more subheader, which is the next one that `new_subh` gives.
pub record HasPlace (p : SchPdu) (s : SchSubh) : Type 0 where
  pub at_end : next_idx p.cur_idx ≡ p.nof_subheaders
  pub below_max : p.nof_subheaders + 1 < p.max_subheaders
  pub max_small : p.max_subheaders < 4294967296
  pub place : get_elem? p.subheaders p.nof_subheaders ≡ some s
  pub element_room : length s.w_payload_ce ≡ 8

pub new_subh_lem :
    (p : SchPdu) (s : SchSubh)
    → HasPlace p s
    → new_subh p
      ≡ (record p { nof_subheaders = p.nof_subheaders + 1; cur_idx = some p.nof_subheaders }, true)
unfolding new_subh
new_subh_lem p s h =
    let room : ltb p.nof_subheaders (sub_u32 p.max_subheaders 1) ≡ true =
      ground (arith, h.below_max, h.max_small) in
    let step : ltb (next_idx p.cur_idx) (p.nof_subheaders + 1) ≡ true = ground (arith, h.at_end) in
    rw (room, step, h.at_end) refl

-- The subheader of an element that is set.
abbrev pub element_subh : ℕ → List ℕ → SchSubh → SchSubh
element_subh lcid bytes s = record s {
  w_payload_ce = bytes ++ drop (length bytes) s.w_payload_ce;
  lcid = lcid;
  nof_bytes = length bytes;
}

abbrev with_element : ℕ → List ℕ → SchSubh → SchPdu → SchPdu
with_element lcid bytes s p = record p {
  nof_subheaders = p.nof_subheaders + 1;
  cur_idx = some p.nof_subheaders;
  rem_len = p.rem_len - (length bytes + 1);
  subheaders = set p.subheaders p.nof_subheaders (element_subh lcid bytes s);
}

set_element_lem :
    (p : SchPdu) (s : SchSubh) (lcid : ℕ) (bytes : List ℕ)
    → HasPlace p s
    → length bytes + 1 ≤ p.rem_len
    → p.rem_len < 2147483648
    → set_element lcid bytes (new_subh p).0 ≡ (with_element lcid bytes s p, true)
unfolding set_element update_space_ce has_space_ce
set_element_lem p s lcid bytes h fits small =
    let room : leb (u32 (length bytes + 1)) p.rem_len ≡ true = ground arith in
    let left : (p.rem_len + 4294967296 - (length bytes + 1)) % 4294967296
        ≡ p.rem_len - (length bytes + 1) =
      omega arith in
    rw (new_subh_lem p s h, room, h.place, left) refl

pub active_next :
    (p q : SchPdu) (s t : SchSubh)
    → HasPlace p s
    → q.nof_subheaders ≡ p.nof_subheaders + 1
    → q.subheaders ≡ set p.subheaders p.nof_subheaders t
    → active q ≡ active p ++ t ∷ []
active_next p q s t h e f =
    let next : q.nof_subheaders ≡ suc p.nof_subheaders = omega arith in
    ap (λ (k : ℕ). take k q.subheaders) next
    ∙ ap (take (suc p.nof_subheaders)) f
    ∙ take-set_next p.nof_subheaders p.subheaders s t h.place

element_subh-IsSendable :
    (is_ul : Bool) (lcid : ℕ) (bytes : List ℕ) (s : SchSubh)
    → 26 ≤ lcid
    → lcid < 32
    → length bytes ≡ sizeof_ce lcid is_ul
    → length bytes ≤ 8
    → length s.w_payload_ce ≡ 8
    → (is_sdu (element_subh lcid bytes s) ≡ false) × IsSendable is_ul (element_subh lcid bytes s)
unfolding is_sdu
element_subh-IsSendable is_ul lcid bytes s is_element small size room e = (
  ground arith,
  record {
    lcid_bits = small;
    sdu_size = λ d. absurd (ground arith);
    element_size = λ d. size;
    element_room = omega (
      arith,
      length-append bytes (drop (length bytes) s.w_payload_ce),
      length-drop (length bytes) s.w_payload_ce,
    );
  },
)

-- Adding a subheader and setting an element in it, with room for both, keeps all that holds of a PDU
-- while it is built, its SDUs and the account of its bytes included.
pub set_element-IsBuilt :
    (items : List Item) (p : SchPdu) (s : SchSubh) (lcid : ℕ) (bytes : List ℕ)
    → IsBuilt items p
    → HasPlace p s
    → length bytes + 1 ≤ p.rem_len
    → 26 ≤ lcid
    → lcid < 32
    → length bytes ≡ sizeof_ce lcid p.pdu_is_ul
    → length bytes ≤ 8
    → IsBuilt items (set_element lcid bytes (new_subh p).0).0
set_element-IsBuilt items p s lcid bytes v h fits is_element small size room =
    let t = element_subh lcid bytes s in
    let q = with_element lcid bytes s p in
    let (not_sdu, sendable) =
      element_subh-IsSendable p.pdu_is_ul lcid bytes s is_element small size room h.element_room in
    let grown : active q ≡ active p ++ t ∷ [] = active_next p q s t h refl refl in
    let sizes = header_sizes-element p.last_sdu_idx 0 (active p) t not_sdu in
    let built : IsBuilt items q = record {
      in_vector = omega (
        arith,
        length-set p.subheaders p.nof_subheaders t,
        lt-length p.nof_subheaders p.subheaders s h.place,
      );
      sendable =
          subst (AllSendable p.pdu_is_ul) (sym grown)
            (AllSendable-append p.pdu_is_ul (active p) t v.sendable sendable);
      last =
          subst (LastSdu 0 p.last_sdu_idx) (sym grown)
            (LastSdu-element p.last_sdu_idx (active p) t v.last not_sdu);
      accounted = omega (
        arith,
        v.accounted,
        sizes.0,
        sizes.1,
        ap (λ (l : List SchSubh). (header_sizes false p.last_sdu_idx 0 l).0) grown,
        ap (λ (l : List SchSubh). (header_sizes false p.last_sdu_idx 0 l).1) grown,
      );
      small = v.small;
      are_sdus = v.are_sdus ∙ sym (ap sdus grown ∙ sdus-element (active p) t not_sdu);
      filled = v.filled;
      front = v.front;
      behind = v.behind;
      buffer = v.buffer;
      offset = v.offset;
      total = v.total;
      room = v.room;
    } in
    subst (IsBuilt items)
      (sym (
        ap (λ (r : SchPdu × Bool). r.0)
          (set_element_lem p s lcid bytes h fits (omega (arith, v.accounted, v.small)))))
      built
