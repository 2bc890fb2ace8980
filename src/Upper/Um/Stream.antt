-- ===== src/Upper/Um/Stream.antt =====
-- From one entity's queue to the other's upper layer, where no PDU is lost.
use srs_ue.Prelude.{
  zero, suc, if◌then◌else◌, ℕ, ◌+◌, ◌%◌, ◌≤◌, ◌≡◌, ◌≢◌, refl, sym, ap, ◌∙◌, true, false, not, ◌||◌,
  List, [], ◌∷◌, ◌++◌, append-nil, append_assoc, Option, none, some, ltb, length, take, drop, arith,
  length-drop,
}
use srs_ue.Upper.UmHeader.{Header, end_aligned}
use srs_ue.Upper.Um.Send.{part_of, is_some}
use srs_ue.Upper.Um.Receive.{Pdu, Rx, erase, is_remainder, take_segments, take_last, take_pdu}
use srs_ue.Upper.Um.Joined.{sum, joined}
use srs_ue.Upper.Um.Fits.{pending, Continues}

-- Nothing is missing before the PDU that is taken next.
abbrev pub IsClean : Rx → Type 0
IsClean r = (r.pdu_lost ≡ false) × (r.vr_ur ≡ (r.vr_ur_in_rx_sdu + 1) % r.rx_mod)

abbrev SegmentsTaken : Rx → List ℕ → List ℕ → List ℕ → Rx × List ℕ × List (List ℕ) → Type 0
SegmentsTaken r li payload rest (r', left, ended) =
    (r' ≡ record r { rx_sdu = r'.rx_sdu })
    × (joined r.rx_sdu li payload rest ≡ ended ++ (r'.rx_sdu ++ (left ++ rest)) ∷ [])

take_segments-joined :
    (h : Header) (li payload rest : List ℕ) (r : Rx)
    → IsClean r
    → sum li ≤ length payload
    → SegmentsTaken r li payload rest (take_segments h li payload r)
unfolding take_segments
take_segments-joined h [] payload rest r c s = (refl, refl)
take_segments-joined h (l ∷ li) payload rest r c s =
    let clean : is_remainder h r ≡ false = ground arith in
    let fits : ltb (length payload) l ≡ false = ground arith in
    let cut : Rx = record r {
      rx_sdu = [];
      pdu_lost = false;
      overran = r.overran || ltb (length payload) l;
    } in
    let within : cut.overran ≡ r.overran = ground arith in
    let out = take_segments h li (drop l payload) cut in
    let (same, ih) =
      take_segments-joined h li (drop l payload) rest cut (refl, c.1)
        (omega (arith, length-drop l payload)) in
    (
      same ∙ λ i. record r { rx_sdu = out.0.rx_sdu; pdu_lost = sym c.0 i; overran = within i },
      rw clean (ap (λ (t : List (List ℕ)). (r.rx_sdu ++ take l payload) ∷ t) ih),
    )

abbrev PduTaken : Rx → Pdu → Option (List ℕ) → List (List ℕ) → Rx × List (List ℕ) → Type 0
PduTaken r p o q (r', sdus) =
    (r' ≡ record r {
      rx_sdu = r'.rx_sdu;
      rx_window = erase r.vr_ur r.rx_window;
      vr_ur_in_rx_sdu = r.vr_ur;
    })
    × Continues o r'.rx_sdu
    × (sdus ++ pending r'.rx_sdu o q ≡ joined r.rx_sdu p.header.li p.payload (part_of o) ++ q)

-- The last segment, when the others left `rx_sdu` and `left`, and `ended`.
take_last-joined :
    (p : Pdu) (o : Option (List ℕ)) (q : List (List ℕ)) (r : Rx) (at left : List ℕ)
    (ended : List (List ℕ))
    → IsClean r
    → end_aligned p.header.fi ≡ not (is_some o)
    → joined r.rx_sdu p.header.li p.payload (part_of o) ≡ ended ++ (at ++ (left ++ part_of o)) ∷ []
    → let out = take_last p.header left (record r { rx_sdu = at }) in
      PduTaken r p o q (record out.0 { rx_window = erase r.vr_ur r.rx_window }, ended ++ out.1)
unfolding take_last
take_last-joined p none q r at left ended c e j =
    rw (e, c.0)
      (
        refl,
        refl,
        rw j (ap (λ (t : List ℕ). (ended ++ (at ++ t) ∷ []) ++ q) (sym (append-nil left))),
      )
take_last-joined p (some x) q r at left ended c e j = rw e (
  refl,
  tt,
  rw (j, append_assoc at left x, append-nil ended)
      (sym (append_assoc ended ((at ++ (left ++ x)) ∷ []) q)),
)

-- A PDU's SDUs; `o` is what is left of the last one.
pub take_pdu-joined :
    (p : Pdu) (o : Option (List ℕ)) (q : List (List ℕ)) (r : Rx)
    → IsClean r
    → sum p.header.li ≤ length p.payload
    → end_aligned p.header.fi ≡ not (is_some o)
    → PduTaken r p o q (take_pdu p r)
unfolding take_pdu
take_pdu-joined p o q r c s e =
    let out = take_segments p.header p.header.li p.payload r in
    let (same, j) = take_segments-joined p.header p.header.li p.payload (part_of o) r c s in
    rw same (take_last-joined p o q r out.0.rx_sdu out.1 out.2 c e j)

drop-nil : (n : ℕ) → drop {A = ℕ} n [] ≡ []
drop-nil zero = refl
drop-nil (suc n) = refl

drop-drop : (m n : ℕ) (xs : List ℕ) → drop n (drop m xs) ≡ drop (m + n) xs
drop-drop zero n xs = ground arith
drop-drop (suc m) n [] = drop-nil n ∙ sym (drop-nil (suc m + n))
drop-drop (suc m) n (x ∷ xs) =
    let next : suc (m + n) ≡ suc m + n = omega arith in
    drop-drop m n xs ∙ ap (λ (k : ℕ). drop k (x ∷ xs)) next

-- Where nothing is held and `vr_ur` does not follow, the loop delivers nothing.
stale_segments :
    (h : Header) (li payload : List ℕ) (r : Rx)
    → r.vr_ur ≢ (r.vr_ur_in_rx_sdu + 1) % r.rx_mod
    → r.rx_sdu ≡ []
    → r.pdu_lost ≡ false
    → let (r', rest, ended) = take_segments h li payload r in
      (r'.rx_sdu ≡ []) × (r'.pdu_lost ≡ false) × (rest ≡ drop (sum li) payload) × (ended ≡ [])
unfolding take_segments
stale_segments h [] payload r s e c = (e, c, refl, refl)
stale_segments h (l ∷ li) payload r s e c =
    let dropped : is_remainder h r ≡ true = ground arith in
    let cut : Rx = record r {
      rx_sdu = [];
      pdu_lost = false;
      overran = r.overran || ltb (length payload) l;
    } in
    rw (dropped, sym (drop-drop l (sum li) payload))
      (stale_segments h li (drop l payload) cut s refl refl)

-- A PDU with length indicators that does not follow the one whose bytes were taken last, by the
-- variable `vr_ur_in_rx_sdu`: no SDU that a length indicator ends is delivered, however many of them
-- are whole. The bytes behind the last length indicator are delivered as an SDU if the PDU is
-- aligned with its end, and otherwise kept for the next PDU.
pub take_pdu-stale :
    (p : Pdu) (r : Rx) (l : ℕ) (li : List ℕ)
    → r.vr_ur ≢ (r.vr_ur_in_rx_sdu + 1) % r.rx_mod
    → p.header.li ≡ l ∷ li
    → let (r', sdus) = take_pdu p r in
      let last = drop (l + sum li) p.payload in
      (sdus ≡ (if end_aligned p.header.fi then last ∷ [] else []))
      × (r'.rx_sdu ≡ (if end_aligned p.header.fi then [] else last))
unfolding take_pdu take_segments take_last
take_pdu-stale p r l li s e =
    let h = p.header in
    let dropped : is_remainder h r ≡ true = ground arith in
    let cut : Rx = record r {
      rx_sdu = [];
      pdu_lost = false;
      overran = r.overran || ltb (length p.payload) l;
    } in
    rw (e, dropped, sym (drop-drop l (sum li) p.payload))
      (ground (arith, stale_segments h li (drop l p.payload) cut s refl refl))
