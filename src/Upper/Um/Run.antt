-- ===== src/Upper/Um/Run.antt =====
-- A sender and a receiver with no loss between them: what is written comes out, in order.
use srs_ue.Prelude.{
  ℕ, ◌≤◌, ◌<◌, ◌≡◌, refl, sym, ap, ◌∙◌, ◌⊎◌, inl, inr, true, false, not, ◌&&◌, List, [], ◌∷◌, ◌++◌,
  append-nil, append_assoc, Option, none, some, ltb, ◌==◌, if◌then◌else◌, length, arith, Bool-cases,
  length-append,
}
use srs_ue.Upper.UmHeader.{Header, packed_length, fixed_length, write_data_pdu_header}
use srs_ue.Upper.UmHeader.Trip.{length-write_data_pdu_header}
use srs_ue.Upper.Um.Send.{Tx, is_some, fill, header_of, build_data_pdu, write_sdu}
use srs_ue.Upper.Um.Receive.{Rx, handle_data_pdu}
use srs_ue.Upper.Um.Fits.{pending, IsSdu, AllSdus, HasData}
use srs_ue.Upper.Um.Exchange.{IsSynced, left, build_lem, build-handle}

-- What the upper layer and the MAC do: an SDU to send, or a grant. A PDU that was built is received.
pub data Event : Type 0 where
  write : List ℕ → Event
  grant : ℕ → Event

abbrev IsEvent : Event → Type 0
IsEvent (write s) = IsSdu s
IsEvent (grant n) = Unit

abbrev AllEvents : List Event → Type 0
AllEvents [] = Unit
AllEvents (e ∷ es) = IsEvent e × AllEvents es

-- The states, the SDUs that the queue had room for and those that came out.
abbrev happen : ℕ → Event → Tx → Rx → Tx × Rx × List (List ℕ) × List (List ℕ)
happen me (write s) t r = elim (write_sdu s t) [
  | none ↦ (t, r, [], [])
  | some t' ↦ (t', r, s ∷ [], [])
]
happen me (grant n) t r =
    let (t', pdu) = build_data_pdu true n t in
    let (r', sdus) = handle_data_pdu me true pdu r in
    if length pdu == 0 then (t', r, [], []) else (t', r', [], sdus)

abbrev pub run : ℕ → List Event → Tx → Rx → Tx × Rx × List (List ℕ) × List (List ℕ)
run me [] t r = (t, r, [], [])
run me (e ∷ es) t r =
    let (t', r', taken, out) = happen me e t r in
    let (t'', r'', taken', out') = run me es t' r' in (t'', r'', taken ++ taken', out ++ out')

abbrev pub Kept : Tx → Rx → Tx × Rx × List (List ℕ) × List (List ℕ) → Type 0
Kept t r (t', r', taken, out) = IsSynced t' r' × (out ++ left t' r' ≡ left t r ++ taken)

pending-append :
    (x s : List ℕ) (o : Option (List ℕ)) (q : List (List ℕ))
    → pending x o (q ++ s ∷ []) ≡ pending x o q ++ s ∷ []
pending-append x s none q = refl
pending-append x s (some y) q = refl

AllSdus-append : (q : List (List ℕ)) (s : List ℕ) → AllSdus q → IsSdu s → AllSdus (q ++ s ∷ [])
AllSdus-append [] s a h = (h, tt)
AllSdus-append (y ∷ q) s a h = (a.0, AllSdus-append q s a.1 h)

write-Kept :
    (me : ℕ) (s : List ℕ) (t : Tx) (r : Rx)
    → IsSynced t r
    → IsSdu s
    → Kept t r (happen me (write s) t r)
unfolding write_sdu
write-Kept me s t r v h = elim (Bool-cases (length t.tx_sdu_queue == 16)) [
  | inl full ↦ rw (happen, write_sdu, full) (v, sym (append-nil (left t r)))
  | inr room ↦
      rw (happen, write_sdu, room)
        (
          record {
            idle = v.idle;
            same_size = v.same_size;
            tx_ring = v.tx_ring;
            same_ring = v.same_ring;
            level = v.level;
            part = v.part;
            queued = AllSdus-append t.tx_sdu_queue s v.queued h;
            held = v.held;
            defined = v.defined;
          },
          pending-append r.rx_sdu s t.tx_sdu t.tx_sdu_queue,
        )
]

pub HasData-cases :
    (o : Option (List ℕ)) (q : List (List ℕ))
    → HasData o q ⊎ (not (is_some o) && (length q == 0)) ≡ true
HasData-cases none [] = inr refl
HasData-cases none (s ∷ q) = inl tt
HasData-cases (some s) q = inl tt

-- A grant that is too small, or finds nothing to send, changes nothing.
pub build_nothing :
    (n : ℕ) (t : Tx)
    → ((not (is_some t.tx_sdu) && (length t.tx_sdu_queue == 0)) ≡ true)
      ⊎ (n ≤ fixed_length t.tx_sn_field_length)
    → build_data_pdu true n t ≡ (t, [])
unfolding build_data_pdu
build_nothing n t (inl e) = rw e refl
build_nothing n t (inr e) = ground arith

pub happen_idle :
    (me n : ℕ) (t : Tx) (r : Rx)
    → build_data_pdu true n t ≡ (t, [])
    → happen me (grant n) t r ≡ (t, r, [], [])
happen_idle me n t r e = rw (happen, e) refl

idle-Kept :
    (me n : ℕ) (t : Tx) (r : Rx)
    → IsSynced t r
    → build_data_pdu true n t ≡ (t, [])
    → Kept t r (happen me (grant n) t r)
idle-Kept me n t r v e = rw (happen_idle me n t r e) (v, sym (append-nil (left t r)))

header_bytes :
    (h : Header) (bytes : List ℕ) → (length (write_data_pdu_header h ++ bytes) == 0) ≡ false
unfolding packed_length
header_bytes h bytes = ground (
  arith,
  length-append (write_data_pdu_header h) bytes,
  length-write_data_pdu_header h,
  fixed_length,
)

-- A grant that has room for a byte, when there is one.
pub happen_sent :
    (me n : ℕ) (t : Tx) (r : Rx)
    → fixed_length t.tx_sn_field_length < n
    → HasData t.tx_sdu t.tx_sdu_queue
    → let (t', pdu) = build_data_pdu true n t in
      let (r', sdus) = handle_data_pdu me true pdu r in happen me (grant n) t r ≡ (t', r', [], sdus)
happen_sent me n t r h d =
    let sent : (length (build_data_pdu true n t).1 == 0) ≡ false =
      rw (build_lem n t h d) (header_bytes (header_of t (fill n t)) (fill n t).bytes) in
    rw sent refl

grant-Kept : (me n : ℕ) (t : Tx) (r : Rx) → IsSynced t r → Kept t r (happen me (grant n) t r)
grant-Kept me n t r v = elim (HasData-cases t.tx_sdu t.tx_sdu_queue) [
  | inr nothing ↦ idle-Kept me n t r v (build_nothing n t (inl nothing))
  | inl d ↦ elim (Bool-cases (ltb (fixed_length t.tx_sn_field_length) n)) [
    | inr small ↦ idle-Kept me n t r v (build_nothing n t (inr (ground arith)))
    | inl room ↦
        let k = build-handle me n t r v (ground arith) d in
        rw (happen_sent me n t r (ground arith) d) (k.0, k.1 ∙ sym (append-nil (left t r)))
  ]
]

happen-Kept :
    (me : ℕ) (e : Event) (t : Tx) (r : Rx) → IsSynced t r → IsEvent e → Kept t r (happen me e t r)
happen-Kept me (write s) t r v h = write-Kept me s t r v h
happen-Kept me (grant n) t r v h = grant-Kept me n t r v

chain {ℓ} :
    {A : Type ℓ} (a b m e l x y : List A)
    → a ++ m ≡ l ++ x
    → b ++ e ≡ m ++ y
    → (a ++ b) ++ e ≡ l ++ (x ++ y)
chain a b m e l x y h h' =
    append_assoc a b e
    ∙ ap (λ s. a ++ s) h'
    ∙ sym (append_assoc a m y)
    ∙ ap (λ s. s ++ y) h
    ∙ append_assoc l x y

-- A sender and a receiver in step (the same sequence numbers, no PDU waiting or lost, vr_ur one above
-- vr_ur_in_rx_sdu), with SDUs of 1 to 2047 bytes: after any writes and grants, where each PDU is
-- received, what came out and what is still to come is what was still to come and what the queue
-- took, in order and byte by byte, and the two are in step.
pub run-Kept :
    (me : ℕ) (es : List Event) (t : Tx) (r : Rx)
    → IsSynced t r
    → AllEvents es
    → Kept t r (run me es t r)
run-Kept me [] t r v h = (v, sym (append-nil (left t r)))
run-Kept me (e ∷ es) t r v h =
    let (t', r', taken, out) = happen me e t r in
    let (v', k) = happen-Kept me e t r v h.0 in
    let (v'', k') = run-Kept me es t' r' v' h.1 in
    (
      v'',
      chain out (run me es t' r').3 (left t' r') (left (run me es t' r').0 (run me es t' r').1)
          (left t r) taken (run me es t' r').2 k k',
    )
