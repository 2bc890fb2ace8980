-- ===== src/Upper/Um/Drain.antt =====
-- Grants that have room for a byte empty the queue.
use srs_ue.Prelude.{
  ℕ, ◌+◌, ◌≤◌, ◌<◌, ◌≡◌, refl, ap, inl, inr, true, not, ◌&&◌, List, [], ◌∷◌, ◌++◌, Option, none,
  some, ltb, ◌==◌, length, take, drop, arith, length-drop, length-take, length-append,
}
use srs_ue.Upper.UmHeader.{SnSize, fixed_length}
use srs_ue.Upper.Um.Send.{
  Tx, Filling, part_of, is_some, fill, fill_pdu, size_bytes, to_move, move_sdu, head_length,
  with_last, no_filling, start_filling, pull_sdus, build_data_pdu,
}
use srs_ue.Upper.Um.Receive.{Rx, handle_data_pdu}
use srs_ue.Upper.Um.Joined.{sum, joined}
use srs_ue.Upper.Um.Fits.{
  pending, IsPart, AllSdus, Continues, HasData, fill_pdu-Fits, fill_pdu-joined,
}
use srs_ue.Upper.Um.Exchange.{IsSynced, left, build-handle, build_lem}
use srs_ue.Upper.Um.Run.{Event, grant, run, happen_sent, happen_idle, build_nothing, HasData-cases}

size_bytes-append : (p q : List (List ℕ)) → size_bytes (p ++ q) ≡ size_bytes p + size_bytes q
unfolding size_bytes
size_bytes-append [] q = omega arith
size_bytes-append (s ∷ p) q = omega (arith, size_bytes-append p q)

size_bytes-joined :
    (x li bytes rest : List ℕ)
    → sum li ≤ length bytes
    → size_bytes (joined x li bytes rest) ≡ length x + (length bytes + length rest)
unfolding size_bytes
size_bytes-joined x [] bytes rest h =
    omega (arith, length-append x (bytes ++ rest), length-append bytes rest)
size_bytes-joined x (l ∷ li) bytes rest h = omega (
  arith,
  size_bytes-joined [] li (drop l bytes) rest (omega (arith, length-drop l bytes)),
  length-append x (take l bytes),
  length-take l bytes (omega arith),
  length-drop l bytes,
)

pull_sdus_grows :
    (size : SnSize) (head : ℕ) (q : List (List ℕ)) (f : Filling)
    → length f.bytes ≤ length (pull_sdus size head q f).bytes
unfolding pull_sdus move_sdu
pull_sdus_grows size head [] f = omega arith
pull_sdus_grows size head (s ∷ q) f =
    let head' = head_length size (with_last f) in
    let f' = move_sdu head' s (record f { li = with_last f }) in
    let n = to_move f.pdu_space head' (length s) in
    ground (arith, pull_sdus_grows size head' q f', length-append f.bytes (take n s))

-- At least one byte is sent.
fill_pdu_sends :
    (n : ℕ) (size : SnSize) (o : Option (List ℕ)) (q : List (List ℕ))
    → fixed_length size < n
    → IsPart o
    → AllSdus q
    → HasData o q
    → 0 < length (fill_pdu n size o q).bytes
unfolding fill_pdu start_filling move_sdu pull_sdus
fill_pdu_sends n size none [] h v a d = absurd d
fill_pdu_sends n size none (s ∷ q) h v a d =
    let head = head_length size [] in
    let m = to_move n head (length s) in
    let f = move_sdu head s (no_filling n (s ∷ q)) in
    let more : ltb (fixed_length size) n ≡ true = ground arith in
    let within : m ≤ length s = ground arith in
    let moves : 0 < m = ground arith in
    rw more (ground (arith, pull_sdus_grows size head q f, length-take m s within, moves))
fill_pdu_sends n size (some s) q h v a d =
    let head = fixed_length size in
    let m = to_move n head (length s) in
    let f = move_sdu head s (no_filling n q) in
    let within : m ≤ length s = ground arith in
    let moves : 0 < m = ground arith in
    ground (arith, pull_sdus_grows size head q f, length-take m s within, moves)

abbrev remaining : Tx → ℕ
remaining t = size_bytes t.tx_sdu_queue + length (part_of t.tx_sdu)

size_bytes-pending :
    (o : Option (List ℕ)) (q : List (List ℕ))
    → size_bytes (pending [] o q) ≡ size_bytes q + length (part_of o)
unfolding size_bytes
size_bytes-pending none q = omega arith
size_bytes-pending (some s) q = omega arith

nothing_held : (o : Option (List ℕ)) → Continues o []
nothing_held none = refl
nothing_held (some s) = tt

fill_pdu_shrinks :
    (n : ℕ) (size : SnSize) (o : Option (List ℕ)) (q : List (List ℕ))
    → fixed_length size < n
    → IsPart o
    → AllSdus q
    → HasData o q
    → let f = fill_pdu n size o q in
      size_bytes f.queue + length (part_of f.sdu) < size_bytes q + length (part_of o)
fill_pdu_shrinks n size o q h v a d =
    let f = fill_pdu n size o q in
    let c = fill_pdu-Fits n size o q h v a in
    omega (
      arith,
      fill_pdu_sends n size o q h v a d,
      size_bytes-joined [] f.li f.bytes (part_of f.sdu) (omega (arith, c.2)),
      size_bytes-append (joined [] f.li f.bytes (part_of f.sdu)) f.queue,
      size_bytes-pending o q,
      ap size_bytes (fill_pdu-joined n size [] o q h v a d (nothing_held o)),
    )

-- Grants of these sizes.
abbrev pub grants : List ℕ → List Event
grants [] = []
grants (n ∷ ns) = grant n ∷ grants ns

-- Each has room for the fixed header and one byte more.
abbrev pub AllRoomy : SnSize → List ℕ → Type 0
AllRoomy size [] = 0 ≤ 0
AllRoomy size (n ∷ ns) = (fixed_length size < n) × AllRoomy size ns

abbrev pub Drained : Tx → Rx → Tx × Rx × List (List ℕ) × List (List ℕ) → Type 0
Drained t r (t', r', taken, out) = (t'.tx_sdu ≡ none) × (t'.tx_sdu_queue ≡ []) × (out ≡ left t r)

-- With nothing left, nothing is sent.
nothing_left :
    (o : Option (List ℕ)) (q : List (List ℕ))
    → (not (is_some o) && (length q == 0)) ≡ true
    → (o ≡ none) × (q ≡ [])
nothing_left none [] e = (refl, refl)
nothing_left none (s ∷ q) e = absurd (ground arith)
nothing_left (some s) q e = absurd (ground arith)

still_left :
    (o : Option (List ℕ)) (q : List (List ℕ))
    → HasData o q
    → IsPart o
    → AllSdus q
    → 0 < size_bytes q + length (part_of o)
unfolding size_bytes
still_left none [] d v a = absurd d
still_left none (s ∷ q) d v a = omega arith
still_left (some s) q d v a = omega arith

run-idle :
    (me : ℕ) (ns : List ℕ) (t : Tx) (r : Rx)
    → (not (is_some t.tx_sdu) && (length t.tx_sdu_queue == 0)) ≡ true
    → run me (grants ns) t r ≡ (t, r, [], [])
run-idle me [] t r e = refl
run-idle me (n ∷ ns) t r e =
    rw (happen_idle me n t r (build_nothing n t (inl e)), run-idle me ns t r e) refl

idle-Drained :
    (me : ℕ) (ns : List ℕ) (t : Tx) (r : Rx)
    → (not (is_some t.tx_sdu) && (length t.tx_sdu_queue == 0)) ≡ true
    → Drained t r (run me (grants ns) t r)
idle-Drained me ns t r e =
    let (no_part, no_queue) = nothing_left t.tx_sdu t.tx_sdu_queue e in
    rw (run-idle me ns t r e, no_part, no_queue) (refl, refl, refl)

build-shrinks :
    (n : ℕ) (t : Tx) (r : Rx)
    → IsSynced t r
    → fixed_length t.tx_sn_field_length < n
    → HasData t.tx_sdu t.tx_sdu_queue
    → remaining (build_data_pdu true n t).0 < remaining t
unfolding fill
build-shrinks n t r v h d =
    rw (build_lem n t h d)
      (fill_pdu_shrinks n t.tx_sn_field_length t.tx_sdu t.tx_sdu_queue h v.part v.queued d)

build-same_size :
    (n : ℕ) (t : Tx) → (build_data_pdu true n t).0.tx_sn_field_length ≡ t.tx_sn_field_length
unfolding build_data_pdu
build-same_size n t = ground arith

AllRoomy-same :
    (size : SnSize) (ns : List ℕ) (t : Tx)
    → t.tx_sn_field_length ≡ size
    → AllRoomy size ns
    → AllRoomy t.tx_sn_field_length ns
AllRoomy-same size ns t e h = rw e h

-- A sender and a receiver in step (the same sequence numbers, no PDU waiting or lost, vr_ur one above
-- vr_ur_in_rx_sdu), with SDUs of 1 to 2047 bytes: as many grants as there are bytes to send, or more,
-- of whatever sizes, each with room for the fixed header and one byte more, leave nothing at the
-- sender, and what came out is what was still to come.
pub run-drains :
    (me : ℕ) (ns : List ℕ) (t : Tx) (r : Rx)
    → IsSynced t r
    → AllRoomy t.tx_sn_field_length ns
    → remaining t ≤ length ns
    → Drained t r (run me (grants ns) t r)
run-drains me [] t r v h b = elim (HasData-cases t.tx_sdu t.tx_sdu_queue) [
  | inl d ↦ absurd (omega (arith, still_left t.tx_sdu t.tx_sdu_queue d v.part v.queued))
  | inr e ↦ idle-Drained me [] t r e
]
run-drains me (n ∷ ns) t r v h b = elim (HasData-cases t.tx_sdu t.tx_sdu_queue) [
  | inr e ↦ idle-Drained me (n ∷ ns) t r e
  | inl d ↦
      let (t', pdu) = build_data_pdu true n t in
      let (r', sdus) = handle_data_pdu me true pdu r in
      let (v', same) = build-handle me n t r v h.0 d in
      let roomy =
        AllRoomy-same t.tx_sn_field_length ns (build_data_pdu true n t).0 (build-same_size n t)
          h.1 in
      let ih = run-drains me ns t' r' v' roomy (omega (arith, b, build-shrinks n t r v h.0 d)) in
      rw (run, happen_sent me n t r h.0 d) (ih.0, ih.1, rw ih.2 same)
]
