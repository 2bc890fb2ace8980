-- ===== src/Upper/Um/Upkeep.antt =====
-- Each call of the receiving entity keeps what holds between two calls.
use srs_ue.Prelude.{
  ℕ, ◌+◌, ◌-◌, ◌*◌, ◌%◌, ◌≤◌, ◌<◌, ◌≡◌, refl, sym, ap, ◌∙◌, inl, inr, Bool, true, false, not, ◌&&◌,
  ◌||◌, List, [], ◌∷◌, some, ltb, leb, ◌==◌, drop, arith, Bool-cases, Option-cases, sub_u32,
}
use srs_ue.Prelude.Bits.{or_field}
use srs_ue.Common.Timers
use srs_ue.Upper.UmHeader.{
  SnSize, sn_5_bits, sn_10_bits, Header, read_fixed, read_li, read_data_pdu_header, packed_length,
}
use srs_ue.Upper.Um.Send.{modulus}
use srs_ue.Upper.Um.Receive.{
  Pdu, Rx, rx_mod_base, inside_reordering_window, is_discarded, store_pdu, update_timers,
  start_reordering,
}
use srs_ue.Upper.Um.InOrder.{IsRing, base_level, base-low}
use srs_ue.Upper.Um.Window.{IsAhead, by_ring, base-edge, edge_low, offset}
use srs_ue.Upper.Um.Loops.{Reassembled}
use srs_ue.Upper.Um.Valid.{IsOrdered, IsMarked, base-offset, farther, Ahead-inner, Ahead-outer}

-- The sequence number that is read fits its field.
read_fixed_fits :
    (size : SnSize) (payload rest : List ℕ) (fi ext sn : ℕ)
    → read_fixed size payload ≡ some (fi, ext, sn, rest)
    → sn < modulus size
read_fixed_fits sn_5_bits [] rest fi ext sn e = absurd (ground arith)
read_fixed_fits sn_5_bits (x ∷ xs) rest fi ext sn e = ground arith
read_fixed_fits sn_10_bits [] rest fi ext sn e = absurd (ground arith)
read_fixed_fits sn_10_bits (x ∷ []) rest fi ext sn e = absurd (ground arith)
read_fixed_fits sn_10_bits (x ∷ y ∷ xs) rest fi ext sn e =
    ground (arith, or_field 8 (x % 4) (x % 4 * 256) (y % 256) refl (omega arith))

pub read_sn_fits :
    (size : SnSize) (payload : List ℕ) (h : Header)
    → read_data_pdu_header size payload ≡ some h
    → h.sn < modulus size
unfolding read_data_pdu_header
read_sn_fits size payload h e = elim (Option-cases (read_fixed size payload)) [
  | inl missing ↦ absurd (ground (arith, missing))
  | inr ((fi, ext, sn, rest), found) ↦
      let fits = read_fixed_fits size payload rest fi ext sn found in
      elim (Option-cases (read_li ext rest)) [
        | inl missing ↦ absurd (ground arith)
        | inr (li, listed) ↦ ground arith
      ]
]

-- A PDU that is not discarded is stored ahead of the next one to take.
abbrev IsStored : Rx → Type 0
IsStored r = (d : ℕ) × IsAhead d r × (0 < d)

-- Where the window's numbers stand after the subtractions of `RX_MOD_BASE`.
pub record Bases (d s : ℕ) (r : Rx) : Type 0 where
  pub lowest : rx_mod_base r (sub_u32 r.vr_uh r.rx_window_size) ≡ 0
  pub highest : rx_mod_base r r.vr_uh ≡ r.rx_window_size
  pub next : rx_mod_base r r.vr_ur ≡ (r.rx_mod + r.rx_window_size - d) % r.rx_mod
  pub that :
      rx_mod_base r s ≡ (offset r.rx_mod r.vr_ur s + r.rx_mod + r.rx_window_size - d) % r.rx_mod

pub IsAhead-Bases :
    (d s : ℕ) (r : Rx) → IsAhead d r → d ≤ r.rx_window_size → s < r.rx_mod → Bases d s r
unfolding rx_mod_base
IsAhead-Bases d s r v b k =
    let h = edge_low r.rx_mod r.rx_window_size r.vr_ur d v.ring in
    record {
      lowest = rw v.edge (base-low r.rx_mod r.rx_window_size ((r.vr_ur + d) % r.rx_mod) v.ring h);
      highest =
          rw v.edge (base_level r.rx_mod r.rx_window_size ((r.vr_ur + d) % r.rx_mod) v.ring h);
      next = rw v.edge (base-edge r.rx_mod r.rx_window_size r.vr_ur d v.ring v.low v.bound);
      that = rw v.edge (base-offset r.rx_mod r.rx_window_size v.ring r.vr_ur d s v.low k b);
    }

offset_low : (m w : ℕ) → IsRing m w → (a k : ℕ) → offset m a k < m
offset_low = by_ring _ (λ a k. omega arith) (λ a k. omega arith)

pub store_pdu-IsStored :
    (h : Header) (payload : List ℕ) (r : Rx)
    → IsOrdered r
    → h.sn < r.rx_mod
    → is_discarded h.sn r ≡ false
    → IsStored (store_pdu h payload r)
unfolding store_pdu is_discarded inside_reordering_window
store_pdu-IsStored h payload r v k e =
    let d = v.depth in
    let o = offset r.rx_mod r.vr_ur h.sn in
    let b = IsAhead-Bases d h.sn r v.ahead v.within k in
    let p : Pdu = record { header = h; payload = drop (packed_length h) payload } in
    let kept : (r.rx_mod + r.rx_window_size - d) % r.rx_mod
        ≤ (o + r.rx_mod + r.rx_window_size - d) % r.rx_mod =
      ground (arith, b.lowest, b.next, b.that) in
    elim (farther r.rx_mod r.rx_window_size v.ahead.ring d o
      (offset_low r.rx_mod r.rx_window_size v.ahead.ring r.vr_ur h.sn) v.within kept) [
        | inl (near, low) ↦
            let i : inside_reordering_window r h.sn ≡ true =
              ground (arith, b.lowest, b.highest, b.that) in
            rw i (
              d,
              Ahead-inner r.rx_mod r.rx_window_size r.vr_ur r.vr_uh d h.sn p r.rx_window v.ahead k
                  near,
              omega arith,
            )
        | inr (far, high) ↦
            let i : inside_reordering_window r h.sn ≡ false = ground (arith, b.highest, b.that) in
            rw i (
              o + 1,
              Ahead-outer r.rx_mod r.rx_window_size r.vr_ur r.vr_uh d h.sn p r.rx_window v.ahead k
                  far,
              omega arith,
            )
      ]

-- A timer that goes on runs for a number that the window still has, and a new one for `vr_uh`.
pub start_reordering-IsMarked :
    (me : ℕ) (r : Rx)
    → rx_mod_base r r.vr_uh ≡ r.rx_window_size
    → Timers.is_running r.timer ≡ false
    → IsMarked (start_reordering me r)
unfolding start_reordering rx_mod_base
start_reordering-IsMarked me r h q =
    elim (Bool-cases (ltb (rx_mod_base r r.vr_ur) (rx_mod_base r r.vr_uh))) [
      | inl e ↦ rw (start_reordering, e) (inr (omega (arith, h)))
      | inr e ↦ rw (start_reordering, e) (inl q)
    ]

pub stop_lem : (t : Timers.Timer) → Timers.is_running (Timers.stop t) ≡ false
unfolding Timers.is_running Timers.stop
stop_lem t = ground arith

-- Has the number passed that the timer waits for?
abbrev is_passed : Rx → Bool
is_passed r =
    leb (rx_mod_base r r.vr_ux) (rx_mod_base r r.vr_ur)
    || (not (inside_reordering_window r r.vr_ux) && not (r.vr_ux == r.vr_uh))

still_waits :
    (r : Rx)
    → rx_mod_base r r.vr_uh ≡ r.rx_window_size
    → is_passed r ≡ false
    → rx_mod_base r r.vr_ux ≤ r.rx_window_size
unfolding inside_reordering_window
still_waits r h e = elim (Bool-cases (r.vr_ux == r.vr_uh)) [
  | inl same ↦
      let at_top : r.vr_ux ≡ r.vr_uh = ground arith in
      omega (arith, h, ap (λ x. rx_mod_base r x) at_top)
  | inr other ↦ ground (arith, h)
]

pub update_timers-IsMarked :
    (me : ℕ) (r : Rx) → rx_mod_base r r.vr_uh ≡ r.rx_window_size → IsMarked (update_timers me r)
unfolding update_timers
update_timers-IsMarked me r h = elim (Bool-cases (Timers.is_running r.timer)) [
  | inr q ↦ rw (update_timers, q, q) (start_reordering-IsMarked me r h q)
  | inl q ↦ elim (Bool-cases (is_passed r)) [
    | inl e ↦
        let s = stop_lem r.timer in
        rw (update_timers, q, e, s)
          (start_reordering-IsMarked me (record r { timer = Timers.stop r.timer }) h s)
    | inr e ↦ rw (update_timers, q, e, q) (inr (still_waits r h e))
  ]
]

-- What is left after `reassemble_rx_sdus`.
pub settled :
    (d : ℕ) (r r' : Rx)
    → r.rx_mod ≡ modulus r.rx_sn_field_length
    → Reassembled d r r'
    → IsOrdered r'
settled d r r' z (d', v, s, le, near, missing) = record {
  sized = s.ring ∙ z ∙ ap modulus (sym s.sn_size);
  depth = d';
  ahead = v;
  within = omega (arith, s.size, near);
  next_missing = missing;
}
