-- ===== src/Upper/Um/Loops.antt =====
-- The two loops of `reassemble_rx_sdus` end, by their own conditions.
use srs_ue.Prelude.{
  ℕ, zero, suc, ◌+◌, ◌≤◌, ◌<◌, ◌≡◌, refl, sym, ap, ◌∙◌, inl, inr, true, false, ◌&&◌, List, [], ◌∷◌,
  none, some, ltb, leb, length, arith, Bool-cases, Option-cases,
}
use srs_ue.Upper.Um.Receive.{
  Pdu, Rx, inside_reordering_window, find, erase, take_pdu, take_edge, advance, catch_up,
  take_ready, reassemble_rx_sdus,
}
use srs_ue.Upper.Um.InOrder.{IsRing, take_ready-found, take_ready-missing, catch_up-inside}
use srs_ue.Upper.Um.Window.{IsAhead, inside-IsAhead, AllWithin}
use srs_ue.Upper.Um.Taken.{
  Same, Same-refl, Same-trans, take_pdu-Round, take_edge-Round, advance-IsAhead,
}

catch_up_round :
    (n : ℕ) (r : Rx)
    → inside_reordering_window r r.vr_ur ≡ false
    → (catch_up (suc n) r).0 ≡ (catch_up n (advance (take_edge r).0)).0
unfolding catch_up
catch_up_round n r e = rw (catch_up, e) refl

-- Where the first loop is left: `vr_ur` is inside the window.
abbrev CaughtUp : ℕ → Rx → Rx → Type 0
CaughtUp d r r' =
    (d' : ℕ) × IsAhead d' r'
    × Same r r'
    × (0 < d')
    × (d' ≤ d)
    × (inside_reordering_window r' r'.vr_ur ≡ true)

outside_window :
    (d : ℕ) (r : Rx)
    → IsAhead d r
    → 0 < d
    → inside_reordering_window r r.vr_ur ≡ false
    → (r.rx_window_size < d) × (0 < r.rx_window_size)
outside_window d r v p e =
    let far : (ltb 0 d && leb d r.rx_window_size) ≡ false = sym (inside-IsAhead d r v) ∙ e in
    (ground arith, sized r.rx_mod r.rx_window_size v.ring)
  where
    sized : (m w : ℕ) → IsRing m w → 0 < w
    sized m w k = ground arith

caught :
    (n d : ℕ) (r : Rx)
    → IsAhead d r
    → 0 < d
    → inside_reordering_window r r.vr_ur ≡ true
    → CaughtUp d r (catch_up n r).0
caught n d r v p e = rw (catch_up-inside n r e) (d, v, Same-refl r, p, omega arith, e)

-- Enough fuel is what `vr_ur` is behind the window.
catch_up-ends :
    (n d : ℕ) (r : Rx)
    → IsAhead d r
    → 0 < d
    → d ≤ n + r.rx_window_size
    → CaughtUp d r (catch_up n r).0
catch_up-ends zero d r v p b = elim (Bool-cases (inside_reordering_window r r.vr_ur)) [
  | inl e ↦ caught zero d r v p e
  | inr e ↦ let o = outside_window d r v p e in absurd (omega arith)
]
catch_up-ends (suc n) zero r v p b = absurd (omega arith)
catch_up-ends (suc n) (suc d) r v p b = elim (Bool-cases (inside_reordering_window r r.vr_ur)) [
  | inl e ↦ caught (suc n) (suc d) r v p e
  | inr e ↦
      let next = advance (take_edge r).0 in
      let o = outside_window (suc d) r v p e in
      let (v', s) = advance-IsAhead d r (take_edge r).0 v (take_edge-Round r) in
      let (d', w, s', p', le, i) =
        catch_up-ends n d next v' (omega arith) (omega (arith, s.size)) in
      rw (catch_up_round n r e)
        (d', w, Same-trans r next (catch_up n next).0 s s', p', omega arith, i)
]

find-within : (m a k : ℕ) (window : List (ℕ × Pdu)) → AllWithin m a 0 window → find k window ≡ none
unfolding find
find-within m a k [] v = refl
find-within m a k ((x, p) ∷ window) v = absurd (omega (arith, v.1))

erase_shorter_or_same : (k : ℕ) (window : List (ℕ × Pdu)) → length (erase k window) ≤ length window
unfolding erase
erase_shorter_or_same k [] = omega arith
erase_shorter_or_same k ((x, p) ∷ window) = ground (arith, erase_shorter_or_same k window)

erase_shorter :
    (k : ℕ) (p : Pdu) (window : List (ℕ × Pdu))
    → find k window ≡ some p
    → length (erase k window) < length window
unfolding find erase
erase_shorter k p [] e = absurd (ground arith)
erase_shorter k p ((x, y) ∷ window) e =
    ground (arith, erase_shorter k p window, erase_shorter_or_same k window)

-- Where the second loop is left: the next PDU is missing.
abbrev Ended : ℕ → Rx → Rx → Type 0
Ended d r r' = (d' : ℕ) × IsAhead d' r' × Same r r' × (d' ≤ d) × (find r'.vr_ur r'.rx_window ≡ none)

take_ready_stops :
    (n d : ℕ) (r : Rx)
    → IsAhead d r
    → find r.vr_ur r.rx_window ≡ none
    → Ended d r (take_ready n r).0
take_ready_stops n d r v e = rw (take_ready-missing n r e) (d, v, Same-refl r, omega arith, e)

-- Enough fuel is one more than there are PDUs.
take_ready-ends :
    (n d : ℕ) (r : Rx) → IsAhead d r → length r.rx_window < n → Ended d r (take_ready n r).0
unfolding advance
take_ready-ends zero d r v b = absurd (omega arith)
take_ready-ends (suc n) zero r v b =
    take_ready_stops (suc n) zero r v (find-within r.rx_mod r.vr_ur r.vr_ur r.rx_window v.keys)
take_ready-ends (suc n) (suc d) r v b = elim (Option-cases (find r.vr_ur r.rx_window)) [
  | inl e ↦ take_ready_stops (suc n) (suc d) r v e
  | inr (p, e) ↦
      let next = advance (take_pdu p r).0 in
      let round = take_pdu-Round p r in
      let (v', s) = advance-IsAhead d r (take_pdu p r).0 v round in
      let shorter : length (take_pdu p r).0.rx_window < n =
        omega (arith, erase_shorter r.vr_ur p r.rx_window e, ap length round.2) in
      let (d', w, s', le, missing) = take_ready-ends n d next v' shorter in
      rw (take_ready-found n p r e)
        (d', w, Same-trans r next (take_ready n next).0 s s', omega arith, missing)
]

inside_within :
    (d : ℕ) (r : Rx)
    → IsAhead d r
    → inside_reordering_window r r.vr_ur ≡ true
    → d ≤ r.rx_window_size
inside_within d r v e =
    let near : (ltb 0 d && leb d r.rx_window_size) ≡ true = sym (inside-IsAhead d r v) ∙ e in
    ground arith

-- What both loops leave.
abbrev pub Reassembled : ℕ → Rx → Rx → Type 0
Reassembled d r r' =
    (d' : ℕ) × IsAhead d' r'
    × Same r r'
    × (d' ≤ d)
    × (d' ≤ r.rx_window_size)
    × (find r'.vr_ur r'.rx_window ≡ none)

-- With vr_uh ahead of vr_ur and the PDUs that are kept between the two, both loops of reassemble_rx_sdus
-- end by their own conditions, the first within as many rounds as there are sequence numbers, the
-- second within one more than there are PDUs: the next PDU is missing, and vr_uh is at most the
-- window's size ahead of it.
pub reassemble_rx_sdus_lem :
    (d : ℕ) (r : Rx) → IsAhead d r → 0 < d → Reassembled d r (reassemble_rx_sdus r).0
unfolding reassemble_rx_sdus
reassemble_rx_sdus_lem d r v p =
    let mid = (catch_up r.rx_mod r).0 in
    let n = suc (length mid.rx_window) in
    let (d', w, s, p', le, i) = catch_up-ends r.rx_mod d r v p (omega (arith, v.bound)) in
    let (d'', w', s', le', missing) = take_ready-ends n d' mid w (omega arith) in
    let near = inside_within d' mid w i in
    (
      d'',
      w',
      Same-trans r mid (take_ready n mid).0 s s',
      omega arith,
      omega (arith, s.size, near),
      missing,
    )
