-- ===== src/Upper/Um/Calls.antt =====
-- The two calls that change the receiving entity.
use srs_ue.Prelude.{
  ℕ, zero, suc, ◌+◌, ◌-◌, ◌%◌, ◌≤◌, ◌<◌, ◌≡◌, refl, sym, ap, ◌∙◌, ◌⊎◌, inl, inr, Bool, true, false,
  not, ◌||◌, List, [], none, ltb, arith, Bool-cases, Option-cases,
}
use srs_ue.Common.Timers
use srs_ue.Upper.UmHeader.{Header, read_data_pdu_header}
use srs_ue.Upper.Um.Send.{modulus}
use srs_ue.Upper.Um.Receive.{
  Pdu, Rx, rx_mod_base, find, advance, reassemble_rx_sdus, is_discarded, store_pdu, update_timers,
  start_reordering, handle_data_pdu, skip_lost, timer_expired,
}
use srs_ue.Upper.Um.InOrder.{IsRing, update_timers_lem}
use srs_ue.Upper.Um.Window.{IsAhead, contains, by_ring}
use srs_ue.Upper.Um.Taken.{Same, Same-trans, Same-refl, advance-IsAhead, erase_missing}
use srs_ue.Upper.Um.Loops.{reassemble_rx_sdus_lem}
use srs_ue.Upper.Um.Valid.{IsValid, IsOrdered}
use srs_ue.Upper.Um.Upkeep.{
  read_sn_fits, store_pdu-IsStored, start_reordering-IsMarked, update_timers-IsMarked, stop_lem,
  settled, IsAhead-Bases,
}

highest_base : (r : Rx) → IsOrdered r → rx_mod_base r r.vr_uh ≡ r.rx_window_size
highest_base r v = (IsAhead-Bases v.depth r.vr_ur r v.ahead v.within v.ahead.low).highest

-- The changes that do not touch the window.
pub IsOrdered-keep :
    (r : Rx) (t : Timers.Timer) (ux : ℕ) (lost beyond : Bool) (sdu : List ℕ)
    → IsOrdered r
    → IsOrdered
        (record r { timer = t; vr_ux = ux; pdu_lost = lost; rx_sdu = sdu; overran = beyond })
IsOrdered-keep r t ux lost beyond sdu v = record {
  sized = v.sized;
  depth = v.depth;
  ahead = v.ahead;
  within = v.within;
  next_missing = v.next_missing;
}

update_timers-IsOrdered : (me : ℕ) (r : Rx) → IsOrdered r → IsOrdered (update_timers me r)
update_timers-IsOrdered me r v =
    let r' = update_timers me r in
    rw (update_timers_lem me r) (IsOrdered-keep r r'.timer r'.vr_ux r.pdu_lost r.overran r.rx_sdu v)

start_reordering-IsOrdered : (me : ℕ) (r : Rx) → IsOrdered r → IsOrdered (start_reordering me r)
unfolding start_reordering
start_reordering-IsOrdered me r v =
    elim (Bool-cases (ltb (rx_mod_base r r.vr_ur) (rx_mod_base r r.vr_uh))) [
      | inl e ↦
          rw (start_reordering, e)
            (IsOrdered-keep r (Timers.run (Timers.configure me r.t_reordering r.timer)) r.vr_uh
              r.pdu_lost r.overran r.rx_sdu v)
      | inr e ↦ rw (start_reordering, e) v
    ]

store_pdu-sized :
    (h : Header) (payload : List ℕ) (r : Rx)
    → IsOrdered r
    → (store_pdu h payload r).rx_mod ≡ modulus (store_pdu h payload r).rx_sn_field_length
unfolding store_pdu
store_pdu-sized h payload r v = v.sized

received :
    (me : ℕ) (payload : List ℕ) (h : Header) (r : Rx)
    → IsOrdered r
    → h.sn < r.rx_mod
    → is_discarded h.sn r ≡ false
    → IsValid (update_timers me (reassemble_rx_sdus (store_pdu h payload r)).0)
received me payload h r v k e =
    let st = store_pdu h payload r in
    let r' = (reassemble_rx_sdus st).0 in
    let (d, a, p) = store_pdu-IsStored h payload r v k e in
    let o = settled d st r' (store_pdu-sized h payload r v) (reassemble_rx_sdus_lem d st a p) in
    (update_timers-IsOrdered me r' o, update_timers-IsMarked me r' (highest_base r' o))

-- Whatever bytes arrive and whether the pool has a buffer: after handle_data_pdu the next PDU to take is
-- missing again, vr_uh is at most the window's size ahead of it, every PDU that is kept lies between
-- the two, and a running reordering timer waits for a number not beyond vr_uh.
pub handle_data_pdu-IsValid :
    (me : ℕ) (allocated : Bool) (payload : List ℕ) (r : Rx)
    → IsValid r
    → IsValid (handle_data_pdu me allocated payload r).0
unfolding handle_data_pdu rx_mod_base
handle_data_pdu-IsValid me allocated payload r v =
    elim (Option-cases (read_data_pdu_header r.rx_sn_field_length payload)) [
      | inl e ↦
          rw (handle_data_pdu, e)
            (IsOrdered-keep r r.timer r.vr_ux r.pdu_lost true r.rx_sdu v.0, v.1)
      | inr (h, e) ↦ elim (Bool-cases (is_discarded h.sn r || not allocated)) [
        | inl d ↦ rw (handle_data_pdu, e, d) v
        | inr d ↦
            rw (handle_data_pdu, e, d)
              (received me payload h r v.0
                (omega (arith, v.0.sized, read_sn_fits r.rx_sn_field_length payload h e))
                (ground arith))
      ]
    ]

-- What holds of a round of the loop: the number of those ahead, with the last of them present.
abbrev IsWaiting : ℕ → Rx → Type 0
IsWaiting d r = IsAhead d r × (d ≤ r.rx_window_size) × (find r.vr_ur r.rx_window ≡ none)

top_base : (m w : ℕ) → IsRing m w → (m + w - 0) % m ≡ w
top_base = by_ring _ (omega arith) (omega arith)

here_index : (m w : ℕ) → IsRing m w → (a : ℕ) → a < m → (a + (suc zero - 1)) % m ≡ a
here_index = by_ring _ (λ a l. omega arith) (λ a l. omega arith)

contains_missing :
    (k : ℕ) (window : List (ℕ × Pdu)) → find k window ≡ none → contains k window ≡ false
contains_missing k window e = rw (contains, e) refl

-- The next number is lost, and another one waits behind it.
skip_round :
    (d : ℕ) (r : Rx)
    → IsWaiting d r
    → rx_mod_base r r.vr_ur < rx_mod_base r r.vr_ux
    → rx_mod_base r r.vr_ux ≤ r.rx_window_size
    → (e : ℕ) × (d ≡ suc e) × IsAhead e (advance r) × Same r (advance r) × (0 < e)
skip_round zero r (v, near, missing) c b =
    let at = (IsAhead-Bases zero r.vr_ur r v near v.low).next in
    absurd (omega (arith, at, top_base r.rx_mod r.rx_window_size v.ring))
skip_round (suc zero) r (v, near, missing) c b = absurd (alone v.top)
  where
    alone :
        (suc zero ≡ 0) ⊎ (contains ((r.vr_ur + (suc zero - 1)) % r.rx_mod) r.rx_window ≡ true) → ⊥
    alone (inl e) = omega arith
    alone (inr e) =
        let index = here_index r.rx_mod r.rx_window_size v.ring r.vr_ur v.low in
        let none_here = contains_missing r.vr_ur r.rx_window missing in
        let here : contains r.vr_ur r.rx_window ≡ true =
          ap (λ k. contains k r.rx_window) (sym index) ∙ e in
        ground (arith, none_here, here)
skip_round (suc (suc e)) r (v, near, missing) c b =
    let (v', s) =
      advance-IsAhead (suc e) r r v
        (Same-refl r, refl, sym (erase_missing r.vr_ur r.rx_window missing)) in
    (suc e, refl, v', s, omega arith)

abbrev Skipped : Rx → Rx → Type 0
Skipped r r' =
    (d : ℕ) × IsWaiting d r' × Same r r' × (rx_mod_base r' r'.vr_ux ≤ rx_mod_base r' r'.vr_ur)

rx_mod_base-Same : (r r' : Rx) → Same r r' → rx_mod_base r' r'.vr_ux ≡ rx_mod_base r r.vr_ux
unfolding rx_mod_base
rx_mod_base-Same r r' s = rw (s.ring, s.size, s.high, s.mark) refl

-- Enough fuel is the number of those ahead.
skip_lost-ends :
    (n d : ℕ) (r : Rx)
    → IsWaiting d r
    → d ≤ n
    → rx_mod_base r r.vr_ux ≤ r.rx_window_size
    → Skipped r (skip_lost n r).0
unfolding skip_lost
skip_lost-ends zero zero r v f b =
    let at = (IsAhead-Bases zero r.vr_ur r v.0 v.1 v.0.low).next in
    (zero, v, Same-refl r, omega (arith, at, top_base r.rx_mod r.rx_window_size v.0.ring))
skip_lost-ends zero (suc d) r v f b = absurd (omega arith)
skip_lost-ends (suc n) d r v f b =
    elim (Bool-cases (ltb (rx_mod_base r r.vr_ur) (rx_mod_base r r.vr_ux))) [
      | inr e ↦ rw (skip_lost, e) (d, v, Same-refl r, ground arith)
      | inl e ↦
          let next = advance r in
          let (d', same, v', s, p) = skip_round d r v (ground arith) b in
          let r' = (reassemble_rx_sdus next).0 in
          let (d'', w, s', le, near, missing) = reassemble_rx_sdus_lem d' next v' p in
          let kept = Same-trans r next r' s s' in
          let (last, waiting, s'', ended) =
            skip_lost-ends n d'' r' (w, omega (arith, s'.size, near), missing) (omega arith)
              (omega (arith, rx_mod_base-Same r r' kept, kept.size)) in
          rw (skip_lost, e) (last, waiting, Same-trans r r' (skip_lost n r').0 kept s'', ended)
    ]

-- The state in which the loop of `timer_expired` starts.
abbrev pub gives_up : Rx → Rx
gives_up r = record r { pdu_lost = true; rx_sdu = [] }

-- When the next PDU is missing, vr_uh is at most the window's size ahead of it, the PDUs that are kept
-- lie between the two and vr_ux is not beyond vr_uh: the loop of timer_expired ends by its own
-- condition within as many rounds as there are sequence numbers, and after the call the same holds of
-- the window, and a running timer waits for a number not beyond vr_uh.
pub timer_expired-IsValid :
    (me : ℕ) (r : Rx)
    → IsOrdered r
    → rx_mod_base r r.vr_ux ≤ r.rx_window_size
    → let r' = (skip_lost r.rx_mod (gives_up r)).0 in
      IsValid (timer_expired me r).0 × (rx_mod_base r' r'.vr_ux ≤ rx_mod_base r' r'.vr_ur)
unfolding timer_expired rx_mod_base
timer_expired-IsValid me r v b =
    let cut = gives_up r in
    let r' = (skip_lost r.rx_mod cut).0 in
    let o = IsOrdered-keep r r.timer r.vr_ux true r.overran [] v in
    let (d, (w, near, missing), s, ended) =
      skip_lost-ends r.rx_mod o.depth cut (o.ahead, o.within, o.next_missing) o.ahead.bound b in
    let done : IsOrdered r' = record {
      sized = s.ring ∙ v.sized ∙ ap modulus (sym s.sn_size);
      depth = d;
      ahead = w;
      within = near;
      next_missing = missing;
    } in
    let stopped =
      IsOrdered-keep r' (Timers.stop r'.timer) r'.vr_ux r'.pdu_lost r'.overran r'.rx_sdu done in
    (
      (
        start_reordering-IsOrdered me (record r' { timer = Timers.stop r'.timer }) stopped,
        start_reordering-IsMarked me (record r' { timer = Timers.stop r'.timer })
            (highest_base r' done) (stop_lem r'.timer),
      ),
      ended,
    )
