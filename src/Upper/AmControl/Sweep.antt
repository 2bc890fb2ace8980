-- ===== src/Upper/AmControl/Sweep.antt =====
-- A STATUS PDU as a whole.
use srs_ue.Prelude.{
  ℕ, zero, suc, ◌+◌, ◌-◌, ◌%◌, ◌≤◌, ◌<◌, ◌≡◌, ◌⊎◌, inl, inr, refl, sym, ap, ◌∙◌, true, false, List,
  ltb, if◌then◌else◌, arith, Bool-cases, Option-cases,
}
use srs_ue.Upper.AmStatus.{Nack, Status}
use srs_ue.Upper.AmControl.{
  TxPdu, Sender, find, erase, mark, retx_queue_has_sn, take_nacks, is_nacked, take_ack, take_status,
  handle_control_pdu,
}
use srs_ue.Upper.AmControl.Edge.{
  contains, AllPresent, AllQueued, take_nacks-Grown, take_nacks-queues, AllPresent-mark,
  AllPresent-erase,
}
use srs_ue.Upper.AmControl.Rounds.{
  Spans, IsRest, goes_on, round, stops_at, goes_from, round-Stays, round-AllPresent, round_queues,
  take_status_keeps,
}

-- Behind the first NACK.
abbrev Later : Status → ℕ → ℕ → Sender → Sender → Type 0
Later s i m t t' = (t'.vt_a ≡ t.vt_a) × (t'.vt_ms ≡ t.vt_ms) × AllQueued s.nacks i m t'.retx_queue

later_lem :
    (fuel m j k d i : ℕ) (s : Status) (t : Sender)
    → Spans s t k d
    → IsRest j m k d
    → m ≤ fuel
    → i ≡ (t.vt_a + j) % 1024
    → AllPresent i m t.tx_window
    → Later s i m t (take_status fuel s i false t)
unfolding take_status
later_lem zero zero j k d i s t v r f e p = (refl, refl, tt)
later_lem (suc fuel) zero j k d i s t v r f e p =
    rw (take_status, e, stops_at s t j k d v r) (refl, refl, tt)
later_lem zero (suc m) j k d i s t v r f e p = absurd (omega arith)
later_lem (suc fuel) (suc m) j k d i s t v r f e p =
    let next = round s i false t in
    let st = round-Stays s i t in
    let more = goes_from s t j m k d v r in
    let v' : Spans s next k d = record {
      low = omega (arith, v.low, st.edge);
      ack = v.ack ∙ ap (λ a. (a + k) % 1024) (sym st.edge);
      send = st.next ∙ v.send ∙ ap (λ a. (a + d) % 1024) (sym st.edge);
      ack_near = v.ack_near;
      send_near = v.send_near;
    } in
    let rest = take_status fuel s ((i + 1) % 1024) false next in
    let (edge, top, queued) =
      later_lem fuel m (j + 1) k d ((i + 1) % 1024) s next v'
        (omega (arith, r.0), omega (arith, r.1), ground (arith, r.2)) (omega arith)
        (omega (arith, e, st.edge)) (round-AllPresent s i ((i + 1) % 1024) m t p.1) in
    let head : (is_nacked i s.nacks ≡ false) ⊎ (retx_queue_has_sn i rest.retx_queue ≡ true) =
      elim (round_queues s i false t p.0) [
        | inl n ↦ inl n
        | inr q ↦ inr (take_status_keeps fuel s ((i + 1) % 1024) i false next q)
      ] in
    let goes : goes_on s i t ≡ true = rw e more in
    rw (take_status, goes) (edge ∙ st.edge, top ∙ st.top, (head, queued))

-- The numbers from `i` on that come before the first NACK.
abbrev pub clean : List Nack → ℕ → ℕ → ℕ
clean ns i zero = 0
clean ns i (suc m) = if is_nacked i ns then 0 else suc (clean ns ((i + 1) % 1024) m)

abbrev pub Swept : Status → ℕ → Sender → Sender → Type 0
Swept s m t t' =
    (t'.vt_a ≡ (t.vt_a + clean s.nacks t.vt_a m) % 1024)
    × (t'.vt_ms ≡ (t.vt_ms + clean s.nacks t.vt_a m) % 1024)
    × AllQueued s.nacks t.vt_a m t'.retx_queue

-- The lowest number is acknowledged.
take_ack-edge :
    (t : Sender)
    → contains t.vt_a t.tx_window ≡ true
    → take_ack t.vt_a true t ≡ record t {
      tx_window = erase t.vt_a (mark t.vt_a t.tx_window);
      vt_a = (t.vt_a + 1) % 1024;
      vt_ms = (t.vt_ms + 1) % 1024;
    }
unfolding take_ack
take_ack-edge t h = elim (Option-cases (find t.vt_a t.tx_window)) [
  | inl e ↦ absurd (ground arith)
  | inr (p, e) ↦ rw (take_ack, e) refl
]

-- The first round, when it meets a NACK.
meets_nack :
    (fuel m k d : ℕ) (s : Status) (t : Sender)
    → Spans s t k d
    → t.vt_ms < 1024
    → IsRest 0 (suc m) k d
    → m ≤ fuel
    → AllPresent t.vt_a (suc m) t.tx_window
    → is_nacked t.vt_a s.nacks ≡ true
    → Swept s
        (suc m)
        t
        (take_status fuel s ((t.vt_a + 1) % 1024) false (take_nacks t.vt_a s.nacks t))
meets_nack fuel m k d s t v h r f p e =
    let q = (take_nacks t.vt_a s.nacks t).retx_queue in
    let next : Sender = record t { retx_queue = q } in
    let i = (t.vt_a + 1) % 1024 in
    let v' : Spans s next k d = record {
      low = v.low;
      ack = v.ack;
      send = v.send;
      ack_near = v.ack_near;
      send_near = v.send_near;
    } in
    let (edge, top, queued) =
      later_lem fuel m 1 k d i s next v'
        (omega (arith, r.0), omega (arith, r.1), ground (arith, r.2)) f refl p.1 in
    let head =
      take_status_keeps fuel s i t.vt_a false next (take_nacks-queues t.vt_a s.nacks t p.0 e) in
    rw ((take_nacks-Grown t.vt_a s.nacks t).only, e)
      (omega (arith, edge, v.low), omega (arith, top), (inr head, queued))

sweep_lem :
    (fuel m k d : ℕ) (s : Status) (t : Sender)
    → Spans s t k d
    → t.vt_ms < 1024
    → IsRest 0 m k d
    → m ≤ fuel
    → AllPresent t.vt_a m t.tx_window
    → Swept s m t (take_status fuel s t.vt_a true t)
unfolding take_status
sweep_lem zero zero k d s t v h r f p = (omega (arith, v.low), omega arith, tt)
sweep_lem zero (suc m) k d s t v h r f p = absurd (omega arith)
sweep_lem (suc fuel) zero k d s t v h r f p =
    let at : (t.vt_a + 0) % 1024 ≡ t.vt_a = omega (arith, v.low) in
    let done : goes_on s t.vt_a t ≡ false =
      ap (λ i. goes_on s i t) (sym at) ∙ stops_at s t 0 k d v r in
    rw (take_status, done) (omega (arith, v.low), omega arith, tt)
sweep_lem (suc fuel) (suc m) k d s t v h r f p =
    let at : (t.vt_a + 0) % 1024 ≡ t.vt_a = omega (arith, v.low) in
    let goes : goes_on s t.vt_a t ≡ true =
      ap (λ i. goes_on s i t) (sym at) ∙ goes_from s t 0 m k d v r in
    elim (Bool-cases (is_nacked t.vt_a s.nacks)) [
      | inl e ↦
          let first : take_status (suc fuel) s t.vt_a true t
              ≡ take_status fuel s ((t.vt_a + 1) % 1024) false (take_nacks t.vt_a s.nacks t) =
            rw (take_status, goes, e) refl in
          rw first (meets_nack fuel m k d s t v h r (omega arith) p e)
      | inr e ↦
          let next : Sender = record t {
            tx_window = erase t.vt_a (mark t.vt_a t.tx_window);
            vt_a = (t.vt_a + 1) % 1024;
            vt_ms = (t.vt_ms + 1) % 1024;
          } in
          let v' : Spans s next (k - 1) (d - 1) = record {
            low = omega arith;
            ack = omega (arith, v.ack, r.0);
            send = omega (arith, v.send, r.1);
            ack_near = omega (arith, v.ack_near);
            send_near = omega (arith, v.send_near);
          } in
          let i = (t.vt_a + 1) % 1024 in
          let p' =
            AllPresent-erase t.vt_a 1 m (mark t.vt_a t.tx_window) v.low (omega arith)
              (omega (arith, r.0, v.ack_near)) (AllPresent-mark i m t.vt_a t.tx_window p.1) in
          let (edge, top, queued) =
            sweep_lem fuel m (k - 1) (d - 1) s next v' (omega arith)
              (omega (arith, r.0), omega (arith, r.1), ground (arith, r.2)) (omega arith) p' in
          rw (take_status, goes, e, take_ack-edge t p.0)
            (omega (arith, edge), omega (arith, top), (inl refl, queued))
    ]

-- How far the acknowledged number is ahead of the lower edge, and how many numbers are looked at.
abbrev acked_span : Status → Sender → ℕ
acked_span s t = (s.ack_sn + 1024 - t.vt_a) % 1024

abbrev looked_at : ℕ → ℕ → ℕ
looked_at k d = if ltb k d then k else d

AllPresent-front :
    (i m d : ℕ) (window : List (ℕ × TxPdu)) → m ≤ d → AllPresent i d window → AllPresent i m window
AllPresent-front i zero d window h v = tt
AllPresent-front i (suc m) zero window h v = absurd (omega arith)
AllPresent-front i (suc m) (suc d) window h v =
    (v.0, AllPresent-front ((i + 1) % 1024) m d window (omega arith) v.1)

-- When the variables are below 1024 and the numbers from vt_a to vt_s, fewer than 1024, are in the
-- transmission window, a STATUS PDU is looked
-- at up to ACK_SN or vt_s, whichever comes first: vt_a and vt_ms move up by the numbers that come
-- before the first NACK, and each number with a NACK is in the retransmission queue.
pub handle_control_pdu-Swept :
    (s : Status) (t : Sender) (d : ℕ)
    → s.ack_sn < 1024
    → t.vt_a < 1024
    → t.vt_ms < 1024
    → d < 1024
    → t.vt_s ≡ (t.vt_a + d) % 1024
    → AllPresent t.vt_a d t.tx_window
    → Swept s (looked_at (acked_span s t) d) t (handle_control_pdu s t)
unfolding handle_control_pdu
handle_control_pdu-Swept s t d a l h b e p =
    let k = acked_span s t in
    let m = looked_at k d in
    let quiet : Sender = record t { poll_running = false } in
    let v : Spans s quiet k d = record {
      low = l;
      ack = omega arith;
      send = e;
      ack_near = omega arith;
      send_near = b;
    } in
    let few : m ≤ d = ground arith in
    sweep_lem 1024 m k d s quiet v h (ground arith, omega arith, ground arith) (omega arith)
      (AllPresent-front t.vt_a m d t.tx_window few p)
