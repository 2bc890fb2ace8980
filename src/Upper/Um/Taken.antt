-- ===== src/Upper/Um/Taken.antt =====
-- What taking one PDU, or giving one up, changes.
use srs_ue.Prelude.{
  ℕ, suc, ◌≡◌, refl, sym, ◌∙◌, inl, inr, false, ◌||◌, List, [], ◌∷◌, Option, none, some, ltb,
  length, drop, arith, Bool-cases,
}
use srs_ue.Upper.UmHeader.{Header, end_aligned}
use srs_ue.Upper.Um.Receive.{
  Pdu, Rx, find, erase, take_segments, take_last, take_pdu, take_edge, advance,
}
use srs_ue.Upper.Um.Window.{IsAhead, Ahead-step}

-- What the loops leave alone.
pub record Same (r r' : Rx) : Type 0 where
  pub ring : r'.rx_mod ≡ r.rx_mod
  pub size : r'.rx_window_size ≡ r.rx_window_size
  pub high : r'.vr_uh ≡ r.vr_uh
  pub mark : r'.vr_ux ≡ r.vr_ux
  pub sn_size : r'.rx_sn_field_length ≡ r.rx_sn_field_length

pub Same-refl : (r : Rx) → Same r r
Same-refl r = record { ring = refl; size = refl; high = refl; mark = refl; sn_size = refl }

pub Same-trans : (r r' r'' : Rx) → Same r r' → Same r' r'' → Same r r''
Same-trans r r' r'' a b = record {
  ring = b.ring ∙ a.ring;
  size = b.size ∙ a.size;
  high = b.high ∙ a.high;
  mark = b.mark ∙ a.mark;
  sn_size = b.sn_size ∙ a.sn_size;
}

take_segments_keeps :
    (h : Header) (li payload : List ℕ) (r : Rx)
    → let r' = (take_segments h li payload r).0 in
      Same r r' × (r'.vr_ur ≡ r.vr_ur) × (r'.rx_window ≡ r.rx_window)
unfolding take_segments
take_segments_keeps h [] payload r = (Same-refl r, refl, refl)
take_segments_keeps h (l ∷ li) payload r =
    let cut : Rx = record r {
      rx_sdu = [];
      pdu_lost = false;
      overran = r.overran || ltb (length payload) l;
    } in
    let (s, e, w) = take_segments_keeps h li (drop l payload) cut in
    (
      record { ring = s.ring; size = s.size; high = s.high; mark = s.mark; sn_size = s.sn_size },
      e,
      w,
    )

take_last_keeps :
    (h : Header) (payload : List ℕ) (r : Rx)
    → let r' = (take_last h payload r).0 in Same r r' × (r'.vr_ur ≡ r.vr_ur)
unfolding take_last
take_last_keeps h payload r = elim (Bool-cases (end_aligned h.fi)) [
  | inl e ↦
      rw e (record { ring = refl; size = refl; high = refl; mark = refl; sn_size = refl }, refl)
  | inr e ↦
      rw e (record { ring = refl; size = refl; high = refl; mark = refl; sn_size = refl }, refl)
]

-- One round of either loop.
abbrev Round : Rx → Rx → Type 0
Round r r' = Same r r' × (r'.vr_ur ≡ r.vr_ur) × (r'.rx_window ≡ erase r.vr_ur r.rx_window)

pub take_pdu-Round : (p : Pdu) (r : Rx) → Round r (take_pdu p r).0
unfolding take_pdu
take_pdu-Round p r =
    let (r', rest, ended) = take_segments p.header p.header.li p.payload r in
    let (s, e, w) = take_segments_keeps p.header p.header.li p.payload r in
    let (s', e') = take_last_keeps p.header rest r' in
    (
      record {
        ring = s'.ring ∙ s.ring;
        size = s'.size ∙ s.size;
        high = s'.high ∙ s.high;
        mark = s'.mark ∙ s.mark;
        sn_size = s'.sn_size ∙ s.sn_size;
      },
      e' ∙ e,
      refl,
    )

pub erase_missing :
    (k : ℕ) (window : List (ℕ × Pdu)) → find k window ≡ none → erase k window ≡ window
unfolding find erase
erase_missing k [] e = refl
erase_missing k ((x, p) ∷ window) e = ground (arith, erase_missing k window)

pub take_edge-Round : (r : Rx) → Round r (take_edge r).0
unfolding take_edge
take_edge-Round r = go (find r.vr_ur r.rx_window) refl
  where
    go : (o : Option Pdu) → find r.vr_ur r.rx_window ≡ o → Round r (take_edge r).0
    go none e =
        rw (take_edge, e)
          (
            record { ring = refl; size = refl; high = refl; mark = refl; sn_size = refl },
            refl,
            sym (erase_missing r.vr_ur r.rx_window e),
          )
    go (some p) e = rw (take_edge, e) (take_pdu-Round p r)

-- After a round, one number less waits.
pub advance-IsAhead :
    (d : ℕ) (r r' : Rx)
    → IsAhead (suc d) r
    → Round r r'
    → IsAhead d (advance r') × Same r (advance r')
unfolding advance
advance-IsAhead d r r' v (s, e, w) = (
  rw (s.ring, s.size, s.high, e, w)
      (Ahead-step r.rx_mod r.rx_window_size r.vr_ur r.vr_uh d r.rx_window v),
  record { ring = s.ring; size = s.size; high = s.high; mark = s.mark; sn_size = s.sn_size },
)
