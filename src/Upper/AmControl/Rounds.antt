-- ===== src/Upper/AmControl/Rounds.antt =====
-- The loop over the sequence numbers of a STATUS PDU.
use srs_ue.Prelude.{
  ℕ, zero, suc, ◌+◌, ◌%◌, ◌≤◌, ◌<◌, ◌≡◌, ◌⊎◌, inl, inr, refl, Bool, true, false, not, ◌&&◌, ltb,
  if◌then◌else◌, arith, Bool-cases, Option-cases,
}
use srs_ue.Upper.AmStatus.{Status}
use srs_ue.Upper.AmControl.{
  Sender, tx_mod_base, find, retx_queue_has_sn, take_nacks, is_nacked, take_ack, take_status,
}
use srs_ue.Upper.AmControl.Edge.{
  contains, AllPresent, take_nacks-Grown, take_nacks-queues, AllPresent-mark,
}

-- The acknowledged number is `k` ahead of the lower edge, and the next one to send `d`.
pub record Spans (s : Status) (t : Sender) (k d : ℕ) : Type 0 where
  pub low : t.vt_a < 1024
  pub ack : s.ack_sn ≡ (t.vt_a + k) % 1024
  pub send : t.vt_s ≡ (t.vt_a + d) % 1024
  pub ack_near : k < 1024
  pub send_near : d < 1024

-- `m` numbers from the one `j` ahead are in both spans, and no more.
abbrev pub IsRest : ℕ → ℕ → ℕ → ℕ → Type 0
IsRest j m k d = (j + m ≤ k) × (j + m ≤ d) × ((j + m ≡ k) ⊎ (j + m ≡ d))

tx_mod_base-ahead :
    (t : Sender) (x k : ℕ)
    → t.vt_a < 1024
    → k < 1024
    → x ≡ (t.vt_a + k) % 1024
    → tx_mod_base t x ≡ k
unfolding tx_mod_base
tx_mod_base-ahead t x k l h e = rw e (omega arith)

abbrev pub goes_on : Status → ℕ → Sender → Bool
goes_on s i t =
    ltb (tx_mod_base t i) (tx_mod_base t s.ack_sn) && ltb (tx_mod_base t i) (tx_mod_base t t.vt_s)

pub stops_at :
    (s : Status) (t : Sender) (j k d : ℕ)
    → Spans s t k d
    → IsRest j 0 k d
    → goes_on s ((t.vt_a + j) % 1024) t ≡ false
stops_at s t j k d v r =
    let here =
      tx_mod_base-ahead t ((t.vt_a + j) % 1024) j v.low (omega (arith, v.ack_near, r.0)) refl in
    let there = tx_mod_base-ahead t s.ack_sn k v.low v.ack_near v.ack in
    let end = tx_mod_base-ahead t t.vt_s d v.low v.send_near v.send in
    rw (here, there, end) (ground arith)

pub goes_from :
    (s : Status) (t : Sender) (j m k d : ℕ)
    → Spans s t k d
    → IsRest j (suc m) k d
    → goes_on s ((t.vt_a + j) % 1024) t ≡ true
goes_from s t j m k d v r =
    let here =
      tx_mod_base-ahead t ((t.vt_a + j) % 1024) j v.low (omega (arith, v.ack_near, r.0)) refl in
    let there = tx_mod_base-ahead t s.ack_sn k v.low v.ack_near v.ack in
    let end = tx_mod_base-ahead t t.vt_s d v.low v.send_near v.send in
    rw (here, there, end) (ground arith)

-- One round.
abbrev pub round : Status → ℕ → Bool → Sender → Sender
round s i update t = if is_nacked i s.nacks then take_nacks i s.nacks t else take_ack i update t

-- Behind the first NACK the edge stays.
pub record Stays (t t' : Sender) : Type 0 where
  pub edge : t'.vt_a ≡ t.vt_a
  pub top : t'.vt_ms ≡ t.vt_ms
  pub next : t'.vt_s ≡ t.vt_s

take_ack-Stays : (i : ℕ) (t : Sender) → Stays t (take_ack i false t)
unfolding take_ack
take_ack-Stays i t = elim (Option-cases (find i t.tx_window)) [
  | inl e ↦ rw (take_ack, e) (record { edge = refl; top = refl; next = refl })
  | inr (p, e) ↦ rw (take_ack, e) (record { edge = refl; top = refl; next = refl })
]

take_ack-queue : (i : ℕ) (u : Bool) (t : Sender) → (take_ack i u t).retx_queue ≡ t.retx_queue
unfolding take_ack
take_ack-queue i u t = ground arith

take_ack-AllPresent :
    (i k d : ℕ) (t : Sender)
    → AllPresent k d t.tx_window
    → AllPresent k d (take_ack i false t).tx_window
unfolding take_ack
take_ack-AllPresent i k d t v = elim (Option-cases (find i t.tx_window)) [
  | inl e ↦ rw (take_ack, e) v
  | inr (p, e) ↦ rw (take_ack, e) (AllPresent-mark k d i t.tx_window v)
]

pub round-Stays : (s : Status) (i : ℕ) (t : Sender) → Stays t (round s i false t)
round-Stays s i t = elim (Bool-cases (is_nacked i s.nacks)) [
  | inl e ↦
      rw (e, (take_nacks-Grown i s.nacks t).only) (record { edge = refl; top = refl; next = refl })
  | inr e ↦ rw e (take_ack-Stays i t)
]

pub round-AllPresent :
    (s : Status) (i k d : ℕ) (t : Sender)
    → AllPresent k d t.tx_window
    → AllPresent k d (round s i false t).tx_window
round-AllPresent s i k d t v = elim (Bool-cases (is_nacked i s.nacks)) [
  | inl e ↦ rw (e, (take_nacks-Grown i s.nacks t).only) v
  | inr e ↦ rw e (take_ack-AllPresent i k d t v)
]

-- A number that is queued stays queued.
round_keeps :
    (s : Status) (i x : ℕ) (u : Bool) (t : Sender)
    → retx_queue_has_sn x t.retx_queue ≡ true
    → retx_queue_has_sn x (round s i u t).retx_queue ≡ true
round_keeps s i x u t h = elim (Bool-cases (is_nacked i s.nacks)) [
  | inl e ↦ rw e ((take_nacks-Grown i s.nacks t).more x h)
  | inr e ↦ rw (e, take_ack-queue i u t) h
]

pub take_status_keeps :
    (fuel : ℕ) (s : Status) (i x : ℕ) (u : Bool) (t : Sender)
    → retx_queue_has_sn x t.retx_queue ≡ true
    → retx_queue_has_sn x (take_status fuel s i u t).retx_queue ≡ true
unfolding take_status
take_status_keeps zero s i x u t h = h
take_status_keeps (suc fuel) s i x u t h =
    let next = round s i u t in
    let ih =
      take_status_keeps fuel s ((i + 1) % 1024) x (u && not (is_nacked i s.nacks)) next
        (round_keeps s i x u t h) in
    elim (Bool-cases (goes_on s i t)) [
      | inl e ↦ rw (take_status, e) ih
      | inr e ↦ rw (take_status, e) h
    ]

pub round_queues :
    (s : Status) (i : ℕ) (u : Bool) (t : Sender)
    → contains i t.tx_window ≡ true
    → (is_nacked i s.nacks ≡ false) ⊎ (retx_queue_has_sn i (round s i u t).retx_queue ≡ true)
round_queues s i u t h = elim (Bool-cases (is_nacked i s.nacks)) [
  | inl e ↦ inr (rw e (take_nacks-queues i s.nacks t h e))
  | inr e ↦ inl e
]
