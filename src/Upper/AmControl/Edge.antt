-- ===== src/Upper/AmControl/Edge.antt =====
-- Where a STATUS PDU moves the lower edge of the transmission window, and what it queues.
use srs_ue.Prelude.{
  ℕ, zero, suc, ◌+◌, ◌%◌, ◌≤◌, ◌<◌, ◌≡◌, ◌≢◌, ◌⊎◌, inl, inr, refl, sym, ap, ◌∙◌, Bool, true, false,
  ◌||◌, List, [], ◌∷◌, ◌++◌, none, some, ◌==◌, arith, Bool-cases, Option-cases,
}
use srs_ue.Upper.AmStatus.{Nack}
use srs_ue.Upper.AmControl.{
  TxPdu, Retx, Sender, find, erase, mark, retx_queue_has_sn, retx_of, requeue, take_nacks,
  is_nacked,
}

abbrev pub contains : ℕ → List (ℕ × TxPdu) → Bool
contains k window = elim (find k window) [ none ↦ false | some p ↦ true ]

-- The `d` numbers from `i` on are in the window.
abbrev pub AllPresent : ℕ → ℕ → List (ℕ × TxPdu) → Type 0
AllPresent i zero window = Unit
AllPresent i (suc d) window = (contains i window ≡ true) × AllPresent ((i + 1) % 1024) d window

-- Those of the `m` numbers from `i` on that have a NACK are to be sent again.
abbrev pub AllQueued : List Nack → ℕ → ℕ → List Retx → Type 0
AllQueued ns i zero q = Unit
AllQueued ns i (suc m) q =
    ((is_nacked i ns ≡ false) ⊎ (retx_queue_has_sn i q ≡ true)) × AllQueued ns ((i + 1) % 1024) m q

has_sn-append :
    (sn : ℕ) (q : List Retx) (x : Retx)
    → retx_queue_has_sn sn (q ++ x ∷ []) ≡ (retx_queue_has_sn sn q || (x.sn == sn))
unfolding retx_queue_has_sn
has_sn-append sn [] x = ground arith
has_sn-append sn (y ∷ q) x = ground (arith, has_sn-append sn q x)

retx_of-sn : (i : ℕ) (n : Nack) (p : TxPdu) → (retx_of i n p).sn ≡ i
unfolding retx_of
retx_of-sn i n p = ground arith

-- Only the queue changes, and it only grows.
pub record Grown (t t' : Sender) : Type 0 where
  pub only : t' ≡ record t { retx_queue = t'.retx_queue }
  pub more :
      (sn : ℕ)
      → retx_queue_has_sn sn t.retx_queue ≡ true
      → retx_queue_has_sn sn t'.retx_queue ≡ true

Grown-refl : (t : Sender) → Grown t t
Grown-refl t = record { only = refl; more = λ sn h. h }

Grown-trans : (t t' t'' : Sender) → Grown t t' → Grown t' t'' → Grown t t''
Grown-trans t t' t'' a b = record {
  only = b.only ∙ ap (λ (u : Sender). record u { retx_queue = t''.retx_queue }) a.only;
  more = λ sn h. b.more sn (a.more sn h);
}

requeue-Grown : (i : ℕ) (n : Nack) (t : Sender) → Grown t (requeue i n t)
unfolding requeue
requeue-Grown i n t = elim (Option-cases (find i t.tx_window)) [
  | inl e ↦ rw (requeue, e) (Grown-refl t)
  | inr (p, e) ↦ elim (Bool-cases (retx_queue_has_sn i t.retx_queue)) [
    | inl had ↦ rw (requeue, e, had) (Grown-refl t)
    | inr new ↦
        rw (requeue, e, new)
          (record {
            only = refl;
            more = λ sn h. ground (arith, has_sn-append sn t.retx_queue (retx_of i n p));
          })
  ]
]

requeue-queues :
    (i : ℕ) (n : Nack) (t : Sender)
    → contains i t.tx_window ≡ true
    → retx_queue_has_sn i (requeue i n t).retx_queue ≡ true
unfolding requeue
requeue-queues i n t h = elim (Option-cases (find i t.tx_window)) [
  | inl e ↦ absurd (ground arith)
  | inr (p, e) ↦ elim (Bool-cases (retx_queue_has_sn i t.retx_queue)) [
    | inl had ↦ rw (requeue, e, had) had
    | inr new ↦
        rw (requeue, e, new)
          (ground (arith, has_sn-append i t.retx_queue (retx_of i n p), retx_of-sn i n p))
  ]
]

pub take_nacks-Grown : (i : ℕ) (ns : List Nack) (t : Sender) → Grown t (take_nacks i ns t)
unfolding take_nacks
take_nacks-Grown i [] t = Grown-refl t
take_nacks-Grown i (n ∷ ns) t = elim (Bool-cases (n.nack_sn == i)) [
  | inl e ↦
      let r = requeue i n t in
      rw e (Grown-trans t r (take_nacks i ns r) (requeue-Grown i n t) (take_nacks-Grown i ns r))
  | inr e ↦ rw e (take_nacks-Grown i ns t)
]

pub take_nacks-queues :
    (i : ℕ) (ns : List Nack) (t : Sender)
    → contains i t.tx_window ≡ true
    → is_nacked i ns ≡ true
    → retx_queue_has_sn i (take_nacks i ns t).retx_queue ≡ true
unfolding take_nacks is_nacked
take_nacks-queues i [] t h e = absurd (ground arith)
take_nacks-queues i (n ∷ ns) t h e = elim (Bool-cases (n.nack_sn == i)) [
  | inl same ↦
      let r = requeue i n t in
      rw (take_nacks, same) ((take_nacks-Grown i ns r).more i (requeue-queues i n t h))
  | inr other ↦ rw (take_nacks, other) (take_nacks-queues i ns t h (ground arith))
]

contains-mark :
    (k i : ℕ) (window : List (ℕ × TxPdu)) → contains k (mark i window) ≡ contains k window
unfolding find mark
contains-mark k i [] = refl
contains-mark k i ((x, p) ∷ window) = ground (arith, contains-mark k i window)

pub contains-erase :
    (k i : ℕ) (window : List (ℕ × TxPdu)) → k ≢ i → contains k (erase i window) ≡ contains k window
unfolding find erase
contains-erase k i [] h = refl
contains-erase k i ((x, p) ∷ window) h = ground (arith, contains-erase k i window h)

pub AllPresent-mark :
    (k d i : ℕ) (window : List (ℕ × TxPdu)) → AllPresent k d window → AllPresent k d (mark i window)
AllPresent-mark k zero i window v = tt
AllPresent-mark k (suc d) i window v =
    (rw (contains-mark k i window) v.0, AllPresent-mark ((k + 1) % 1024) d i window v.1)

-- The numbers behind the first one stay when it goes.
pub AllPresent-erase :
    (a j d : ℕ) (window : List (ℕ × TxPdu))
    → a < 1024
    → 0 < j
    → j + d ≤ 1024
    → AllPresent ((a + j) % 1024) d window
    → AllPresent ((a + j) % 1024) d (erase a window)
AllPresent-erase a j zero window l p b v = tt
AllPresent-erase a j (suc d) window l p b v =
    let next : ((a + j) % 1024 + 1) % 1024 ≡ (a + (j + 1)) % 1024 = omega arith in
    let apart : (a + j) % 1024 ≢ a = omega arith in
    (
      rw (contains-erase ((a + j) % 1024) a window apart) v.0,
      rw next
          (AllPresent-erase a (j + 1) d window l (omega arith) (omega arith) (rw (sym next) v.1)),
    )
