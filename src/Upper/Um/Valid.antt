-- ===== src/Upper/Um/Valid.antt =====
-- What holds of the receiving entity between two calls.
use srs_ue.Prelude.{
  ℕ, ◌+◌, ◌-◌, ◌%◌, ◌≤◌, ◌<◌, ◌≡◌, ◌⊎◌, inl, inr, true, false, List, [], ◌∷◌, none, arith, sub_u32,
}
use srs_ue.Common.Timers
use srs_ue.Upper.Um.Send.{modulus}
use srs_ue.Upper.Um.Receive.{Pdu, Rx, rx_mod_base, find}
use srs_ue.Upper.Um.InOrder.{IsRing}
use srs_ue.Upper.Um.Window.{Ahead, IsAhead, by_ring, offset, contains, AllWithin}

-- The reordering timer waits for a number of the window, or for `vr_uh`.
abbrev pub IsMarked : Rx → Type 0
IsMarked r = (Timers.is_running r.timer ≡ false) ⊎ (rx_mod_base r r.vr_ux ≤ r.rx_window_size)

-- The PDUs that are kept lie between the next one to take, which is missing, and `vr_uh`, which are at
-- most the window's size apart.
pub record IsOrdered (r : Rx) : Type 0 where
  pub sized : r.rx_mod ≡ modulus r.rx_sn_field_length
  pub depth : ℕ
  pub ahead : IsAhead depth r
  pub within : depth ≤ r.rx_window_size
  pub next_missing : find r.vr_ur r.rx_window ≡ none

abbrev pub IsValid : Rx → Type 0
IsValid r = IsOrdered r × IsMarked r

pub base-offset :
    (m w : ℕ)
    → IsRing m w
    → (a d s : ℕ) → a < m
    → s < m
    → d ≤ w
    → sub_u32 (sub_u32 s ((a + d) % m)) w % m ≡ (offset m a s + m + w - d) % m
base-offset = by_ring _ (λ a d s l k b. omega arith) (λ a d s l k b. omega arith)

-- A number that is neither below the window nor in it is farther ahead than all.
pub farther :
    (m w : ℕ)
    → IsRing m w
    → (d o : ℕ) → o < m
    → d ≤ w
    → (m + w - d) % m ≤ (o + m + w - d) % m
    → ((o < d) × ((o + m + w - d) % m < w)) ⊎ ((d ≤ o) × (w ≤ (o + m + w - d) % m))
farther = by_ring _ (λ d o l b n. ground arith) (λ d o l b n. ground arith)

reached :
    (m w : ℕ)
    → IsRing m w
    → (a s : ℕ) → a < m
    → s < m
    → ((s + 1) % m ≡ (a + (offset m a s + 1)) % m)
      × (offset m a s + 1 ≤ m)
      × ((a + (offset m a s + 1 - 1)) % m ≡ s)
reached =
    by_ring _ (λ a s l k. (omega arith, omega arith, omega arith))
      (λ a s l k. (omega arith, omega arith, omega arith))

AllWithin-weaken :
    (m a d d' : ℕ) (window : List (ℕ × Pdu))
    → d ≤ d'
    → AllWithin m a d window
    → AllWithin m a d' window
AllWithin-weaken m a d d' [] h v = tt
AllWithin-weaken m a d d' ((k, p) ∷ window) h (low, near, v) =
    (low, omega arith, AllWithin-weaken m a d d' window h v)

contains_more :
    (k s : ℕ) (p : Pdu) (window : List (ℕ × Pdu))
    → contains k window ≡ true
    → contains k ((s, p) ∷ window) ≡ true
unfolding find
contains_more k s p window e = ground arith

contains_front : (s : ℕ) (p : Pdu) (window : List (ℕ × Pdu)) → contains s ((s, p) ∷ window) ≡ true
unfolding find
contains_front s p window = ground arith

-- A number in the window.
pub Ahead-inner :
    (m w a h d s : ℕ) (p : Pdu) (window : List (ℕ × Pdu))
    → Ahead m w a h d window
    → s < m
    → offset m a s < d
    → Ahead m w a h d ((s, p) ∷ window)
Ahead-inner m w a h d s p window v k o = record {
  ring = v.ring;
  low = v.low;
  edge = v.edge;
  bound = v.bound;
  keys = (k, o, v.keys);
  top = top' v.top;
}
  where
    top' :
        (d ≡ 0) ⊎ (contains ((a + (d - 1)) % m) window ≡ true)
        → (d ≡ 0) ⊎ (contains ((a + (d - 1)) % m) ((s, p) ∷ window) ≡ true)
    top' (inl e) = inl e
    top' (inr e) = inr (contains_more ((a + (d - 1)) % m) s p window e)

-- A number beyond it: the window moves.
pub Ahead-outer :
    (m w a h d s : ℕ) (p : Pdu) (window : List (ℕ × Pdu))
    → Ahead m w a h d window
    → s < m
    → d ≤ offset m a s
    → Ahead m w a ((s + 1) % m) (offset m a s + 1) ((s, p) ∷ window)
Ahead-outer m w a h d s p window v k o =
    let (edge', bound', last) = reached m w v.ring a s v.low k in
    record {
      ring = v.ring;
      low = v.low;
      edge = edge';
      bound = bound';
      keys =
          (k, omega arith, AllWithin-weaken m a d (offset m a s + 1) window (omega arith) v.keys);
      top = inr (rw last (contains_front s p window));
    }
