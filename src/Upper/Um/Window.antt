-- ===== src/Upper/Um/Window.antt =====
-- The sequence numbers that wait, as distances from the next one to take.
use srs_ue.Prelude.{
  ℕ, zero, suc, ◌+◌, ◌-◌, ◌%◌, ◌≤◌, ◌<◌, ◌≡◌, ◌≢◌, refl, ◌∙◌, ◌⊎◌, inl, inr, Bool, true, false,
  ◌&&◌, List, [], ◌∷◌, none, some, ltb, leb, ◌==◌, arith, Bool-cases, sub_u32,
}
use srs_ue.Upper.Um.Receive.{Pdu, Rx, rx_mod_base, inside_reordering_window, find, erase}
use srs_ue.Upper.Um.InOrder.{IsRing, base_level, base-low, base-next}

-- How far `k` is ahead of `a`, on a ring of `m`.
abbrev pub offset : ℕ → ℕ → ℕ → ℕ
offset m a k = (k + m - a) % m

-- All keys are less than `d` ahead of `a`.
abbrev pub AllWithin : ℕ → ℕ → ℕ → List (ℕ × Pdu) → Type 0
AllWithin m a d [] = Unit
AllWithin m a d ((k, p) ∷ window) = (k < m) × (offset m a k < d) × AllWithin m a d window

abbrev pub contains : ℕ → List (ℕ × Pdu) → Bool
contains k window = elim (find k window) [ none ↦ false | some p ↦ true ]

-- The window of `w` numbers below `h`, where `h` is `d` ahead of `a`: what is kept is between the two,
-- with the last number before `h`.
pub record Ahead (m w a h d : ℕ) (window : List (ℕ × Pdu)) : Type 0 where
  pub ring : IsRing m w
  pub low : a < m
  pub edge : h ≡ (a + d) % m
  pub bound : d ≤ m
  pub keys : AllWithin m a d window
  pub top : (d ≡ 0) ⊎ (contains ((a + (d - 1)) % m) window ≡ true)

abbrev pub IsAhead : ℕ → Rx → Type 0
IsAhead d r = Ahead r.rx_mod r.rx_window_size r.vr_ur r.vr_uh d r.rx_window

pub base-edge :
    (m w a d : ℕ)
    → IsRing m w
    → a < m
    → d ≤ m
    → sub_u32 (sub_u32 a ((a + d) % m)) w % m ≡ (m + w - d) % m
base-edge m w a d (inl k) l b = rw (k.0, k.1) (omega arith)
base-edge m w a d (inr k) l b = rw (k.0, k.1) (omega arith)

pub edge_low : (m w a d : ℕ) → IsRing m w → (a + d) % m < m
edge_low m w a d (inl k) = rw k.0 (omega arith)
edge_low m w a d (inr k) = rw k.0 (omega arith)

-- The next one to take is inside the window when it is at most the window's size behind `vr_uh`.
pub inside-IsAhead :
    (d : ℕ) (r : Rx)
    → IsAhead d r
    → inside_reordering_window r r.vr_ur ≡ (ltb 0 d && leb d r.rx_window_size)
unfolding inside_reordering_window rx_mod_base
inside-IsAhead d r v =
    let h = edge_low r.rx_mod r.rx_window_size r.vr_ur d v.ring in
    rw
      (
        v.edge,
        base-edge r.rx_mod r.rx_window_size r.vr_ur d v.ring v.low v.bound,
        base_level r.rx_mod r.rx_window_size ((r.vr_ur + d) % r.rx_mod) v.ring h,
        base-low r.rx_mod r.rx_window_size ((r.vr_ur + d) % r.rx_mod) v.ring h,
      )
      (compared r.rx_mod r.rx_window_size d v.ring v.bound)
  where
    compared :
        (m w d : ℕ)
        → IsRing m w
        → d ≤ m
        → (leb 0 ((m + w - d) % m) && ltb ((m + w - d) % m) w) ≡ (ltb 0 d && leb d w)
    compared m w d (inl k) b = rw (k.0, k.1) (ground arith)
    compared m w d (inr k) b = rw (k.0, k.1) (ground arith)

contains-erase :
    (k a : ℕ) (window : List (ℕ × Pdu)) → k ≢ a → contains k (erase a window) ≡ contains k window
unfolding find erase
contains-erase k a [] h = refl
contains-erase k a ((x, p) ∷ window) h = ground (arith, contains-erase k a window h)

-- What holds of the two rings holds of any.
pub by_ring : (P : ℕ → ℕ → Type 0) → P 32 16 → P 1024 512 → (m w : ℕ) → IsRing m w → P m w
by_ring P short long m w (inl k) = rw (k.0, k.1) short
by_ring P short long m w (inr k) = rw (k.0, k.1) long

closer :
    (m w : ℕ)
    → IsRing m w
    → (a d k : ℕ) → a < m
    → k < m
    → offset m a k < suc d
    → k ≢ a
    → offset m ((a + 1) % m) k < d
closer = by_ring _ (λ a d k l low near other. ground arith) (λ a d k l low near other. ground arith)

AllWithin-erase :
    (m w a d : ℕ) (window : List (ℕ × Pdu))
    → IsRing m w
    → a < m
    → AllWithin m a (suc d) window
    → AllWithin m ((a + 1) % m) d (erase a window)
unfolding erase
AllWithin-erase m w a d [] r l v = tt
AllWithin-erase m w a d ((k, p) ∷ window) r l (low, near, v) = elim (Bool-cases (k == a)) [
  | inl same ↦ rw same (AllWithin-erase m w a d window r l v)
  | inr other ↦
      rw other
        (low, closer m w r a d k l low near (ground arith), AllWithin-erase m w a d window r l v)
]

-- The next number is taken, or given up.
pub Ahead-step :
    (m w a h d : ℕ) (window : List (ℕ × Pdu))
    → Ahead m w a h (suc d) window
    → Ahead m w ((a + 1) % m) h d (erase a window)
Ahead-step m w a h d window v = record {
  ring = v.ring;
  low = base-next m w a v.ring;
  edge = v.edge ∙ next m w v.ring a d;
  bound = omega (arith, v.bound);
  keys = AllWithin-erase m w a d window v.ring v.low v.keys;
  top = top' d v.bound v.top;
}
  where
    next : (m w : ℕ) → IsRing m w → (a d : ℕ) → (a + suc d) % m ≡ ((a + 1) % m + d) % m
    next = by_ring _ (λ a d. omega arith) (λ a d. omega arith)

    apart :
        (m w : ℕ)
        → IsRing m w
        → (a d : ℕ) → a < m
        → suc (suc d) ≤ m
        → (a + (suc (suc d) - 1)) % m ≢ a
    apart = by_ring _ (λ a d l b. omega arith) (λ a d l b. omega arith)

    index :
        (m w : ℕ)
        → IsRing m w
        → (a d : ℕ) → ((a + 1) % m + (suc d - 1)) % m ≡ (a + (suc (suc d) - 1)) % m
    index = by_ring _ (λ a d. omega arith) (λ a d. omega arith)

    top' :
        (d : ℕ)
        → suc d ≤ m
        → (suc d ≡ 0) ⊎ (contains ((a + (suc d - 1)) % m) window ≡ true)
        → (d ≡ 0) ⊎ (contains (((a + 1) % m + (d - 1)) % m) (erase a window) ≡ true)
    top' zero b t = inl refl
    top' (suc d) b (inl e) = absurd (omega arith)
    top' (suc d) b (inr e) = inr (
        rw
          (
            index m w v.ring a d,
            contains-erase ((a + (suc (suc d) - 1)) % m) a window (apart m w v.ring a d v.low b),
          )
          e)
