-- ===== src/Mac/Bsr/Priority.antt =====
-- Which channel counts as the one of highest priority, in the two places that look for it.
use srs_ue.Prelude.{
  ℕ, zero, suc, ◌+◌, ◌<◌, ◌≡◌, refl, ◌∙◌, ap, subst, true, false, not, ◌&&◌, Bool-cases,
  Option-cases, inl, inr, List, [], ◌∷◌, ◌++◌, some, ltb, get_or, length, arith,
}
use native.Mathlib.Nat.{add-zero}
use srs_ue.Prelude.Int.{ℤ, pos, negsuc, ltb_ℤ}
use srs_ue.Mac.Bsr.Defs.{
  Bsr, regular, is_set, unset, max_rounds, find_max_priority_lcid, outranked, highest_rounds,
  trigger_if_new, check_highest_channel,
}

module _ (rlc : ℕ → ℕ) where
  -- No channel with data, numbered from `j` on, has a priority above `p`.
  abbrev pub Outranks : List ℤ → ℕ → ℤ → Type 0
  Outranks qs j p = (m : ℕ) → m < length qs → 0 < rlc (j + m) → ltb_ℤ p (get_or qs m unset) ≡ false

  outranked-Outranks :
      (qs : List ℤ) (j : ℕ) (p : ℤ) → outranked rlc qs j p ≡ false → Outranks qs j p
  unfolding outranked
  outranked-Outranks [] j p e m h d = absurd (omega arith)
  outranked-Outranks (q ∷ qs) j p e zero h d =
      let here : 0 < rlc j = omega (arith, ap rlc (add-zero j)) in ground arith
  outranked-Outranks (q ∷ qs) j p e (suc m) h d =
      outranked-Outranks qs (j + 1) p (ground arith) m (omega arith)
        (omega (arith, ap rlc (regroup j m)))
    where
      regroup : (j m : ℕ) → j + suc m ≡ j + 1 + m
      regroup j m = omega arith

  -- What `check_highest_channel` picks.
  abbrev pub IsPick : List ℤ → List ℤ → ℕ → ℕ → Type 0
  IsPick prios ls i k =
      (j : ℕ) × (k ≡ i + j)
      × (is_set (get_or ls j unset) ≡ true)
      × (0 < rlc k)
      × Outranks prios 0 (get_or prios k unset)

  highest_rounds-IsPick :
      (prios ls : List ℤ) (i k : ℕ) → highest_rounds rlc prios ls i ≡ some k → IsPick prios ls i k
  unfolding highest_rounds
  highest_rounds-IsPick prios [] i k e = cc
  highest_rounds-IsPick prios (l ∷ ls) i k e =
      elim (Bool-cases
        (is_set l && ltb 0 (rlc i) && not (outranked rlc prios 0 (get_or prios i unset)))) [
          | inl hit ↦
              let at : i ≡ k = ground arith in
              let free : outranked rlc prios 0 (get_or prios i unset) ≡ false = ground arith in
              (
                0,
                omega arith,
                ground arith,
                ground (arith, ap rlc at),
                subst (λ n. Outranks prios 0 (get_or prios n unset)) at
                    (outranked-Outranks prios 0 _ free),
              )
          | inr miss ↦
              let (j, at, s, d, o) = highest_rounds-IsPick prios ls (i + 1) k (ground arith) in
              (suc j, omega arith, s, d, o)
        ]

  -- When `check_highest_channel` reports new data, a Regular BSR is triggered for a channel that
  -- has a group, has more data than at the last update, and is outranked by no channel with data.
  pub check_highest_channel-IsPick :
      (b : Bsr)
      → (check_highest_channel rlc b).1 ≡ true
      → ((check_highest_channel rlc b).0 ≡ record b { triggered = regular })
        × (k : ℕ) × IsPick b.priorities b.lcg 0 k
        × (get_or b.last_pending_data k 0 < rlc k)
  unfolding check_highest_channel trigger_if_new
  check_highest_channel-IsPick b h = elim (Option-cases (highest_rounds rlc b.priorities b.lcg 0)) [
    | inl e ↦ ground arith
    | inr (k, e) ↦ (ground arith, k, highest_rounds-IsPick b.priorities b.lcg 0 k e, ground arith)
  ]

abbrev pub AllSet : List ℤ → Type 0
AllSet [] = Unit
AllSet (pos p ∷ ps) = (p < 2147483648) × AllSet ps
AllSet (negsuc p ∷ ps) = ⊥

-- Numbers of 32 bits. Once the maximum is the largest `uint32_t`, nothing exceeds it.
abbrev pub AllInt : List ℤ → Type 0
AllInt [] = Unit
AllInt (pos p ∷ ps) = (p < 2147483648) × AllInt ps
AllInt (negsuc p ∷ ps) = AllInt ps

max_rounds_top : (ps : List ℤ) (i idx : ℕ) → AllInt ps → max_rounds ps i 4294967295 idx ≡ idx
unfolding max_rounds
max_rounds_top [] i idx h = refl
max_rounds_top (pos p ∷ ps) i idx h = ground (arith, max_rounds_top ps (i + 1) idx h.1)
max_rounds_top (negsuc p ∷ ps) i idx h = ground (arith, max_rounds_top ps (i + 1) idx h)

max_rounds-unset :
    (front rest : List ℤ) (i prio idx : ℕ)
    → AllSet front
    → AllInt rest
    → prio < 2147483648
    → max_rounds (front ++ unset ∷ rest) i prio idx ≡ i + length front
unfolding max_rounds
max_rounds-unset [] rest i prio idx h r lt = ground (arith, max_rounds_top rest (i + 1) i r)
max_rounds-unset (pos p ∷ ps) rest i prio idx h r lt = ground (
  arith,
  max_rounds-unset ps rest (i + 1) p i h.1 r h.0,
  max_rounds-unset ps rest (i + 1) prio idx h.1 r lt,
)
max_rounds-unset (negsuc p ∷ ps) rest i prio idx h r lt = absurd h

-- The channel of highest priority is, for `find_max_priority_lcid`, the first one with no priority:
-- its -1 is compared as the largest unsigned number.
pub find_max_priority_lcid-unset :
    (b : Bsr) (front rest : List ℤ)
    → b.priorities ≡ front ++ unset ∷ rest
    → AllSet front
    → AllInt rest
    → find_max_priority_lcid b ≡ length front
unfolding find_max_priority_lcid
find_max_priority_lcid-unset b front rest e h r =
    rw e (max_rounds-unset front rest 0 0 0 h r (omega arith) ∙ omega arith)

-- All sizes are 0.
abbrev pub AllZero : List ℕ → Type 0
AllZero [] = Unit
AllZero (x ∷ xs) = (x ≡ 0) × AllZero xs
