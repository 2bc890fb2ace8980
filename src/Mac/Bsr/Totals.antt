-- ===== src/Mac/Bsr/Totals.antt =====
-- What a report adds up to.
use srs_ue.Prelude.{
  ℕ, zero, suc, ◌+◌, ◌<◌, ◌≡◌, refl, ◌∙◌, ◌≢◌, List, [], ◌∷◌, get_or, set, length, length-set,
  replicate, u32, arith,
}
use srs_ue.Prelude.Int.{ℤ, pos, negsuc}
use srs_ue.Mac.Bsr.Defs.{Bsr, padding, buffer_rounds, get_buffer_state}
use srs_ue.Mac.Bsr.Rounds.{report_rounds, generate_bsr}

abbrev pub sum : List ℕ → ℕ
sum [] = 0
sum (x ∷ xs) = x + sum xs

-- Each group number is one of the four, or none is set.
abbrev pub InGroup : ℤ → Type 0
InGroup (pos k) = k < 4
InGroup (negsuc k) = Unit

abbrev pub AllInGroup : List ℤ → Type 0
AllInGroup [] = Unit
AllInGroup (l ∷ ls) = InGroup l × AllInGroup ls

sum-set :
    (sizes : List ℕ) (k n : ℕ)
    → k < length sizes
    → u32 (sum (set sizes k (u32 (get_or sizes k 0 + n)))) ≡ u32 (sum sizes + n)
sum-set [] k n h = absurd (omega arith)
sum-set (x ∷ xs) zero n h = omega arith
sum-set (x ∷ xs) (suc k) n h = omega (arith, sum-set xs k n (omega arith))

module _ (rlc : ℕ → ℕ) where
  report_rounds-sum :
      (ls : List ℤ) (i : ℕ) (sizes : List ℕ) (count buffer : ℕ)
      → length sizes ≡ 4
      → AllInGroup ls
      → u32 (sum sizes) ≡ u32 buffer
      → u32 (sum (report_rounds rlc ls i (sizes, count)).0) ≡ u32 (buffer_rounds rlc ls i buffer)
  unfolding report_rounds buffer_rounds
  report_rounds-sum [] i sizes count buffer hl g e = e
  report_rounds-sum (pos k ∷ ls) i sizes count buffer hl g e =
      report_rounds-sum ls (i + 1) _ _ _ (length-set sizes k _ ∙ hl) g.1
        (omega (arith, sum-set sizes k (rlc i) (omega (arith, g.0))))
  report_rounds-sum (negsuc k ∷ ls) i sizes count buffer hl g e =
      report_rounds-sum ls (i + 1) _ _ _ hl g.1 e

  -- In a report that is not for padding the four group sizes add up, in 32 bits, to the total that
  -- `get_buffer_state` gives, whenever every group number that is set is below 4.
  pub generate_bsr-get_buffer_state :
      (b : Bsr) (nof_padding_bytes : ℕ)
      → AllInGroup b.lcg
      → b.triggered ≢ padding
      → u32 (sum (generate_bsr rlc b nof_padding_bytes).0.buff_size) ≡ u32 (get_buffer_state rlc b)
  unfolding generate_bsr get_buffer_state
  generate_bsr-get_buffer_state b n g h =
      ground (arith, report_rounds-sum b.lcg 0 (replicate 4 0) 0 0 refl g refl)
