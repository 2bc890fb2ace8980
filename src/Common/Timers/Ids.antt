-- ===== src/Common/Timers/Ids.antt =====
-- The numbers that `get_unique_id` gives out.
use srs_ue.Prelude.{ℕ, zero, suc, ◌+◌, ◌%◌, ◌<◌, ◌^◌, ◌≡◌, refl, sym, ◌⊎◌, inl, inr, arith}
use srs_ue.Common.Timers.{Timers, new_timers, get_unique_id}

-- The state after `k` calls.
abbrev pub after_ids : ℕ → Timers → Timers
after_ids zero ts = ts
after_ids (suc k) ts = (get_unique_id (after_ids k ts)).1

-- Between two calls the next number is the count of calls so far, modulo the number of timers,
-- where the wrap to 0 may be still to come.
record IsTurn (n k : ℕ) (ts : Timers) : Type 0 where
  size : ts.nof_timers ≡ n
  turn : ((ts.next_timer < n) × (ts.next_timer ≡ k % n)) ⊎ ((ts.next_timer ≡ n) × (k % n ≡ 0))

next_mod :
    (k n x : ℕ)
    → x < n
    → x ≡ k % n
    → ((x + 1 < n) × (x + 1 ≡ suc k % n)) ⊎ ((x + 1 ≡ n) × (suc k % n ≡ 0))
next_mod k n x h e = grind arith

zero_mod : (n : ℕ) → 0 < n → 0 % n ≡ 0
zero_mod n h = grind arith

get_unique_id-IsTurn :
    (n k : ℕ) (ts : Timers)
    → 0 < n
    → n < 2 ^ 32
    → IsTurn n k ts
    → ((get_unique_id ts).0 ≡ k % n) × IsTurn n (suc k) (get_unique_id ts).1
unfolding get_unique_id
get_unique_id-IsTurn n k ts pos fits t = elim t.turn [
  | inl (below, at) ↦ (
    ground arith,
    record { size = ground arith; turn = ground (arith, next_mod k n ts.next_timer below at) },
  )
  | inr (top, at) ↦ (
    ground arith,
    record { size = ground arith; turn = ground (arith, next_mod k n 0 pos (sym at)) },
  )
]

after_ids-IsTurn : (k n : ℕ) → 0 < n → n < 2 ^ 32 → IsTurn n k (after_ids k (new_timers n))
unfolding new_timers
after_ids-IsTurn zero n pos fits = record { size = refl; turn = inl (pos, sym (zero_mod n pos)) }
after_ids-IsTurn (suc k) n pos fits =
    (get_unique_id-IsTurn n k (after_ids k (new_timers n)) pos fits
      (after_ids-IsTurn k n pos fits)).1

-- Of `n` fresh timers (at least one, and `n` in 32 bits) call `k` (from 0) of `get_unique_id`
-- gives out `k % n`.
pub get_unique_id-after_ids :
    (k n : ℕ) → 0 < n → n < 2 ^ 32 → (get_unique_id (after_ids k (new_timers n))).0 ≡ k % n
get_unique_id-after_ids k n pos fits =
    (get_unique_id-IsTurn n k (after_ids k (new_timers n)) pos fits
      (after_ids-IsTurn k n pos fits)).0
