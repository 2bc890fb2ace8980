-- ===== src/Mac/Bsr/Defs.antt =====
-- ue/src/mac/proc_bsr.cc: the state, its configuration and the loops over the logical channels.
use srs_ue.Prelude.{
  ℕ, ◌+◌, ◌-◌, Bool, true, false, not, ◌&&◌, ◌||◌, List, [], ◌∷◌, Option, none, some, ltb, ◌==◌,
  if◌then◌else◌, get_or, set, replicate, u32,
}
use srs_ue.Prelude.Int.{ℤ, pos, negsuc, ltb_ℤ}
use srs_ue.Common.Timers
use srs_ue.Common.Timers.{Timer}

-- `triggered_bsr_type_t`, `bsr_format_t` and `bsr_t`.
pub data Trigger : Type 0 where
  idle regular padding periodic : Trigger

pub data Format : Type 0 where
  long_bsr short_bsr trunc_bsr : Format

pub record Report : Type 0 where
  pub format : Format
  pub buff_size : List ℕ

abbrev pub max_lcid : ℕ
max_lcid = 6

-- `lcg` and `priorities` hold an `int` for each channel, -1 where nothing is set.
pub record Bsr : Type 0 where
  pub reset_sr : Bool
  pub initiated : Bool
  pub lcg : List ℤ
  pub last_pending_data : List ℕ
  pub priorities : List ℤ
  pub triggered : Trigger
  pub sr_is_sent : Bool
  pub last_print : ℕ
  pub next_tx_tti : ℕ
  pub timer_periodic : Timer
  pub timer_retx : Timer

abbrev pub unset : ℤ
unset = negsuc 0

unfoldable pub reset : Bsr → Bsr
reset b = record b {
  timer_periodic = Timers.reset (Timers.stop b.timer_periodic);
  timer_retx = Timers.reset (Timers.stop b.timer_retx);
  reset_sr = false;
  sr_is_sent = false;
  triggered = idle;
  lcg = pos 0 ∷ replicate 5 unset;
  priorities = pos 99 ∷ replicate 5 unset;
  last_pending_data = replicate 6 0;
  next_tx_tti = 0;
}

unfoldable pub init : Bsr → Bsr
unfolding reset
init b = record (reset b) { initiated = true }

-- An `int` from and to the `uint32_t` of the same bits.
abbrev pub to_int : ℕ → ℤ
to_int p = if ltb p 2147483648 then pos p else negsuc (4294967296 - p - 1)

abbrev pub to_unsigned : ℤ → ℕ
to_unsigned (pos n) = n
to_unsigned (negsuc n) = 4294967296 - 1 - n

unfoldable pub setup_lcg : ℕ → ℕ → Bsr → Bsr
setup_lcg lcid new_lcg b =
    if ltb lcid max_lcid && ltb new_lcg 4
    then record b { lcg = set b.lcg lcid (pos new_lcg) }
    else b

unfoldable pub set_priority : ℕ → ℕ → Bsr → Bsr
set_priority lcid priority b =
    if ltb lcid max_lcid
    then record b { priorities = set b.priorities lcid (to_int priority) }
    else b

unfoldable pub set_tx_tti : ℕ → Bsr → Bsr
set_tx_tti tti b = record b { next_tx_tti = tti }

abbrev pub is_set : ℤ → Bool
is_set (pos n) = true
is_set (negsuc n) = false

-- The body of `find_max_priority_lcid`: `max_prio` is unsigned, so `priorities[i] > max_prio`
-- compares the bits of `priorities[i]` as an unsigned number.
unfoldable pub max_rounds : List ℤ → ℕ → ℕ → ℕ → ℕ
max_rounds [] i max_prio max_idx = max_idx
max_rounds (p ∷ ps) i max_prio max_idx =
    if ltb max_prio (to_unsigned p)
    then max_rounds ps (i + 1) (to_unsigned p) i
    else max_rounds ps (i + 1) max_prio max_idx

unfoldable pub find_max_priority_lcid : Bsr → ℕ
unfolding max_rounds
find_max_priority_lcid b = max_rounds b.priorities 0 0 0

module _ (rlc : ℕ → ℕ) where
  -- Does some channel `j` with data have a higher priority than `p`?
  unfoldable pub outranked : List ℤ → ℕ → ℤ → Bool
  outranked [] j p = false
  outranked (q ∷ qs) j p = (ltb 0 (rlc j) && ltb_ℤ p q) || outranked qs (j + 1) p

  -- The loop of `check_highest_channel`: the first channel that no other one outranks.
  unfoldable pub highest_rounds : List ℤ → List ℤ → ℕ → Option ℕ
  unfolding outranked
  highest_rounds prios [] i = none
  highest_rounds prios (l ∷ ls) i =
      let rest = highest_rounds prios ls (i + 1) in
      if is_set l && ltb 0 (rlc i) && not (outranked prios 0 (get_or prios i unset))
      then some i
      else rest

  -- Is there new data for channel `i`? Then a Regular BSR is triggered.
  unfoldable pub trigger_if_new : ℕ → Bsr → Bsr × Bool
  trigger_if_new i b =
      if ltb (get_or b.last_pending_data i 0) (rlc i)
      then (record b { triggered = regular }, true)
      else (b, false)

  unfoldable pub check_highest_channel : Bsr → Bsr × Bool
  unfolding highest_rounds trigger_if_new
  check_highest_channel b = elim (highest_rounds b.priorities b.lcg 0) [
    | none ↦ (b, false)
    | some i ↦ trigger_if_new i b
  ]

  unfoldable pub buffer_rounds : List ℤ → ℕ → ℕ → ℕ
  buffer_rounds [] i buffer = buffer
  buffer_rounds (l ∷ ls) i buffer =
      buffer_rounds ls (i + 1) (if is_set l then u32 (buffer + rlc i) else buffer)

  unfoldable pub get_buffer_state : Bsr → ℕ
  unfolding buffer_rounds
  get_buffer_state b = buffer_rounds b.lcg 0 0

  -- The loop of `check_single_channel`: the last channel with data, and how many have data.
  unfoldable pub single_rounds : List ℤ → ℕ → ℕ × ℕ → ℕ × ℕ
  single_rounds [] i found = found
  single_rounds (l ∷ ls) i (lcid, count) =
      single_rounds ls (i + 1) (if is_set l && ltb 0 (rlc i) then (i, count + 1) else (lcid, count))

  unfoldable pub check_single_channel : Bsr → Bsr × Bool
  unfolding single_rounds trigger_if_new
  check_single_channel b =
      let (lcid, count) = single_rounds b.lcg 0 (0, 0) in
      if count == 1 then trigger_if_new lcid b else (b, false)

  unfoldable pub pending_rounds : List ℕ → ℕ → List ℕ
  pending_rounds [] i = []
  pending_rounds (d ∷ ds) i = rlc i ∷ pending_rounds ds (i + 1)

  unfoldable pub update_pending_data : Bsr → Bsr
  unfolding pending_rounds
  update_pending_data b = record b { last_pending_data = pending_rounds b.last_pending_data 0 }
