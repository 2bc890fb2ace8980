-- ===== src/Mac/Bsr/Invariant.antt =====
-- The arrays of the BSR procedure under every sequence of calls.
use srs_ue.Prelude.{
  ℕ, zero, suc, ◌+◌, ◌≡◌, refl, ◌∙◌, ◌<◌, List, [], ◌∷◌, length, length-set, set, arith,
}
use srs_ue.Prelude.Int.{ℤ, pos}
use srs_ue.Mac.Bsr.Defs.{
  Bsr, init, reset, setup_lcg, set_priority, set_tx_tti, pending_rounds, update_pending_data,
  check_single_channel, to_int,
}
use srs_ue.Mac.Bsr.Rounds.{
  step, timer_expired, grant_report, restart_periodic, need_to_send_bsr_on_ul_grant,
  generate_padding_bsr, pad_report, need_to_reset_sr, need_to_send_sr,
}
use srs_ue.Mac.Bsr.Totals.{AllInGroup}
use srs_ue.Mac.Bsr.Request.{configured, single-Raises, highest-Raises}

pub record IsValid (b : Bsr) : Type 0 where
  pub groups : length b.lcg ≡ 6
  pub ranks : length b.priorities ≡ 6
  pub pending : length b.last_pending_data ≡ 6
  pub in_group : AllInGroup b.lcg

-- The calls that other components make; `rlc` is the state of the queues at that time.
pub data Call : Type 0 where
  resets : Call
  sets_lcg sets_priority : ℕ → ℕ → Call
  sets_tx_tti : ℕ → Call
  steps : (rlc : ℕ → ℕ) → ℤ → ℤ → ℕ → Call
  expires : ℤ → ℕ → Call
  grants pads : (rlc : ℕ → ℕ) → ℕ → Call
  asks_reset : Call
  asks_sr : (interval : ℕ → ℕ → ℕ) → ℕ → Call

pub call : ℕ → Call → Bsr → Bsr
call me resets b = reset b
call me (sets_lcg lcid lcg) b = setup_lcg lcid lcg b
call me (sets_priority lcid p) b = set_priority lcid p b
call me (sets_tx_tti tti) b = set_tx_tti tti b
call me (steps rlc cp cr tti) b = step rlc me cp cr tti b
call me (expires cp id) b = timer_expired cp id b
call me (grants rlc size) b = (need_to_send_bsr_on_ul_grant rlc size b).0
call me (pads rlc bytes) b = (generate_padding_bsr rlc bytes b).0
call me asks_reset b = (need_to_reset_sr b).0
call me (asks_sr interval tti) b = (need_to_send_sr interval tti b).0

pub calls : ℕ → List Call → Bsr → Bsr
calls me [] b = b
calls me (c ∷ cs) b = calls me cs (call me c b)

AllInGroup-set : (ls : List ℤ) (i k : ℕ) → k < 4 → AllInGroup ls → AllInGroup (set ls i (pos k))
AllInGroup-set [] i k h g = tt
AllInGroup-set (l ∷ ls) zero k h g = (h, g.1)
AllInGroup-set (l ∷ ls) (suc i) k h g = (g.0, AllInGroup-set ls i k h g.1)

length-pending_rounds :
    (rlc : ℕ → ℕ) (ds : List ℕ) (i : ℕ) → length (pending_rounds rlc ds i) ≡ length ds
unfolding pending_rounds
length-pending_rounds rlc [] i = refl
length-pending_rounds rlc (d ∷ ds) i = omega (arith, length-pending_rounds rlc ds (i + 1))

-- What a call that touches none of the arrays keeps.
abbrev SameArrays : Bsr → Bsr → Type 0
SameArrays b b' =
    (b'.lcg ≡ b.lcg)
    × (b'.priorities ≡ b.priorities)
    × (length b'.last_pending_data ≡ length b.last_pending_data)

SameArrays-IsValid : {b b' : Bsr} → SameArrays b b' → IsValid b → IsValid b'
SameArrays-IsValid {b} {b'} (l, p, d) v = record {
  groups = rw l v.groups;
  ranks = rw p v.ranks;
  pending = d ∙ v.pending;
  in_group = rw l v.in_group;
}

step-SameArrays :
    (rlc : ℕ → ℕ) (me : ℕ) (cp cr : ℤ) (tti : ℕ) (b : Bsr) → SameArrays b (step rlc me cp cr tti b)
unfolding step update_pending_data
step-SameArrays rlc me cp cr tti b = ground (
  arith,
  single-Raises rlc (configured me cp cr b),
  highest-Raises rlc (configured me cp cr b),
  highest-Raises rlc (check_single_channel rlc (configured me cp cr b)).0,
  length-pending_rounds rlc b.last_pending_data 0,
)

reset-IsValid : (b : Bsr) → IsValid (reset b)
unfolding reset
reset-IsValid b = omega arith

call-IsValid : (me : ℕ) (c : Call) (b : Bsr) → IsValid b → IsValid (call me c b)
unfolding call setup_lcg set_priority set_tx_tti timer_expired need_to_reset_sr need_to_send_sr
    need_to_send_bsr_on_ul_grant grant_report restart_periodic generate_padding_bsr pad_report
call-IsValid me resets b v = reset-IsValid b
call-IsValid me (sets_lcg lcid lcg) b v =
    ground (arith, length-set b.lcg lcid (pos lcg), AllInGroup-set b.lcg lcid lcg)
call-IsValid me (sets_priority lcid p) b v = ground (arith, length-set b.priorities lcid (to_int p))
call-IsValid me (sets_tx_tti tti) b v = ground arith
call-IsValid me (steps rlc cp cr tti) b v =
    SameArrays-IsValid {b = b} (step-SameArrays rlc me cp cr tti b) v
call-IsValid me (expires cp id) b v = ground arith
call-IsValid me (grants rlc size) b v = ground arith
call-IsValid me (pads rlc bytes) b v = ground arith
call-IsValid me asks_reset b v = ground arith
call-IsValid me (asks_sr interval tti) b v = ground arith

calls-IsValid : (me : ℕ) (cs : List Call) (b : Bsr) → IsValid b → IsValid (calls me cs b)
unfolding calls
calls-IsValid me [] b v = v
calls-IsValid me (c ∷ cs) b v = calls-IsValid me cs (call me c b) (call-IsValid me c b v)

-- After `init`, and whatever calls follow in whatever order, the three arrays have their six
-- entries and every group number that is set is below 4, so `buff_size[lcg[i]]` is never written
-- out of range.
pub calls-init-IsValid : (me : ℕ) (cs : List Call) (b : Bsr) → IsValid (calls me cs (init b))
unfolding init
calls-init-IsValid me cs b = calls-IsValid me cs (init b) (ground (arith, reset-IsValid b))
